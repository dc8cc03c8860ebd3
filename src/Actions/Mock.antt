-- ===== src/Actions/Mock.antt =====
-- src/actions/marketplace/mock.ts: a marketplace with its own copy of the listings, optimistic
-- concurrency and injected failures. Latency is left out; a draw of `Math.random() < failRate` is
-- the next entry of `draws`, and a run of draws that has ended succeeds.
pub mod Laws
use sidestage_copilot.Prelude.{
  ℕ, ◌+◌, String, str_eq, str_append, Bool, true, false, not, ◌&&◌, ◌||◌, Option, none, some, List,
  [], ◌∷◌, ◌++◌, if◌then◌else◌, is_some, ◌==◌,
}
use sidestage_copilot.Domain.{
  ActionKind, push_listing, swap_pinned, markdown_price, adjust_stock, end_listing, live, ended,
}
use sidestage_copilot.Js.{Num, nan, Value, Runtime}
use sidestage_copilot.Dict.{Dict, get, put, remove, update, update_all}
use sidestage_copilot.Actions.Port.{
  Params, ActionIntent, Reservation, RemoteListing, RemoteFields, conflict, apply_error, Outcome,
  ok, threw, MarketplaceAdapter,
}

pub record Mock : Type 0 where
  pub remote : Dict RemoteListing
  pub reservations : Dict Reservation
  pub fail_next_apply : Bool
  pub draws : List Bool

-- `Number(params.k)`; a parameter that is absent is `undefined`.
unfoldable pub number_param : Runtime → String → Params → Num
number_param rt k p = elim (get k p) [ none ↦ nan | some v ↦ rt.number v ]

-- `{ ...cur, ...mutationFor(intent, cur) }`
unfoldable pub mutation_for : Runtime → ActionKind → Params → RemoteListing → RemoteListing
mutation_for rt markdown_price p cur = record cur {
  price_cents = some (number_param rt "newPriceCents" p);
}
mutation_for rt adjust_stock p cur = record cur { qty = some (number_param rt "newQty" p) }
mutation_for rt swap_pinned p cur = record cur { pinned = some true; state = some live }
mutation_for rt push_listing p cur = record cur { state = some live }
mutation_for rt end_listing p cur = record cur { state = some ended; pinned = some false }
mutation_for rt _ p cur = cur

-- `reset`, with one listing to an identifier
abbrev reset : Dict RemoteListing → Mock → Mock
reset seed m = record m { remote = seed }

abbrev fail_next : Bool → Mock → Mock
fail_next on m = record m { fail_next_apply = on }

unfoldable pub drift_remote : String → (RemoteListing → RemoteListing) → Mock → Mock
drift_remote id patch m = record m {
  remote = update id (λ cur. record (patch cur) { version = cur.version + 1 }) m.remote;
}

unfoldable pub reserve : ActionIntent → Mock → Outcome Reservation × Mock
reserve i m = elim (get i.listing_id m.remote) [
  | none ↦ (threw apply_error, m)
  | some cur ↦
      if not (cur.version == i.expected_version)
      then (threw (conflict i.expected_version cur.version), m)
      else let res : Reservation = record {
        token = str_append "res_" i.idempotency_key;
        listing_id = i.listing_id;
        expected_version = i.expected_version;
        intent = i;
      } in
        (ok res, record m { reservations = put res.token res m.reservations })
]

-- `this.opts.failNextApply || Math.random() < this.opts.failRate`, and the draws that are left
abbrev draw : List Bool → Bool
draw [] = false
draw (b ∷ bs) = b

abbrev undrawn : List Bool → List Bool
undrawn [] = []
undrawn (b ∷ bs) = bs

abbrev is_swap : ActionKind → Bool
is_swap swap_pinned = true
is_swap _ = false

abbrev truthy : Option Bool → Bool
truthy none = false
truthy (some b) = b

-- One round of the loop that unpins whatever else was pinned.
abbrev unpinned : String → String → RemoteListing → RemoteListing
unpinned id k l =
    if not (str_eq k id) && truthy l.pinned
    then record l { pinned = some false; version = l.version + 1 }
    else l

abbrev pub written : Runtime → Reservation → RemoteListing → RemoteListing
written rt res cur = record (mutation_for rt res.intent.kind res.intent.params cur) {
  version = cur.version + 1;
}

-- The remote map after the write has been accepted.
unfoldable pub apply_remote : Runtime → Reservation → Dict RemoteListing → Dict RemoteListing
unfolding mutation_for
apply_remote rt res d =
    let next = update res.listing_id (written rt res) d in
    if is_swap res.intent.kind then update_all (unpinned res.listing_id) next else next

-- To read the version of a listing that has vanished since the reservation throws too.
unfoldable pub apply : Runtime → Reservation → Mock → Outcome RemoteListing × Mock
apply rt res m =
    if not (is_some (get res.token m.reservations))
    then (threw apply_error, m)
    else if m.fail_next_apply
    then (threw apply_error, record m { fail_next_apply = false })
    else if draw m.draws
    then (threw apply_error, record m { fail_next_apply = false; draws = undrawn m.draws })
    else elim (get res.listing_id m.remote) [
      | none ↦ (threw apply_error, record m { draws = undrawn m.draws })
      | some cur ↦ (
        ok (written rt res cur),
        record m { remote = apply_remote rt res m.remote; draws = undrawn m.draws },
      )
    ]

-- `confirm` and `cancel`
unfoldable pub release : Reservation → Mock → Mock
release res m = record m { reservations = remove res.token m.reservations }

-- `{ ...cur, ...before, id: cur.id, version: cur.version + 1 }`
abbrev pub restored : RemoteFields → RemoteListing → RemoteListing
restored b cur = record cur {
  price_cents = b.price_cents;
  qty = b.qty;
  state = b.state;
  pinned = b.pinned;
  version = cur.version + 1;
}

unfoldable pub compensate : Reservation → RemoteFields → Mock → Outcome RemoteListing × Mock
unfolding release
compensate res b m = elim (get res.listing_id m.remote) [
  | none ↦ (threw apply_error, m)
  | some cur ↦ (
    ok (restored b cur),
    record (release res m) { remote = update res.listing_id (restored b) m.remote },
  )
]

abbrev pub mock_adapter : Runtime → MarketplaceAdapter
mock_adapter rt = record {
  State = Mock;
  reserve = reserve;
  apply = apply rt;
  confirm = release;
  cancel = release;
  compensate = compensate;
}
