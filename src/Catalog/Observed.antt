-- ===== src/Catalog/Observed.antt =====
-- `upsertObservedLot` and `recordSale` of src/domain/repo.ts: the lots that are seen on a stream, and
-- the sales that are read off it. A lot's reference is a hash of its title, and its listing's id a
-- part of that: both are parameters. `none` is a statement that throws; the statements before it are
-- not undone by the code, and are left out here.
pub mod Laws
use sidestage_copilot.Prelude.{
  ℕ, ◌+◌, String, str_eq, Bool, true, false, not, ◌&&◌, ◌||◌, Option, none, some, List, [], ◌∷◌,
  ◌++◌, if◌then◌else◌, is_some, leb, ◌==◌, any,
}
use sidestage_copilot.Prelude.Int.{pos}
use sidestage_copilot.Js.{whole, int4_max}
use sidestage_copilot.Dict.{Dict, get, put, update}
use sidestage_copilot.Domain.{ListingState, live, ended, is_ended}
use sidestage_copilot.Catalog.{Listing, ListingPatch, no_patch, mutate_listing, set_pinned}

pub record ObservedLot : Type 0 where
  pub title : String
  pub price_cents : ℕ
  pub sold_out : Bool

-- A row of `sales`; those of this path are all observed.
pub record Sale : Type 0 where
  pub listing_id : String
  pub title : String
  pub price_cents : ℕ
  pub qty : ℕ
  pub at : ℕ

-- `refs` is the column external_ref, as a map to the id of its row.
pub record Stall : Type 0 where
  pub listings : Dict Listing
  pub refs : Dict String
  pub observed_at : Dict ℕ
  pub sales : List Sale

pub record Hashes : Type 0 where
  pub ref_of : String → String
  pub id_of : String → String

pub record Observation : Type 0 where
  pub changed : Bool
  pub created : Bool

-- `ON CONFLICT (show_id, listing_id, at) DO NOTHING`
abbrev same_sale : Sale → Sale → Bool
same_sale s t = str_eq t.listing_id s.listing_id && (t.at == s.at)

unfoldable pub record_sale : Sale → List Sale → List Sale
record_sale s sales = if any (same_sale s) sales then sales else sales ++ (s ∷ [])

abbrev pub quantity : ObservedLot → ℕ
quantity lot = if lot.sold_out then 0 else 1

abbrev pub state_of : ObservedLot → ListingState
state_of lot = if lot.sold_out then ended else live

abbrev pub new_lot : ObservedLot → ℕ → Listing
new_lot lot now = record {
  title = lot.title;
  price_cents = lot.price_cents;
  floor_price_cents = lot.price_cents;
  cost_cents = 0;
  qty = quantity lot;
  sold_this_show = 0;
  views = 0;
  state = state_of lot;
  pinned = true;
  version = 1;
  authenticated = false;
  cert_id = none;
  updated_at = now;
}

abbrev pub patch_of : ObservedLot → ListingPatch
patch_of lot = record no_patch {
  price_cents = some (whole (pos lot.price_cents));
  qty = some (whole (pos (quantity lot)));
  state = some (state_of lot);
}

abbrev same_state : ListingState → ListingState → Bool
same_state live live = true
same_state ended ended = true
same_state ListingState.draft ListingState.draft = true
same_state ListingState.queued ListingState.queued = true
same_state _ _ = false

abbrev pub has_changed : ObservedLot → Listing → Bool
has_changed lot l =
    not (l.price_cents == lot.price_cents)
    || not (l.qty == quantity lot)
    || not (same_state l.state (state_of lot))
    || (not lot.sold_out && not l.pinned)

-- A new lot is pinned whether or not it is sold out.
abbrev with_new : Hashes → ObservedLot → ℕ → Stall → Dict Listing → Stall
with_new h lot now s d =
    let ref = h.ref_of lot.title in
    record s {
      listings = d;
      refs = put ref (h.id_of ref) s.refs;
      observed_at = put (h.id_of ref) now s.observed_at;
    }

unfoldable pub create_lot : Hashes → ObservedLot → ℕ → Stall → Option Stall
create_lot h lot now s =
    let id = h.id_of (h.ref_of lot.title) in
    if is_some (get id s.listings) || not (leb lot.price_cents int4_max)
    then none
    else elim (set_pinned id now (put id (new_lot lot now) s.listings)) [
      | none ↦ none
      | some d ↦ some (with_new h lot now s d)
    ]

-- The floor tracks the price of the stream.
abbrev pub with_floor : ObservedLot → Listing → Listing
with_floor lot l = record l { floor_price_cents = lot.price_cents }

abbrev pub hammered : ObservedLot → Listing → Bool
hammered lot l = lot.sold_out && not (is_ended l.state)

abbrev pub sale_of : String → ObservedLot → ℕ → Sale
sale_of id lot now = record {
  listing_id = id;
  title = lot.title;
  price_cents = lot.price_cents;
  qty = 1;
  at = now;
}

abbrev pub pinned_if_live :
    ObservedLot → Listing → String → ℕ → Dict Listing → Option (Dict Listing)
pinned_if_live lot l id now d =
    if not lot.sold_out && not l.pinned then set_pinned id now d else some d

abbrev with_change : ObservedLot → Listing → String → ℕ → Stall → Dict Listing → Stall
with_change lot l id now s d = record s {
  listings = d;
  observed_at = put id now s.observed_at;
  sales = if hammered lot l then record_sale (sale_of id lot now) s.sales else s.sales;
}

unfoldable pub move_lot : ObservedLot → Listing → String → ℕ → Stall → Option Stall
move_lot lot l id now s =
    elim (mutate_listing id (patch_of lot) now (update id (with_floor lot) s.listings)) [
      | none ↦ none
      | some d ↦ elim (pinned_if_live lot l id now d) [
        | none ↦ none
        | some d' ↦ some (with_change lot l id now s d')
      ]
    ]

abbrev as_created : Option Stall → Option (Observation × Stall)
as_created none = none
as_created (some s) = some (record { changed = true; created = true }, s)

abbrev as_moved : Option Stall → Option (Observation × Stall)
as_moved none = none
as_moved (some s) = some (record { changed = true; created = false }, s)

abbrev observe_found :
    ObservedLot → String → ℕ → Stall → Option Listing → Option (Observation × Stall)
observe_found lot id now s none = none
observe_found lot id now s (some l) =
    if has_changed lot l
    then as_moved (move_lot lot l id now s)
    else some (
      record { changed = false; created = false },
      record s { observed_at = put id now s.observed_at },
    )

unfoldable pub upsert_observed_lot : Hashes → ObservedLot → ℕ → Stall → Option (Observation × Stall)
unfolding create_lot move_lot
upsert_observed_lot h lot now s = elim (get (h.ref_of lot.title) s.refs) [
  | none ↦ as_created (create_lot h lot now s)
  | some id ↦ observe_found lot id now s (get id s.listings)
]
