-- ===== src/Actions/Mock/Laws.antt =====
-- What the marketplace that the program ships with does on each call that succeeds.
use sidestage_copilot.Prelude.{str_refl, ◌≡◌, inl, inr, true, some, arith, Option-cases, is_some}
use sidestage_copilot.Dict.{get, update, Dict}
use sidestage_copilot.Dict.Laws.{get-update, get-update_all}
use sidestage_copilot.Js.{Runtime}
use sidestage_copilot.Actions.Port.{
  ActionIntent, Reservation, RemoteListing, RemoteFields, MarketplaceError, ok, threw,
}
use sidestage_copilot.Actions.Mock.{
  Mock, reserve, apply, apply_remote, written, unpinned, release, compensate, restored,
}

pub record Reserved (i : ActionIntent) (m : Mock) (res : Reservation) (m' : Mock) : Type 0 where
  pub cur : RemoteListing
  pub there : get i.listing_id m.remote ≡ some cur
  pub version : cur.version ≡ i.expected_version
  pub untouched : m'.remote ≡ m.remote
  pub intent : res.intent ≡ i
  pub listing_id : res.listing_id ≡ i.listing_id

-- A reservation is taken only at the version that the action was planned against, and it changes
-- no listing.
pub reserve-Reserved :
    (i : ActionIntent) (m m' : Mock) (res : Reservation)
    → reserve i m ≡ (ok res, m')
    → Reserved i m res m'
unfolding reserve
reserve-Reserved i m m' res h = elim (Option-cases (get i.listing_id m.remote)) [
  | inl missing ↦ absurd (ground arith)
  | inr (cur, there) ↦ record {
    cur = cur;
    there = there;
    version = ground arith;
    untouched = ground arith;
    intent = ground arith;
    listing_id = ground arith;
  }
]

-- A write that is accepted is the mutation of its kind, under a held reservation.
pub apply-remote :
    (rt : Runtime) (res : Reservation) (m m' : Mock) (l : RemoteListing)
    → apply rt res m ≡ (ok l, m')
    → (m'.remote ≡ apply_remote rt res m.remote) × (is_some (get res.token m.reservations) ≡ true)
unfolding apply
apply-remote rt res m m' l h = (ground arith, ground arith)

-- The listing itself after the write, for every kind.
pub get-apply_remote :
    (rt : Runtime) (res : Reservation) (d : Dict RemoteListing) (cur : RemoteListing)
    → get res.listing_id d ≡ some cur
    → get res.listing_id (apply_remote rt res d) ≡ some (written rt res cur)
unfolding apply_remote
get-apply_remote rt res d cur h = ground (
  arith,
  get-update res.listing_id res.listing_id (written rt res) d,
  get-update_all res.listing_id (unpinned res.listing_id)
      (update res.listing_id (written rt res) d),
  str_refl res.listing_id,
)

-- A write that is refused leaves every listing as it was.
pub apply-threw :
    (rt : Runtime) (res : Reservation) (m m' : Mock) (err : MarketplaceError)
    → apply rt res m ≡ (threw err, m')
    → m'.remote ≡ m.remote
unfolding apply
apply-threw rt res m m' err h = ground arith

-- A compensation writes the captured fields back, and moves the version forward.
pub get-compensate :
    (res : Reservation) (b : RemoteFields) (m : Mock) (cur : RemoteListing)
    → get res.listing_id m.remote ≡ some cur
    → get res.listing_id (compensate res b m).1.remote ≡ some (restored b cur)
unfolding compensate release
get-compensate res b m cur h =
    ground (
      arith,
      get-update res.listing_id res.listing_id (restored b) m.remote,
      str_refl res.listing_id,
    )
