-- ===== src/Actions/Executor/Rollback.antt =====
-- `rollback` of src/actions/executor.ts: the compensating write, from the captured prior state.
pub mod Laws
pub mod Tables
use sidestage_copilot.Prelude.{
  ℕ, String, str_append, Bool, false, not, Option, none, some, if◌then◌else◌, ltb,
}
use sidestage_copilot.Prelude.Int.{pos}
use sidestage_copilot.Domain.{rolled_back, is_committed}
use sidestage_copilot.Js.{whole}
use sidestage_copilot.Dict.{Dict, get, put}
use sidestage_copilot.Catalog.{Listing, ListingPatch, no_patch, mutate_listing}
use sidestage_copilot.Actions.Port.{
  Reservation, RemoteListing, Outcome, ok, threw, MarketplaceAdapter,
}
use sidestage_copilot.Actions.Preflight.{Snapshot}
use sidestage_copilot.Actions.Store.{
  not_committed, window_closed, rollback_refused, Action, restored_to, Commit, ActionPatch,
  patched_action,
}
use sidestage_copilot.Actions.Executor.State.{
  World, Env, Reply, returned, not_found, transaction_threw, statement_threw, announced,
  before_remote, note, emit, patch_row, fail, changed, listing_written, action_rolled_back, ◌>>=◌,
}

abbrev listing_version : Option Listing → ℕ
listing_version none = 0
listing_version (some l) = l.version

abbrev pub rollback_key : Action → String
rollback_key a = str_append a.idempotency_key ":rollback"

abbrev rollback_reservation : Action → Option Listing → Reservation
rollback_reservation a current = record {
  token = str_append "res_rollback_" a.idempotency_key;
  listing_id = a.listing_id;
  expected_version = listing_version current;
  intent = record {
    kind = a.kind;
    listing_id = a.listing_id;
    expected_version = listing_version current;
    params = a.params;
    idempotency_key = rollback_key a;
  };
}

abbrev pub restoring : Snapshot → ListingPatch
restoring b = record no_patch {
  price_cents = some (whole (pos b.price_cents));
  qty = some (whole (pos b.qty));
  state = some b.state;
  pinned = some b.pinned;
}

-- The listing gets its prior state back, where one was captured.
unfoldable pub restore_local : Env → Action → Dict Listing → Option (Dict Listing)
restore_local e a d = elim a.before [
  | none ↦ some d
  | some b ↦ mutate_listing a.listing_id (restoring b) e.now d
]

-- The transaction; the ledger row is an upsert.
unfoldable pub record_rollback :
    {S : Type 0} → Env → Action → World S → Option (Dict Listing × Dict Commit)
unfolding restore_local
record_rollback e a w =
    let c : Commit = record {
      action_id = a.id;
      committed_at = e.now;
      result = restored_to a.before;
    } in
    if e.tx_fails then none else do
      listings ← restore_local e a w.listings
      some (listings, put (rollback_key a) c w.commits)

-- `action.undoableUntil && Date.now() > Date.parse(action.undoableUntil)`
abbrev pub window_over : ℕ → Option ℕ → Bool
window_over now none = false
window_over now (some t) = ltb t now

abbrev closing_time : Option ℕ → ℕ
closing_time none = 0
closing_time (some t) = t

module _ (m : MarketplaceAdapter) (e : Env) (actor : String) where
  -- A transaction that throws is not caught: the remote write stands.
  undone : Action → Option (Dict Listing × Dict Commit) → World m.State → Reply × World m.State
  undone a none w = (transaction_threw, w)
  undone a (some (listings, commits)) w =
      let p : ActionPatch = record {
        status = some rolled_back;
        undoable_until = some none;
        error = none;
      } in
      let w' : World m.State =
        emit (listing_written a.listing_id) (record w { listings = listings; commits = commits }) in
      if e.settles
      then announced e action_rolled_back actor (patched_action p a) (patch_row a p w')
      else (statement_threw, w')

  after_compensation :
      Action → Outcome RemoteListing × m.State → World m.State → Reply × World m.State
  after_compensation a (threw err, s) w = fail e a (rollback_refused err) (record w { remote = s })
  after_compensation a (ok r, s) w = undone a (record_rollback e a w) (record w { remote = s })

  rollback_found : Action → World m.State → Reply × World m.State
  unfolding undone after_compensation
  rollback_found a w =
      if not (is_committed a.status)
      then fail e a (not_committed a.status) w
      else if window_over e.now a.undoable_until
      then fail e a (window_closed (closing_time a.undoable_until)) w
      else after_compensation a
          (m.compensate (rollback_reservation a (get a.listing_id w.listings))
            (before_remote a.before) w.remote)
          w

  unfoldable pub rollback : String → World m.State → Reply × World m.State
  unfolding rollback_found
  rollback id w = elim (get id w.actions) [ none ↦ (not_found, w) | some a ↦ rollback_found a w ]
