-- ===== src/Actions/Executor/Approve.antt =====
-- `approve` of src/actions/executor.ts: the two-phase commit, one function for each phase. A phase
-- takes what the phase before it returned, and fails or goes on.
pub mod Phases
pub mod Atomic
pub mod Trace
pub mod Sync
pub mod Drift
use sidestage_copilot.Prelude.{
  ℕ, ◌+◌, ◌*◌, String, Bool, not, Option, none, some, if◌then◌else◌, is_some,
}
use sidestage_copilot.Domain.{committing, committed, is_committed}
use sidestage_copilot.Dict.{Dict, get}
use sidestage_copilot.Catalog.{Listing}
use sidestage_copilot.Actions.Port.{
  ActionIntent, Reservation, RemoteListing, Outcome, ok, threw, MarketplaceAdapter,
}
use sidestage_copilot.Actions.Store.{
  preflight_not_passed, reserve_refused, apply_refused, local_failed_and_compensated,
  local_failed_not_compensated, Action, wrote, Commit, ActionPatch, patched_action,
}
use sidestage_copilot.Actions.Executor.State.{
  World, Env, Reply, returned, not_found, statement_threw, announced, apply_local, insert_commit,
  before_remote, version_of, set_status, note, emit, patch_row, fail, changed, listing_written,
  action_committed, ◌>>=◌,
}

abbrev pub clear_error : ActionPatch → ActionPatch
clear_error p = record p { error = some none }

-- The intent that goes to the marketplace.
abbrev pub intent_of : Action → ActionIntent
intent_of a = record {
  kind = a.kind;
  listing_id = a.listing_id;
  expected_version = version_of a.before;
  params = a.params;
  idempotency_key = a.idempotency_key;
}

abbrev ledger_row : Env → Action → RemoteListing → Commit
ledger_row e a r = record { action_id = a.id; committed_at = e.now; result = wrote r }

-- The transaction of step 4: both tables, or neither.
unfoldable pub record_locally :
    {S : Type 0} → Env → Action → RemoteListing → World S → Option (Dict Listing × Dict Commit)
record_locally e a r w = if e.tx_fails then none else do
  listings ← apply_local e a w.listings
  commits ← insert_commit a.idempotency_key (ledger_row e a r) w.commits
  some (listings, commits)

module _ (m : MarketplaceAdapter) (e : Env) (actor : String) (a : Action) where
  compensated : Outcome RemoteListing × m.State → World m.State → Reply × World m.State
  compensated (threw err, s) w =
      fail e a (local_failed_not_compensated err) (record w { remote = s })
  compensated (ok r, s) w = fail e a local_failed_and_compensated (record w { remote = s })

  -- Step 5, with what the transaction has written.
  confirmed : Reservation → Dict Listing × Dict Commit → World m.State → Reply × World m.State
  confirmed res (listings, commits) w =
      let p : ActionPatch = record {
        status = some committed;
        undoable_until = some (some (e.now + e.undo_window_s * 1000));
        error = some none;
      } in
      let w' : World m.State =
        emit (listing_written a.listing_id)
          (record w { listings = listings; commits = commits; remote = m.confirm res w.remote }) in
      if e.settles
      then announced e action_committed actor (patched_action p a) (patch_row a p w')
      else (statement_threw, w')

  recorded :
      Reservation → Option (Dict Listing × Dict Commit) → World m.State → Reply × World m.State
  recorded res none w = compensated (m.compensate res (before_remote a.before) w.remote) w
  recorded res (some tables) w = confirmed res tables w

  applied : Reservation → Outcome RemoteListing × m.State → World m.State → Reply × World m.State
  applied res (threw err, s) w = fail e a (apply_refused err) (record w { remote = m.cancel res s })
  applied res (ok r, s) w = recorded res (record_locally e a r w) (record w { remote = s })

  pub reserved : Outcome Reservation × m.State → World m.State → Reply × World m.State
  reserved (threw err, s) w = fail e a (reserve_refused err) (record w { remote = s })
  reserved (ok res, s) w = applied res (m.apply res s) (record w { remote = s })

module _ (m : MarketplaceAdapter) (e : Env) (actor : String) where
  -- Steps 2 to 5, for an action that is not in the ledger.
  pub commit_action : Action → World m.State → Reply × World m.State
  unfolding reserved applied recorded confirmed compensated
  commit_action a w =
      let p = clear_error (set_status committing) in
      let a' = patched_action p a in
      if e.marks
      then reserved m e actor a' (m.reserve (intent_of a') w.remote)
          (emit (changed a') (patch_row a p w))
      else (statement_threw, w)

  -- An intent that is in the ledger is committed already.
  settled : Action → World m.State → Reply × World m.State
  settled a w =
      let p = clear_error (set_status committed) in
      let a' = patched_action p a in
      if e.settles then (returned a', emit (changed a') (patch_row a p w)) else (statement_threw, w)

  approve_found : Action → World m.State → Reply × World m.State
  unfolding commit_action settled
  approve_found a w =
      if is_committed a.status
      then (returned a, w)
      else if not a.preflight_ok
      then fail e a preflight_not_passed w
      else if is_some (get a.idempotency_key w.commits)
      then settled a w
      else commit_action a w

  unfoldable pub approve : String → World m.State → Reply × World m.State
  unfolding approve_found
  approve id w = elim (get id w.actions) [ none ↦ (not_found, w) | some a ↦ approve_found a w ]
