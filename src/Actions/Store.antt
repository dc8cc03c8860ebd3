-- ===== src/Actions/Store.antt =====
-- The rows of src/actions/executor.ts: `ActionStore`, over the actions and the idempotency ledger
-- of one show. Times are milliseconds; titles, summaries and rationales are left out.
use sidestage_copilot.Prelude.{
  ℕ, ◌+◌, ◌-◌, String, str_eq, Bool, ◌||◌, Option, none, some, List, [], ◌∷◌, if◌then◌else◌, leb,
}
use sidestage_copilot.Domain.{ActionKind, ActionStatus, is_committed, is_rolled_back}
use sidestage_copilot.Dict.{Dict, update}
use sidestage_copilot.Actions.Port.{Params, RemoteListing, MarketplaceError}
use sidestage_copilot.Actions.Preflight.{PreflightCheck, Snapshot}

-- Why an action failed.
pub data Failure : Type 0 where
  preflight_not_passed : Failure
  reserve_refused : MarketplaceError → Failure
  apply_refused : MarketplaceError → Failure
  local_failed_and_compensated : Failure
  local_failed_not_compensated : MarketplaceError → Failure
  not_committed : ActionStatus → Failure
  window_closed : ℕ → Failure
  rollback_refused : MarketplaceError → Failure

pub record Action : Type 0 where
  pub id : String
  pub kind : ActionKind
  pub listing_id : String
  pub params : Params
  pub before : Option Snapshot
  pub status : ActionStatus
  pub preflight_ok : Bool
  pub checks : List PreflightCheck
  pub idempotency_key : String
  pub undoable_until : Option ℕ
  pub error : Option Failure

-- A row of `action_commits`: what was written, or the prior state that a rollback restored.
pub data LedgerResult : Type 0 where
  wrote : RemoteListing → LedgerResult
  restored_to : Option Snapshot → LedgerResult

pub record Commit : Type 0 where
  pub action_id : String
  pub committed_at : ℕ
  pub result : LedgerResult

-- A field that is `none` is `undefined` and keeps the column; `some none` writes null.
pub record ActionPatch : Type 0 where
  pub status : Option ActionStatus
  pub undoable_until : Option (Option ℕ)
  pub error : Option (Option Failure)

abbrev or_old {ℓ} : {A : Type ℓ} → Option A → A → A
or_old none old = old
or_old (some a) old = a

abbrev pub patched_action : ActionPatch → Action → Action
patched_action p a = record a {
  status = or_old p.status a.status;
  undoable_until = or_old p.undoable_until a.undoable_until;
  error = or_old p.error a.error;
}

unfoldable pub patch : String → ActionPatch → Dict Action → Dict Action
patch id p d = update id (patched_action p) d

abbrev having_key : String → Action → Option Action → Option Action
having_key key a rest = if str_eq a.idempotency_key key then some a else rest

unfoldable pub by_idempotency_key : String → Dict Action → Option Action
by_idempotency_key key [] = none
by_idempotency_key key ((id, a) ∷ d) = having_key key a (by_idempotency_key key d)

abbrev counts : Action → ℕ
counts a = if is_committed a.status || is_rolled_back a.status then 1 else 0

unfoldable pub committed_this_show : Dict Action → ℕ
committed_this_show [] = 0
committed_this_show ((id, a) ∷ d) = counts a + committed_this_show d

abbrev is_recent : ℕ → Commit → ℕ
is_recent now c = if leb (now - 60000) c.committed_at then 1 else 0

unfoldable pub committed_last_minute : ℕ → Dict Commit → ℕ
committed_last_minute now [] = 0
committed_last_minute now ((key, c) ∷ d) = is_recent now c + committed_last_minute now d
