-- ===== src/Actions/Executor/Propose.antt =====
-- `propose` and `reject` of src/actions/executor.ts.
pub mod Laws
use sidestage_copilot.Prelude.{String, none, some, if◌then◌else◌}
use sidestage_copilot.Domain.{ActionKind, proposed, preflight_failed, rejected}
use sidestage_copilot.Dict.{get, put}
use sidestage_copilot.Actions.Port.{Params}
use sidestage_copilot.Actions.Preflight.{
  PreflightContext, PreflightResult, is_post_reply, preflight, show_budget_context,
}
use sidestage_copilot.Actions.Preflight.Keys.{idempotency_key}
use sidestage_copilot.Actions.Store.{
  Action, patched_action, by_idempotency_key, committed_this_show, committed_last_minute,
}
use sidestage_copilot.Actions.Executor.State.{
  World, Env, Reply, returned, not_found, statement_threw, announced, version_of, set_status, note,
  emit, patch_row, changed, action_proposed, action_preflight_failed,
}

abbrev new_action : String → ActionKind → String → Params → PreflightResult → String → Action
new_action id kind listing_id params pre key = record {
  id = id;
  kind = kind;
  listing_id = listing_id;
  params = params;
  before = pre.before;
  status = if pre.passed then proposed else preflight_failed;
  preflight_ok = pre.passed;
  checks = pre.checks;
  idempotency_key = key;
  undoable_until = none;
  error = none;
}

module _ {S : Type 0} (e : Env) where
  abbrev context : ActionKind → World S → PreflightContext
  context kind w =
      show_budget_context e.source e.read_only e.action_budget e.rate_per_minute
        (committed_this_show w.actions) (committed_last_minute e.now w.commits)
        (if is_post_reply kind then e.posting_for else none)

  -- The preflight of a proposal, against the state of the show.
  pre_of : ActionKind → String → Params → World S → PreflightResult
  pre_of kind listing_id params w =
      preflight e.runtime e.discount_cap kind (get listing_id w.listings) params (context kind w)

  -- What follows the preflight: the prior action with the key, or a new row.
  checked : String → ActionKind → String → Params → PreflightResult → World S → Reply × World S
  checked id kind listing_id params pre w =
      let key = idempotency_key e.runtime kind listing_id (version_of pre.before) params in
      elim (by_idempotency_key key w.actions) [
        | some prior ↦ (returned prior, w)
        | none ↦
            let a = new_action id kind listing_id params pre key in
            if e.marks
            then announced e (if pre.passed then action_proposed else action_preflight_failed)
                "copilot" a (record w { actions = put id a w.actions })
            else (statement_threw, w)
      ]

  -- `id` is the fresh identifier that the code draws from the clock and from `Math.random()`.
  unfoldable pub propose : String → ActionKind → String → Params → World S → Reply × World S
  unfolding pre_of checked
  propose id kind listing_id params w =
      checked id kind listing_id params (pre_of kind listing_id params w) w

-- The row is read back after the statement; to reject an action that is not there throws.
unfoldable pub reject : {S : Type 0} → Env → String → String → World S → Reply × World S
reject e id actor w = elim (get id w.actions) [
  | none ↦ (not_found, w)
  | some a ↦
      if e.settles
      then announced e action_proposed actor (patched_action (set_status rejected) a)
          (patch_row a (set_status rejected) w)
      else (statement_threw, w)
]
