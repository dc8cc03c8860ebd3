-- ===== src/Pipeline/Rail.antt =====
-- `evaluateActions` of src/pipeline/pipeline.ts: what the proposer proposes goes to the executor once,
-- and what the ladder lets commit itself is approved. An error of `approve` is logged and let go; one of
-- `propose` ends the evaluation.
pub mod Laws
use sidestage_copilot.Prelude.{
  ℕ, suc, String, Bool, true, false, Option, none, some, List, [], ◌∷◌, ◌++◌, if◌then◌else◌, has,
}
use sidestage_copilot.Domain.{AutonomyLevel, ActionStatus, proposed, preflight_failed}
use sidestage_copilot.Autonomy.Ladder.{ActionDisposition, propose_only, auto_commit, decide_action}
use sidestage_copilot.Actions.Port.{MarketplaceAdapter}
use sidestage_copilot.Actions.Store.{Action}
use sidestage_copilot.Actions.Proposer.{ProposedAction}
use sidestage_copilot.Actions.Executor.State.{
  Env, World, Reply, returned, not_found, transaction_threw,
}
use sidestage_copilot.Actions.Executor.Propose.{propose}
use sidestage_copilot.Actions.Executor.Approve.{approve}

abbrev pub is_new : ActionStatus → Bool
is_new proposed = true
is_new preflight_failed = true
is_new _ = false

module _ (m : MarketplaceAdapter) (e : Env) (level : AutonomyLevel) where
  abbrev on_disposition : ActionDisposition → Action → World m.State → World m.State
  on_disposition propose_only a w = w
  on_disposition auto_commit a w = (approve m e "copilot" a.id w).1

  -- After the proposal, which threw or returned an action.
  abbrev pub on_reply : ProposedAction → Reply × World m.State → World m.State
  on_reply p (returned a, w) =
      if is_new a.status then on_disposition (decide_action level p.kind a.preflight_ok) a w else w
  on_reply p (_, w) = w

  -- One turn of the loop, with a fresh id.
  unfoldable pub act : String → ProposedAction → World m.State → World m.State
  act id p w = on_reply p (propose e id p.kind p.listing_id p.params w)

  abbrev is_returned : Reply → Bool
  is_returned (returned a) = true
  is_returned _ = false

  -- The executor took the proposal, and the loop goes on.
  abbrev pub goes_on : String → ProposedAction → World m.State → Bool
  goes_on id p w = is_returned (propose e id p.kind p.listing_id p.params w).0

  -- Whether the loop came to its end, the keys that it has seen, and what it leaves. The key of a
  -- proposal that throws is among them.
  unfoldable pub evaluate_actions :
      (ℕ → String)
      → ℕ
      → List ProposedAction
      → List String × World m.State
      → Bool × List String × World m.State
  unfolding act
  evaluate_actions ids n [] (seen, w) = (true, seen, w)
  evaluate_actions ids n (p ∷ ps) (seen, w) =
      let skipped = evaluate_actions ids (suc n) ps (seen, w) in
      let later = seen ++ (p.dedupe_key ∷ []) in
      let acted = evaluate_actions ids (suc n) ps (later, act (ids n) p w) in
      if has seen p.dedupe_key
      then skipped
      else if goes_on (ids n) p w
      then acted
      else (false, later, act (ids n) p w)
