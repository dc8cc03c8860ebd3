-- ===== src/Examples/Checks.antt =====
-- What the guards and the action rail say on the stream and on the show.
use sidestage_copilot.Guardrails.Guards.Rooms.{sponsor_guard, community_rule_guard}
use sidestage_copilot.Guardrails.Guards.Words.{pii_guard, tone_guard, policy_guard}
use sidestage_copilot.Dict.{get}
use sidestage_copilot.Guardrails.Guards.Listings.{grounded_listings}
use sidestage_copilot.Prelude.{
  Bool, String, List, true, false, some, [], ◌∷◌, ◌≡◌, ◌≢◌, ◌⊎◌, refl, any, All, arith,
}
use sidestage_copilot.Domain.{
  capabilities_of, l4_auto_act, allow, block, Verdict, adjust_stock, markdown_price,
}
use sidestage_copilot.Guardrails.Input.{GuardInput}
use sidestage_copilot.Guardrails.Chain.{ChainOptions, run_chain}
use sidestage_copilot.Guardrails.Guards.{guards}
use sidestage_copilot.Guardrails.Guards.Laws.{IsClean, guards-IsClean}
use sidestage_copilot.Guardrails.Guards.Price.{price_run, price_guard}
use sidestage_copilot.Guardrails.Guards.Stock.{has_quantity, availability_guard}
use sidestage_copilot.Guardrails.Guards.Stock.Laws.{availability_guard-IsTrue}
use sidestage_copilot.Guardrails.Guards.Grounding.{is_unknown, is_weak, claim_grounding_guard}
use sidestage_copilot.Actions.Store.{Action, by_idempotency_key}
use sidestage_copilot.Actions.Preflight.Keys.{idempotency_key}
use sidestage_copilot.Actions.Mock.{Mock, mock_adapter}
use sidestage_copilot.Actions.Proposer.{ProposedAction}
use sidestage_copilot.Actions.Executor.State.{World, returned}
use sidestage_copilot.Actions.Executor.Propose.{propose}
use sidestage_copilot.Actions.Executor.Approve.{approve}
use sidestage_copilot.Pipeline.Rail.{act, evaluate_actions}
use sidestage_copilot.Pipeline.Rail.Laws.{IsUntouched, act-cases, evaluate_actions-once}
use sidestage_copilot.Examples.Show.{panda, cheaper, evening, env}
use sidestage_copilot.Examples.Stream.{about}

abbrev offer : GuardInput
offer = about "I can do $180"

allowed : (v : Verdict) → v ≡ allow → v ≢ block
allowed v h b = ground arith

abbrev count : GuardInput
count = about "3 left"

availability_guard-IsTrue_example :
    All (λ c. has_quantity c (panda ∷ []) ≡ true) (3 ∷ [])
    × ((false ≡ false) ⊎ (has_quantity 1 (panda ∷ []) ≡ true))
unfolding capabilities_of grounded_listings get availability_guard
availability_guard-IsTrue_example = availability_guard-IsTrue count panda [] refl refl refl

abbrev options : ChainOptions
options = record { evidence_quality = some 100; abstained = false; by_human = false }

count-allowed : (run_chain guards count 1 options).verdict ≡ allow
unfolding run_chain price_run price_guard capabilities_of availability_guard grounded_listings get
    policy_guard claim_grounding_guard is_weak tone_guard pii_guard community_rule_guard
    sponsor_guard
count-allowed = refl

guards-IsClean_example :
    IsClean count × ((false ≡ true) ⊎ (any (is_unknown count) count.draft.claims ≡ false))
guards-IsClean_example =
    guards-IsClean count 1 options
      (allowed (run_chain guards count 1 options).verdict count-allowed)

abbrev lower_price : ProposedAction
lower_price = record {
  kind = markdown_price;
  listing_id = "lot1";
  params = cheaper;
  dedupe_key = "markdown:lot1:v4";
}

act-cases_example :
    IsUntouched (act (mock_adapter env.runtime) env l4_auto_act "act_9" lower_price evening) evening
    ⊎ ((l4_auto_act ≡ l4_auto_act)
        × ((markdown_price ≡ adjust_stock) ⊎ (markdown_price ≡ markdown_price))
        × ((a : Action) × ((propose env "act_9" markdown_price "lot1" cheaper evening).0
              ≡ returned a)
            × (a.preflight_ok ≡ true)
            × (act (mock_adapter env.runtime) env l4_auto_act "act_9" lower_price evening
                ≡ (approve
                    (mock_adapter env.runtime)
                    env
                    "copilot"
                    a.id
                    (propose env "act_9" markdown_price "lot1" cheaper evening).1).1)))
act-cases_example = act-cases (mock_adapter env.runtime) env l4_auto_act "act_9" lower_price evening

-- What the first evaluation leaves.
abbrev evaluated : Bool × List String × World Mock
evaluated =
    evaluate_actions (mock_adapter env.runtime) env l4_auto_act (λ n. "a") 0 (lower_price ∷ [])
      ([], evening)

came_to_end : evaluated.0 ≡ true
unfolding evaluate_actions propose by_idempotency_key idempotency_key
came_to_end = refl

evaluate_actions-once_example :
    evaluate_actions
      (mock_adapter env.runtime)
      env
      l4_auto_act
      (λ n. "b")
      0
      (lower_price ∷ [])
      (evaluated.1, evaluated.2)
    ≡ evaluated
evaluate_actions-once_example =
    evaluate_actions-once (mock_adapter env.runtime) env l4_auto_act (λ n. "a") (λ n. "b") 0 0
      (lower_price ∷ []) [] evening came_to_end
