-- ===== src/Guardrails/Guards/Grounding/Laws.antt =====
-- What a reply may cite.
use sidestage_copilot.Prelude.{◌≡◌, ◌↔◌, true, any, arith}
use sidestage_copilot.Domain.{blocks}
use sidestage_copilot.Guardrails.Input.{GuardInput}
use sidestage_copilot.Guardrails.Guards.Grounding.{is_unknown, claim_grounding_guard}

-- A reply is blocked for its citations exactly when one of them is of a fact that was never in
-- evidence.
pub claim_grounding_guard-blocks_iff :
    (i : GuardInput)
    → (claim_grounding_guard i ≡ blocks) ↔ (any (is_unknown i) i.draft.claims ≡ true)
unfolding claim_grounding_guard
claim_grounding_guard-blocks_iff i = ground arith
