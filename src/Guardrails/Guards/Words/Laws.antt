-- ===== src/Guardrails/Guards/Words/Laws.antt =====
-- What no reply may say.
use sidestage_copilot.Prelude.{◌≡◌, ◌↔◌, true, any, arith}
use sidestage_copilot.Domain.{blocks}
use sidestage_copilot.Guardrails.Input.{GuardInput}
use sidestage_copilot.Guardrails.Guards.Words.{prohibits, policy_guard}

-- The policy guard blocks exactly when a rule of the never-say list is broken, whatever facts and
-- corpora there are: a rule that a certificate lifts is broken only without one.
pub policy_guard-blocks_iff :
    (i : GuardInput) → (policy_guard i ≡ blocks) ↔ (any (prohibits i) i.policy.never_say ≡ true)
unfolding policy_guard
policy_guard-blocks_iff i = ground arith
