-- ===== src/Guardrails/Guards.antt =====
-- src/guardrails/guards.ts: the eight guards in their order. Each answers for one draft, and says
-- nothing of the others; the reasons that go with a refusal are left out.
pub mod Listings
pub mod Price
pub mod Stock
pub mod Words
pub mod Grounding
pub mod Rooms
pub mod Laws
use sidestage_copilot.Prelude.{String, Bool, true, false, List, [], ◌∷◌, some}
use sidestage_copilot.Domain.{GuardVerdict}
use sidestage_copilot.Guardrails.Input.{GuardInput}
use sidestage_copilot.Guardrails.Chain.{Guard}
use sidestage_copilot.Guardrails.Guards.Price.{price_run}
use sidestage_copilot.Guardrails.Guards.Stock.{availability_guard}
use sidestage_copilot.Guardrails.Guards.Words.{policy_guard, tone_guard, pii_guard}
use sidestage_copilot.Guardrails.Guards.Grounding.{claim_grounding_guard}
use sidestage_copilot.Guardrails.Guards.Rooms.{community_rule_guard, sponsor_guard}

abbrev pub as_guard : String → Bool → (GuardInput → GuardVerdict) → Guard GuardInput
as_guard name model_only f = record { name = name; model_only = model_only; run = λ i. some (f i) }

-- `GUARDS`, with `MODEL_ONLY_GUARDS`
abbrev pub guards : List (Guard GuardInput)
guards =
    record { name = "price"; model_only = false; run = price_run }
    ∷ as_guard "availability" false availability_guard
    ∷ as_guard "policy" false policy_guard
    ∷ as_guard "claim_grounding" true claim_grounding_guard
    ∷ as_guard "tone" false tone_guard
    ∷ as_guard "pii" false pii_guard
    ∷ as_guard "community_rule" false community_rule_guard
    ∷ as_guard "sponsor" false sponsor_guard
    ∷ []
