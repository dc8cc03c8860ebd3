-- ===== src/Guardrails/Guards/Laws.antt =====
-- What the chain of all eight guards says of a reply that it does not block.
use sidestage_copilot.Prelude.{String, ◌≡◌, ◌≢◌, ◌⊎◌, inl, inr, Bool, true, false, any, ℕ, arith}
use sidestage_copilot.Domain.{block, GuardVerdict, blocks}
use sidestage_copilot.Guardrails.Input.{GuardInput}
use sidestage_copilot.Guardrails.Chain.{ChainOptions, run_chain}
use sidestage_copilot.Guardrails.Chain.Laws.{Unblocked, run_chain-Unblocked}
use sidestage_copilot.Guardrails.Guards.{as_guard, guards}
use sidestage_copilot.Guardrails.Guards.Price.{price_guard, price_run}
use sidestage_copilot.Guardrails.Guards.Stock.{availability_guard}
use sidestage_copilot.Guardrails.Guards.Words.{prohibits, policy_guard, tone_guard, pii_guard}
use sidestage_copilot.Guardrails.Guards.Words.Laws.{policy_guard-blocks_iff}
use sidestage_copilot.Guardrails.Guards.Grounding.{is_unknown, claim_grounding_guard}
use sidestage_copilot.Guardrails.Guards.Grounding.Laws.{claim_grounding_guard-blocks_iff}
use sidestage_copilot.Guardrails.Guards.Rooms.{
  breaks, rules_of, community_rule_guard, sponsor_guard,
}
use sidestage_copilot.Guardrails.Guards.Rooms.Laws.{community_rule_guard-blocks_iff}

-- What protects the buyer, whoever wrote the reply.
pub record IsClean (i : GuardInput) : Type 0 where
  pub price : price_guard i ≢ blocks
  pub stock : availability_guard i ≢ blocks
  pub words : any (prohibits i) i.policy.never_say ≡ false
  pub voice : tone_guard i ≢ blocks
  pub privacy : pii_guard i ≢ blocks
  pub room : (i.surface.community_rules ≡ false) ⊎ (any (breaks i) (rules_of i) ≡ false)
  pub sponsor : sponsor_guard i ≢ blocks

ran-Unblocked :
    (i : GuardInput) (name : String) (f : GuardInput → GuardVerdict) (human : Bool)
    → Unblocked human i (as_guard name false f)
    → f i ≢ blocks
ran-Unblocked i name f human (inl skipped) b = ground arith
ran-Unblocked i name f human (inr (w, r, n)) b = ground arith

price-Unblocked :
    (i : GuardInput) (human : Bool)
    → Unblocked human i (record { name = "price"; model_only = false; run = price_run })
    → price_guard i ≢ blocks
unfolding price_run
price-Unblocked i human (inl skipped) b = ground arith
price-Unblocked i human (inr (w, r, n)) b = ground arith

known-Unblocked :
    (i : GuardInput) (name : String) (f : GuardInput → GuardVerdict) (human : Bool)
    → Unblocked human i (as_guard name true f)
    → (human ≡ true) ⊎ (f i ≢ blocks)
known-Unblocked i name f human (inl skipped) = inl (ground arith)
known-Unblocked i name f human (inr (w, r, n)) = inr (λ b. ground arith)

unblocked-words :
    (i : GuardInput) → policy_guard i ≢ blocks → any (prohibits i) i.policy.never_say ≡ false
unblocked-words i h = ground (arith, policy_guard-blocks_iff i)

unblocked-room :
    (i : GuardInput)
    → community_rule_guard i ≢ blocks
    → (i.surface.community_rules ≡ false) ⊎ (any (breaks i) (rules_of i) ≡ false)
unblocked-room i h = ground (arith, community_rule_guard-blocks_iff i)

known-cited :
    (i : GuardInput) (human : Bool)
    → (human ≡ true) ⊎ (claim_grounding_guard i ≢ blocks)
    → (human ≡ true) ⊎ (any (is_unknown i) i.draft.claims ≡ false)
known-cited i human h = ground (arith, claim_grounding_guard-blocks_iff i)

-- Every reply that the chain does not block, a person's or the model's, is clean; and a reply of the
-- model cites no fact that was not in evidence.
pub guards-IsClean :
    (i : GuardInput) (claims : ℕ) (o : ChainOptions)
    → (run_chain guards i claims o).verdict ≢ block
    → IsClean i × ((o.by_human ≡ true) ⊎ (any (is_unknown i) i.draft.claims ≡ false))
guards-IsClean i claims o h =
    let c = run_chain-Unblocked guards i claims o h in
    (
      record {
        price = price-Unblocked i o.by_human c.0;
        stock = ran-Unblocked i "availability" availability_guard o.by_human c.1.0;
        words = unblocked-words i (ran-Unblocked i "policy" policy_guard o.by_human c.1.1.0);
        voice = ran-Unblocked i "tone" tone_guard o.by_human c.1.1.1.1.0;
        privacy = ran-Unblocked i "pii" pii_guard o.by_human c.1.1.1.1.1.0;
        room =
            unblocked-room i
              (ran-Unblocked i "community_rule" community_rule_guard o.by_human c.1.1.1.1.1.1.0);
        sponsor = ran-Unblocked i "sponsor" sponsor_guard o.by_human c.1.1.1.1.1.1.1.0;
      },
      known-cited i o.by_human
          (known-Unblocked i "claim_grounding" claim_grounding_guard o.by_human c.1.1.1.0),
    )
