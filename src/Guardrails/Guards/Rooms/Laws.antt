-- ===== src/Guardrails/Guards/Rooms/Laws.antt =====
-- What a reply may say in a room that has rules, and of a sponsor.
use sidestage_copilot.Prelude.{String, ◌≡◌, ◌≢◌, ◌↔◌, true, List, [], ◌∷◌, any, has, arith}
use sidestage_copilot.Domain.{blocks}
use sidestage_copilot.Guardrails.Input.{Fact, GuardInput}
use sidestage_copilot.Guardrails.Guards.Rooms.{
  breaks, rules_of, on_rules, community_rule_guard, sponsor_facts, subjects, cites_sponsor,
  on_subjects, on_sponsors, sponsor_guard,
}

on_rules-blocks :
    (i : GuardInput) (rs : List Fact) → on_rules i rs ≡ blocks → any (breaks i) rs ≡ true
on_rules-blocks i [] h = absurd (ground arith)
on_rules-blocks i (r ∷ rs) h = ground arith

blocks-on_rules :
    (i : GuardInput) (rs : List Fact) → any (breaks i) rs ≡ true → on_rules i rs ≡ blocks
blocks-on_rules i [] h = absurd (ground arith)
blocks-on_rules i (r ∷ rs) h = ground arith

-- On a surface with rules of its own a reply is blocked exactly when it breaks one of the room's
-- rules, and elsewhere never.
pub community_rule_guard-blocks_iff :
    (i : GuardInput)
    → (community_rule_guard i ≡ blocks)
      ↔ ((i.surface.community_rules ≡ true) × (any (breaks i) (rules_of i) ≡ true))
unfolding community_rule_guard
community_rule_guard-blocks_iff i = (
  λ h. ground (arith, on_rules-blocks i (rules_of i)),
  λ h. ground (arith, blocks-on_rules i (rules_of i)),
)

on_subjects-cites :
    (i : GuardInput) (ss : List String)
    → on_subjects i ss ≢ blocks
    → any (has (i.tools.terms i.draft.answer)) ss ≡ true
    → any (cites_sponsor i) i.draft.claims ≡ true
on_subjects-cites i [] h m = absurd (ground arith)
on_subjects-cites i (s ∷ ss) h m = ground arith

on_sponsors-cites :
    (i : GuardInput) (fs : List Fact)
    → on_sponsors i fs ≢ blocks
    → any (has (i.tools.terms i.draft.answer)) (subjects i.tools fs) ≡ true
    → any (cites_sponsor i) i.draft.claims ≡ true
unfolding subjects
on_sponsors-cites i [] h m = absurd (ground arith)
on_sponsors-cites i (f ∷ fs) h m = on_subjects-cites i (subjects i.tools (f ∷ fs)) h m

-- A reply that is not blocked and that names what a sponsor's facts are about cites one of those
-- facts.
pub sponsor_guard-cites :
    (i : GuardInput)
    → sponsor_guard i ≢ blocks
    → any (has (i.tools.terms i.draft.answer)) (subjects i.tools (sponsor_facts i)) ≡ true
    → any (cites_sponsor i) i.draft.claims ≡ true
unfolding sponsor_guard
sponsor_guard-cites i h m = on_sponsors-cites i (sponsor_facts i) h m
