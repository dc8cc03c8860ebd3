-- ===== src/Guardrails/Guards/Rooms.antt =====
-- `communityRuleGuard` and `sponsorGuard` of src/guardrails/guards.ts: the rules of the room, and
-- what a sponsor has approved.
pub mod Laws
use sidestage_copilot.Prelude.{
  ℕ, String, str_eq, Bool, true, false, not, ◌&&◌, ◌||◌, Option, none, some, List, [], ◌∷◌, ◌++◌,
  if◌then◌else◌, ltb, ◌==◌, any, every, has, keep, length,
}
use sidestage_copilot.Domain.{
  GuardVerdict, passed, blocks, not_applicable, community_corpus, sponsor_corpus,
}
use sidestage_copilot.Guardrails.Input.{
  TextTools, Fact, Claim, GuardInput, same_corpus, fact_by_id, finds,
}

-- `CLAUSE_END`
abbrev clause_end : List String
clause_end =
    "outside" ∷ "inside" ∷ "unless" ∷ "except" ∷ "without" ∷ "before" ∷ "after" ∷ "during" ∷ "while"
    ∷ "when" ∷ "if" ∷ "in" ∷ "on" ∷ "at" ∷ "to" ∷ "for" ∷ "from" ∷ "of" ∷ "than" ∷ "but" ∷ []

abbrev pub head_size : ℕ
head_size = 4

abbrev adds : TextTools → List String → String → Bool
adds t head w = ltb 1 (t.size w) && not (has head w)

abbrev with_term : TextTools → List String → String → List String
with_term t head w = if adds t head w then head ++ (w ∷ []) else head

-- The first terms of a prohibition, to its first word that ends the subject.
unfoldable pub head_of : TextTools → List String → List String → List String
head_of t head [] = head
head_of t head (raw ∷ rest) =
    let next = with_term t head (t.fold raw) in
    let more = head_of t next rest in
    if has clause_end raw then head else if length next == head_size then next else more

abbrev add_head : List String → List (List String) → List (List String)
add_head [] hs = hs
add_head (w ∷ ws) hs = (w ∷ ws) ∷ hs

-- `phrases` of `forbiddenBy`
unfoldable pub heads_of : TextTools → List (List String) → List (List String)
unfolding head_of
heads_of t [] = []
heads_of t (ws ∷ rest) = add_head (head_of t [] ws) (heads_of t rest)

abbrev pub all_in : List String → List String → Bool
all_in sentence head = every (has sentence) head

-- The rule quotes a phrase of the draft, or the terms of one of its prohibitions stand in one
-- sentence.
unfoldable pub breaks : GuardInput → Fact → Bool
unfolding heads_of
breaks i rule =
    let a = i.draft.answer in
    finds (i.tools.includes (i.tools.lower a)) (i.tools.quoted rule.text)
    || any (λ head. any (λ s. all_in (i.tools.terms s) head) (i.tools.sentences a))
        (heads_of i.tools (i.tools.prohibited rule.text))

abbrev pub rules_of : GuardInput → List Fact
rules_of i = keep (λ f. same_corpus f.corpus community_corpus) i.community

abbrev on_rules : GuardInput → List Fact → GuardVerdict
on_rules i [] = not_applicable
on_rules i (r ∷ rs) = if breaks i r || any (breaks i) rs then blocks else passed

unfoldable pub community_rule_guard : GuardInput → GuardVerdict
community_rule_guard i =
    if i.surface.community_rules then on_rules i (rules_of i) else not_applicable

abbrev pub sponsor_facts : GuardInput → List Fact
sponsor_facts i = keep (λ f. same_corpus f.corpus sponsor_corpus) i.facts

abbrev is_subject : TextTools → String → Bool
is_subject t w = not (str_eq w "sponsor" || str_eq w "sponsored" || ltb (t.size w) 3)

-- The keys of `subjects`.
unfoldable pub subjects : TextTools → List Fact → List String
subjects t [] = []
subjects t (f ∷ fs) = keep (is_subject t) (t.terms f.label) ++ subjects t fs

abbrev is_sponsor : Option Fact → Bool
is_sponsor none = false
is_sponsor (some f) = same_corpus f.corpus sponsor_corpus

abbrev pub cites_sponsor : GuardInput → Claim → Bool
cites_sponsor i c = is_sponsor (fact_by_id c.fact_id i.facts)

abbrev on_subjects : GuardInput → List String → GuardVerdict
on_subjects i [] = not_applicable
on_subjects i (s ∷ ss) =
    if any (has (i.tools.terms i.draft.answer)) (s ∷ ss)
    then if any (cites_sponsor i) i.draft.claims then passed else blocks
    else passed

abbrev on_sponsors : GuardInput → List Fact → GuardVerdict
on_sponsors i [] = not_applicable
on_sponsors i (f ∷ fs) = on_subjects i (subjects i.tools (f ∷ fs))

unfoldable pub sponsor_guard : GuardInput → GuardVerdict
sponsor_guard i = on_sponsors i (sponsor_facts i)
