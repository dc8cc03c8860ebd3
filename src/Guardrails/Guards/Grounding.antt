-- ===== src/Guardrails/Guards/Grounding.antt =====
-- `claimGroundingGuard` of src/guardrails/guards.ts: a reply cites what it asserts, and only facts
-- that it was given.
pub mod Laws
use sidestage_copilot.Prelude.{
  ℕ, ◌+◌, ◌*◌, String, Bool, true, false, not, ◌&&◌, ◌||◌, Option, none, some, List, [], ◌∷◌,
  if◌then◌else◌, ltb, leb, has, any, is_some, length, keep,
}
use sidestage_copilot.Domain.{GuardVerdict, passed, asks_revision, blocks}
use sidestage_copilot.Guardrails.Input.{Fact, Claim, GuardInput, fact_by_id}
use sidestage_copilot.Guardrails.Guards.Listings.{distinct}

-- `SUBSTANTIVE_CHARS`
abbrev substantive_chars : ℕ
substantive_chars = 60

-- What the reply says when its address to the buyer is taken off.
unfoldable pub substantive : GuardInput → Bool
substantive i =
    let body = i.tools.without_vocative i.draft.answer i.asker in
    i.tools.factual body
    || (leb substantive_chars (i.tools.size (i.tools.trim body))
        && not (i.tools.non_committal body))

-- `!i.factById.has(c.factId)`
abbrev pub is_unknown : GuardInput → Claim → Bool
is_unknown i c = not (is_some (fact_by_id c.fact_id i.facts))

-- `hit / claimTerms.size >= 0.25`
abbrev pub overlaps : List String → List String → Bool
overlaps claim fact = leb (length claim) (4 * length (keep (has fact) claim))

abbrev supports : GuardInput → Claim → Fact → Bool
supports i c f =
    let claim = distinct (i.tools.terms c.text) in
    overlaps claim (i.tools.terms f.text) || i.tools.similar c.text f.text

abbrev no_terms : List String → Bool
no_terms [] = true
no_terms (t ∷ ts) = false

abbrev cites_support : GuardInput → Claim → Option Fact → Bool
cites_support i c none = false
cites_support i c (some f) = no_terms (distinct (i.tools.terms c.text)) || supports i c f

-- Each claim is given a `supported` mark by the source, which the guards do not read.
unfoldable pub is_weak : GuardInput → Claim → Bool
is_weak i c = not (cites_support i c (fact_by_id c.fact_id i.facts))

abbrev pub no_claims : List Claim → Bool
no_claims [] = true
no_claims (c ∷ cs) = false

unfoldable pub claim_grounding_guard : GuardInput → GuardVerdict
claim_grounding_guard i =
    if any (is_unknown i) i.draft.claims
    then blocks
    else if no_claims i.draft.claims
    then if substantive i then asks_revision else passed
    else if any (is_weak i) i.draft.claims
    then asks_revision
    else passed
