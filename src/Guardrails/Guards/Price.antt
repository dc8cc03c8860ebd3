-- ===== src/Guardrails/Guards/Price.antt =====
-- `priceGuard` of src/guardrails/guards.ts: every amount of money in a reply has a source.
pub mod Laws
use sidestage_copilot.Prelude.{
  ℕ, String, Bool, true, false, not, ◌&&◌, ◌||◌, Option, none, some, List, [], ◌∷◌, if◌then◌else◌,
  ltb, leb, ◌==◌, any,
}
use sidestage_copilot.Dict.{get}
use sidestage_copilot.Domain.{GuardVerdict, passed, blocks, not_applicable, listing_corpus}
use sidestage_copilot.Catalog.{Listing}
use sidestage_copilot.Actions.Preflight.{within_discount}
use sidestage_copilot.Guardrails.Input.{
  EvidenceSource, from_listing, from_policy, from_catalog, from_qa, from_host, Fact, GuardInput,
  has_corpus,
}
use sidestage_copilot.Guardrails.Guards.Listings.{first_resolved_listing}

abbrev pub holds_amount : ℕ → List ℕ → Bool
holds_amount a [] = false
holds_amount a (x ∷ xs) = if x == a then true else holds_amount a xs

-- `WRITTEN_SOURCES.has(source)`
abbrev is_written : EvidenceSource → Bool
is_written from_listing = true
is_written from_catalog = true
is_written from_policy = true
is_written from_qa = true
is_written _ = false

abbrev is_host : EvidenceSource → Bool
is_host from_host = true
is_host _ = false

abbrev asserts : ℕ → Option ℕ → Bool
asserts a none = false
asserts a (some c) = c == a

-- The first price fact with this amount.
unfoldable pub price_fact : ℕ → List Fact → Option Fact
price_fact a [] = none
price_fact a (f ∷ fs) = if asserts a f.numeric_cents then some f else price_fact a fs

abbrev pub states : GuardInput → ℕ → Fact → Bool
states i a f = holds_amount a (i.tools.money f.text)

unfoldable pub stated_in_facts : GuardInput → ℕ → Bool
stated_in_facts i a = any (λ f. is_written f.source && states i a f) i.facts

unfoldable pub stated_by_host : GuardInput → ℕ → Bool
stated_by_host i a = any (λ f. is_host f.source && states i a f) i.facts

abbrev pub echoed : GuardInput → ℕ → Bool
echoed i a = holds_amount a (i.tools.money i.question)

-- The sentence that the amount stands in, or the whole answer.
abbrev clause_in : GuardInput → ℕ → List String → String
clause_in i a [] = i.draft.answer
clause_in i a (s ∷ ss) = if holds_amount a (i.tools.money s) then s else clause_in i a ss

abbrev pub clause_of : GuardInput → ℕ → String
clause_of i a = clause_in i a (i.tools.sentences i.draft.answer)

abbrev at_version : ℕ → Option Listing → Bool
at_version v none = true
at_version v (some l) = l.version == v

abbrev read_at : GuardInput → Option String → Option ℕ → Bool
read_at i (some id) (some v) = at_version v (get id i.current_listings)
read_at i _ _ = true

-- The fact was read at the version that its listing has now.
unfoldable pub is_fresh : GuardInput → Fact → Bool
is_fresh i f = read_at i f.listing_id f.listing_version

abbrev priced_at : ℕ → Option Listing → Bool
priced_at a none = false
priced_at a (some l) = l.price_cents == a

abbrev below_price : ℕ → Option Listing → Bool
below_price a none = false
below_price a (some l) = ltb a l.price_cents

abbrev affordable : ℕ → ℕ → Option Listing → Bool
affordable cap a none = true
affordable cap a (some l) = leb l.floor_price_cents a && within_discount cap l.price_cents a

abbrev is_offer : GuardInput → ℕ → Option Listing → Bool
is_offer i a l = (echoed i a || below_price a l) && affordable i.policy.discount_cap a l

abbrev unsourced_ok : GuardInput → ℕ → Option Listing → Bool
unsourced_ok i a l =
    if echoed i a && i.tools.declining (clause_of i a)
    then true
    else if stated_in_facts i a
    then true
    else if stated_by_host i a
    then priced_at a l || i.tools.attributed_to_host (clause_of i a)
    else is_offer i a l

abbrev sourced_ok : GuardInput → ℕ → Option Fact → Bool
sourced_ok i a (some f) = is_fresh i f
sourced_ok i a none = unsourced_ok i a (first_resolved_listing i)

unfoldable amount_ok : GuardInput → ℕ → Bool
amount_ok i a = sourced_ok i a (price_fact a i.facts)

unfoldable check_amounts : GuardInput → List ℕ → GuardVerdict
check_amounts i [] = passed
check_amounts i (a ∷ bs) = let rest = check_amounts i bs in if amount_ok i a then rest else blocks

unfoldable on_amounts : GuardInput → List ℕ → GuardVerdict
on_amounts i [] = not_applicable
on_amounts i (a ∷ bs) = check_amounts i (a ∷ bs)

unfoldable pub price_guard : GuardInput → GuardVerdict
unfolding on_amounts check_amounts amount_ok
price_guard i =
    if has_corpus i.surface listing_corpus
    then on_amounts i (i.tools.money i.draft.answer)
    else not_applicable

abbrev no_amounts : List ℕ → Bool
no_amounts [] = true
no_amounts (a ∷ bs) = false

-- The guard with its one error: it reads `slots.listingIds` for any amount.
unfoldable pub price_run : GuardInput → Option GuardVerdict
price_run i =
    if not i.has_slots
      && has_corpus i.surface listing_corpus
      && not (no_amounts (i.tools.money i.draft.answer))
    then none
    else some (price_guard i)
