-- ===== src/Guardrails/Guards/Price/Laws.antt =====
-- What a reply may say of money: nothing stale, and no offer below what the seller allows.
use sidestage_copilot.Prelude.{
  ℕ, ◌≤◌, ◌<◌, ◌+◌, ◌*◌, ◌≡◌, ◌≢◌, ◌⊎◌, String, true, none, some, List, [], ◌∷◌, arith,
}
use mathlib.Core.List.{Memᴰ}
use sidestage_copilot.Dict.{get}
use sidestage_copilot.Domain.{blocks, listing_corpus}
use sidestage_copilot.Catalog.{Listing}
use sidestage_copilot.Guardrails.Input.{from_host, Fact, GuardInput, has_corpus}
use sidestage_copilot.Guardrails.Guards.Listings.{first_resolved_listing}
use sidestage_copilot.Guardrails.Guards.Price.{
  holds_amount, price_fact, clause_of, is_fresh, amount_ok, is_written, check_amounts, on_amounts,
  price_guard,
}

check_amounts-ok :
    (i : GuardInput) (a : ℕ) (bs : List ℕ)
    → check_amounts i bs ≢ blocks
    → holds_amount a bs ≡ true
    → amount_ok i a ≡ true
unfolding check_amounts
check_amounts-ok i a [] h m = absurd (ground arith)
check_amounts-ok i a (x ∷ xs) h m = ground (arith, check_amounts-ok i a xs)

on_amounts-ok :
    (i : GuardInput) (a : ℕ) (bs : List ℕ)
    → on_amounts i bs ≢ blocks
    → holds_amount a bs ≡ true
    → amount_ok i a ≡ true
unfolding on_amounts
on_amounts-ok i a [] h m = absurd (ground arith)
on_amounts-ok i a (x ∷ xs) h m = check_amounts-ok i a (x ∷ xs) h m

price_guard-ok :
    (i : GuardInput) (a : ℕ)
    → price_guard i ≢ blocks
    → has_corpus i.surface listing_corpus ≡ true
    → holds_amount a (i.tools.money i.draft.answer) ≡ true
    → amount_ok i a ≡ true
unfolding price_guard
price_guard-ok i a h c m = on_amounts-ok i a (i.tools.money i.draft.answer) (ground arith) m

-- An amount whose price fact was read at an older version of a listing than the current one blocks
-- the reply, on every surface with a catalog.
pub price_guard-stale :
    (i : GuardInput) (a : ℕ) (f : Fact) (id : String) (v : ℕ) (l : Listing)
    → has_corpus i.surface listing_corpus ≡ true
    → holds_amount a (i.tools.money i.draft.answer) ≡ true
    → price_fact a i.facts ≡ some f
    → f.listing_id ≡ some id
    → f.listing_version ≡ some v
    → get id i.current_listings ≡ some l
    → l.version ≢ v
    → price_guard i ≡ blocks
unfolding amount_ok is_fresh
price_guard-stale i a f id v l c m p at_id at_v there old = ground (arith, price_guard-ok i a)

-- The fact is of no listing or no version, or of a listing that is gone, or it was read at the version
-- that its listing has now.
abbrev pub IsCurrent : GuardInput → Fact → Type 0
IsCurrent i f =
    (f.listing_id ≡ none)
    ⊎ (f.listing_version ≡ none)
    ⊎ ((id : String) × (v : ℕ) × (f.listing_id ≡ some id)
        × (f.listing_version ≡ some v)
        × ((get id i.current_listings ≡ none)
            ⊎ ((l : Listing) × (get id i.current_listings ≡ some l) × (l.version ≡ v))))

-- A price that the seller allows for this listing.
abbrev pub IsWithinLimits : GuardInput → ℕ → Listing → Type 0
IsWithinLimits i a l =
    (l.floor_price_cents ≤ a)
    × (l.price_cents * 1000000 ≤ a * 1000000 + (i.policy.discount_cap + 1) * l.price_cents)

-- Where an amount of money may come from: a current price fact; the text of a written fact; the host,
-- where it is the price of the listing or the clause says that the host said it; the buyer, whose
-- number is declined; or an offer of the seller's, which is below the price or the buyer's number, and
-- within the limits of the listing. Without a listing it can only be the buyer's number.
pub data HasSource (i : GuardInput) (a : ℕ) : Type 0 where
  priced : (f : Fact) → Memᴰ f i.facts → f.numeric_cents ≡ some a → IsCurrent i f → HasSource i a
  written :
      (f : Fact)
      → Memᴰ f i.facts
      → is_written f.source ≡ true
      → holds_amount a (i.tools.money f.text) ≡ true
      → HasSource i a
  quoted :
      (f : Fact)
      → Memᴰ f i.facts
      → f.source ≡ from_host
      → holds_amount a (i.tools.money f.text) ≡ true
      → ((l : Listing) × (first_resolved_listing i ≡ some l) × (l.price_cents ≡ a))
        ⊎ (i.tools.attributed_to_host (clause_of i a) ≡ true)
      → HasSource i a
  declined :
      holds_amount a (i.tools.money i.question) ≡ true
      → i.tools.declining (clause_of i a) ≡ true
      → HasSource i a
  offered :
      (l : Listing)
      → first_resolved_listing i ≡ some l
      → IsWithinLimits i a l
      → (a < l.price_cents) ⊎ (holds_amount a (i.tools.money i.question) ≡ true)
      → HasSource i a
  unlisted :
      first_resolved_listing i ≡ none
      → holds_amount a (i.tools.money i.question) ≡ true
      → HasSource i a
