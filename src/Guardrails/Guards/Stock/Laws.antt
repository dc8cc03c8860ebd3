-- ===== src/Guardrails/Guards/Stock/Laws.antt =====
-- What a reply may say of stock.
use sidestage_copilot.Prelude.{
  ℕ, ◌≡◌, ◌⊎◌, inl, inr, true, false, List, [], ◌∷◌, All, Bool-cases, arith,
}
use sidestage_copilot.Domain.{passed, listing_corpus}
use sidestage_copilot.Catalog.{Listing}
use sidestage_copilot.Guardrails.Input.{GuardInput, has_corpus}
use sidestage_copilot.Guardrails.Guards.Listings.{grounded_listings}
use sidestage_copilot.Guardrails.Guards.Stock.{
  has_quantity, counts_hold, on_listings, availability_guard,
}

counts_hold-All :
    (ls : List Listing) (cs : List ℕ)
    → counts_hold ls cs ≡ true
    → All (λ c. has_quantity c ls ≡ true) cs
counts_hold-All ls [] h = tt
counts_hold-All ls (c ∷ cs) h = (ground arith, counts_hold-All ls cs (ground arith))

on_listings-counts :
    (i : GuardInput) (ls : List Listing)
    → on_listings i ls ≡ passed
    → counts_hold ls (i.tools.stated_counts i.draft.answer) ≡ true
unfolding on_listings
on_listings-counts i ls h = ground arith

on_listings-last_one :
    (i : GuardInput) (ls : List Listing)
    → on_listings i ls ≡ passed
    → i.tools.says_last_one i.draft.answer ≡ true
    → has_quantity 1 ls ≡ true
unfolding on_listings
on_listings-last_one i ls h s = ground arith

-- A reply on a surface with a catalog that passes for stock states only counts that some
-- listing it is about has, and calls one the last only where some such listing has one left.
pub availability_guard-IsTrue :
    (i : GuardInput) (l : Listing) (ls : List Listing)
    → has_corpus i.surface listing_corpus ≡ true
    → grounded_listings i ≡ l ∷ ls
    → availability_guard i ≡ passed
    → All (λ c. has_quantity c (l ∷ ls) ≡ true) (i.tools.stated_counts i.draft.answer)
      × ((i.tools.says_last_one i.draft.answer ≡ false) ⊎ (has_quantity 1 (l ∷ ls) ≡ true))
unfolding availability_guard
availability_guard-IsTrue i l ls c g h =
    let ok : on_listings i (l ∷ ls) ≡ passed = ground arith in
    (
      counts_hold-All (l ∷ ls) (i.tools.stated_counts i.draft.answer)
          (on_listings-counts i (l ∷ ls) ok),
      elim (Bool-cases (i.tools.says_last_one i.draft.answer)) [
        | inl e ↦ inr (on_listings-last_one i (l ∷ ls) ok e)
        | inr e ↦ inl e
      ],
    )
