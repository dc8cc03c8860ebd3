-- ===== src/Guardrails/Guards/Stock.antt =====
-- `availabilityGuard` of src/guardrails/guards.ts: what a reply says of stock is true of a listing
-- that it is about.
pub mod Laws
use sidestage_copilot.Prelude.{
  ℕ, Bool, true, false, not, ◌&&◌, List, [], ◌∷◌, if◌then◌else◌, ltb, ◌==◌, any, every,
}
use sidestage_copilot.Domain.{
  GuardVerdict, passed, asks_revision, blocks, not_applicable, listing_corpus,
}
use sidestage_copilot.Catalog.{Listing}
use sidestage_copilot.Guardrails.Input.{GuardInput, has_corpus}
use sidestage_copilot.Guardrails.Guards.Listings.{grounded_listings}

abbrev pub has_quantity : ℕ → List Listing → Bool
has_quantity n ls = any (λ l. l.qty == n) ls

abbrev pub all_gone : List Listing → Bool
all_gone ls = every (λ l. l.qty == 0) ls

abbrev pub all_left : List Listing → Bool
all_left ls = every (λ l. ltb 0 l.qty) ls

-- The loop over the counts that the reply states.
abbrev pub counts_hold : List Listing → List ℕ → Bool
counts_hold ls [] = true
counts_hold ls (c ∷ cs) = if has_quantity c ls then counts_hold ls cs else false

unfoldable pub on_listings : GuardInput → List Listing → GuardVerdict
on_listings i ls =
    let a = i.draft.answer in
    let available = i.tools.asserts_available a in
    let sold_out = i.tools.asserts_sold_out a in
    if available && not sold_out && all_gone ls
    then blocks
    else if sold_out && not available && all_left ls
    then asks_revision
    else if i.tools.says_last_one a && not (has_quantity 1 ls)
    then blocks
    else if counts_hold ls (i.tools.stated_counts a)
    then passed
    else blocks

abbrev pub if_grounded : GuardInput → List Listing → GuardVerdict
if_grounded i [] = not_applicable
if_grounded i (l ∷ ls) = on_listings i (l ∷ ls)

unfoldable pub availability_guard : GuardInput → GuardVerdict
unfolding on_listings
availability_guard i =
    if has_corpus i.surface listing_corpus
    then if_grounded i (grounded_listings i)
    else not_applicable
