-- ===== src/Actions/Proposer/Pricing/Laws.antt =====
-- A suggested price is one that preflight takes.
use native.Mathlib.Nat.{mul-add, mul_comm}
use sidestage_copilot.Prelude.{
  ℕ, ◌+◌, ◌-◌, ◌*◌, ◌≤◌, ◌<◌, max, ◌≡◌, ◌≢◌, sym, ap, ◌∙◌, inl, inr, true, some, List, leb,
  Bool-cases, arith,
}
use sidestage_copilot.Catalog.{Listing}
use sidestage_copilot.Domain.{ended}
use sidestage_copilot.Actions.Preflight.{within_discount}
use sidestage_copilot.Actions.Preflight.Laws.{IsMarkdown}
use sidestage_copilot.Actions.Proposer.Pricing.{median, round_to, cap_floor, markdown_to}

round_to-le : (cents : ℕ) → cents ≤ round_to cents 500
unfolding round_to
round_to-le cents = omega arith

split_product : (p a b c : ℕ) → a + b ≡ c → p * c ≡ p * a + p * b
split_product p a b c h = ap (λ x. p * x) (sym h) ∙ mul-add p a b

cap_floor-le : (most price : ℕ) → price * 1000000 ≤ cap_floor most price * 1000000 + most * price
unfolding cap_floor
cap_floor-le most price = elim (Bool-cases (leb most 1000000)) [
  | inl h ↦
      ground (
        arith,
        mul_comm price most,
        split_product price most (1000000 - most) 1000000 (ground arith),
      )
  | inr h ↦
      ground (
        arith,
        mul_comm price most,
        split_product price 1000000 (most - 1000000) most (ground arith),
      )
]

-- A suggested price is below the price of the listing, not below its floor, not below the median
-- of the comparable sales, and within the discount most as preflight measures it.
pub markdown_to-bounds :
    (most n : ℕ) (comps : List ℕ) (l : Listing)
    → markdown_to most comps l ≡ some n
    → (n < l.price_cents)
      × (l.floor_price_cents ≤ n)
      × (median comps ≤ n)
      × (within_discount most l.price_cents n ≡ true)
unfolding markdown_to
markdown_to-bounds most n comps l h = ground (
  arith,
  cap_floor-le most l.price_cents,
  round_to-le (max l.floor_price_cents (max (cap_floor most l.price_cents) (median comps))),
)

-- A suggested price above the cost of a listing that has not ended is a markdown that preflight
-- takes.
pub markdown_to-IsMarkdown :
    (most n : ℕ) (comps : List ℕ) (l : Listing)
    → markdown_to most comps l ≡ some n
    → l.cost_cents < n
    → l.state ≢ ended
    → IsMarkdown most l n
markdown_to-IsMarkdown most n comps l h c e =
    let (below, floor, market, cut) = markdown_to-bounds most n comps l h in
    record {
      positive = omega arith;
      below_price = below;
      above_floor = floor;
      above_cost = c;
      capped = ground arith;
      active = e;
    }
