-- ===== src/Actions/Proposer/Pricing.antt =====
-- The price that `markdownRule` of src/actions/proposer.ts suggests, with `median` of
-- src/retrieval/facts.ts. The cap is in ten-thousandths of a percent.
pub mod Laws
use sidestage_copilot.Prelude.{
  ℕ, zero, suc, ◌+◌, ◌-◌, ◌*◌, ◌/◌, ◌%◌, min, max, Bool, Option, none, some, List, [], ◌∷◌,
  if◌then◌else◌, leb, ◌==◌, length, sort, nth,
}
use sidestage_copilot.Catalog.{Listing}

-- Every index that it reads is in range.
unfoldable pub median : List ℕ → ℕ
median [] = 0
median (x ∷ xs) =
    let s = sort (x ∷ xs) in
    let mid = length s / 2 in
    if length s % 2 == 0 then (nth (mid - 1) s + nth mid s + 1) / 2 else nth mid s

unfoldable pub round_to : ℕ → ℕ → ℕ
round_to cents step = (cents + (step - 1)) / step * step

-- `Math.ceil(price * (1 - cap / 100))`; a cap above 100% gives 0, which the maximum below with a
-- floor of at least 0 gives too.
unfoldable pub cap_floor : ℕ → ℕ → ℕ
cap_floor cap price = (price * (1000000 - cap) + 999999) / 1000000

-- The new price, where it is below the price of the listing.
unfoldable pub markdown_to : ℕ → List ℕ → Listing → Option ℕ
markdown_to cap comps l =
    let target = max l.floor_price_cents (max (cap_floor cap l.price_cents) (median comps)) in
    let next = min l.price_cents (round_to target 500) in
    if leb l.price_cents next then none else some next
