-- ===== src/Autonomy/Promotion/Laws.antt =====
-- Which numbers make a seller ready for the next rung.
use native.Mathlib.Nat.{div-lt_iff_lt-mul}
use sidestage_copilot.Prelude.{
  ℕ, zero, suc, ◌+◌, ◌*◌, ◌≤◌, ◌<◌, ◌≡◌, ◌↔◌, ◌⊎◌, inl, inr, true, false, not, Bool, Bool-cases,
  ◌==◌, ◌&&◌, ◌-◌, ◌/◌, ltb, if◌then◌else◌, ap, List, [], ◌∷◌, length, take, every, sum_by, arith,
}
use mathlib.Core.Path.{subst}
use sidestage_copilot.Domain.{
  AutonomyLevel, l0_observe, l1_suggest, l2_one_tap, l3_auto_reply, l4_auto_act,
}
use sidestage_copilot.Autonomy.Promotion.{
  ShowReport, r3, rate, build, or_zero, criteria_for, promotion_readiness,
}

-- Less than a number of thousandths after rounding: less than half a thousandth below it, or just as
-- much where that is rounded down.
abbrev pub Below : (ℕ → ℕ → Bool) → ℕ → ℕ → ℕ → Type 0
Below rounds_up a b t =
    (2 * a + b < t * (2 * b)) ⊎ ((2 * a + b ≡ t * (2 * b)) × (rounds_up a b ≡ false))

one_more : (t k : ℕ) → (t + 1) * k ≡ t * k + k
one_more t k = grind arith

-- Of a quotient q of m by k that goes down by one at an exact half.
below_iff :
    (m k t q : ℕ) (up : Bool)
    → 0 < t
    → 0 < k
    → (q < t) ↔ (m < t * k)
    → (q < t + 1) ↔ (m < t * k + k)
    → ((if q * k == m && not up then q - 1 else q) < t)
      ↔ ((m < t * k) ⊎ ((m ≡ t * k) × (up ≡ false)))
below_iff m k t q true p pos below next = ground (arith, below, next)
below_iff m k t q false p pos below next = elim (Bool-cases (ltb q t)) [
  | inl low ↦ ground (arith, below, next)
  | inr high ↦ elim (Bool-cases (q == t)) [
    | inl same ↦
        let eq : q ≡ t = ground arith in
        let scaled : q * k ≡ t * k = ap (λ x. x * k) eq in ground (arith, below, next)
    | inr other ↦ ground (arith, below, next)
  ]
]

pub r3-lt_iff :
    (rounds_up : ℕ → ℕ → Bool) (a b t : ℕ)
    → 0 < b
    → 0 < t
    → (r3 rounds_up a b < t) ↔ Below rounds_up a b t
unfolding r3
r3-lt_iff rounds_up a b t h p =
    below_iff (2 * a + b) (2 * b) t ((2 * a + b) / (2 * b)) (rounds_up a b) p (omega arith)
      (div-lt_iff_lt-mul (omega arith))
      (subst (λ x. ((2 * a + b) / (2 * b) < t + 1) ↔ (2 * a + b < x)) (one_more t (2 * b))
        (div-lt_iff_lt-mul (omega arith)))

-- What the next rung asks of the reports, with every quotient multiplied out: for L1, ten
-- questions in the last show; for L2, fewer than 20% of the replies of three shows edited; for L3,
-- fewer than 2% of the drafts of three shows blocked and every audit chain intact; for L4, fewer
-- than 10% of the actions of five shows rolled back; all as rounded to thousandths.
abbrev pub Earned : (ℕ → ℕ → Bool) → AutonomyLevel → List ShowReport → Type 0
Earned rounds_up l0_observe rows =
    (1 ≤ length rows) × (10 ≤ sum_by (λ r. r.questions_asked) (take 1 rows))
Earned rounds_up l1_suggest rows =
    (3 ≤ length rows)
    × (0 < sum_by (λ r. r.sent) (take 3 rows))
    × Below rounds_up (sum_by (λ r. or_zero r.edit_rate * r.sent) (take 3 rows))
        (sum_by (λ r. r.sent) (take 3 rows)) 200
Earned rounds_up l2_one_tap rows =
    (3 ≤ length rows)
    × (0 < sum_by (λ r. r.answered + r.blocked) (take 3 rows))
    × Below rounds_up (1000 * sum_by (λ r. r.blocked) (take 3 rows))
        (sum_by (λ r. r.answered + r.blocked) (take 3 rows)) 20
    × (every (λ r. r.audit_ok) (take 3 rows) ≡ true)
Earned rounds_up l3_auto_reply rows =
    (5 ≤ length rows)
    × (0 < sum_by (λ r. r.committed) (take 5 rows))
    × Below rounds_up (1000 * sum_by (λ r. r.rolled_back) (take 5 rows))
        (sum_by (λ r. r.committed) (take 5 rows)) 100
Earned rounds_up l4_auto_act rows = ⊥

length-take : {A : Type 0} (n : ℕ) (xs : List A) → (n ≤ length (take n xs)) ↔ (n ≤ length xs)
length-take zero xs = (λ h. omega arith, λ h. omega arith)
length-take (suc n) [] = (λ h. h, λ h. h)
length-take (suc n) (x ∷ xs) = ground (arith, length-take n xs)

-- A signed-in seller is ready for the next rung exactly when the newest reports carry the numbers
-- that this code asks for, written out in `Earned`, whichever way halves are rounded; at the top there is no next rung, and nobody is ready.
pub promotion_readiness_iff :
    (rounds_up : ℕ → ℕ → Bool) (current : AutonomyLevel) (rows : List ShowReport)
    → ((promotion_readiness rounds_up current true rows).ready ≡ true)
      ↔ Earned rounds_up current rows
unfolding promotion_readiness criteria_for build rate
promotion_readiness_iff rounds_up l0_observe rows = ground (arith, length-take 1 rows)
promotion_readiness_iff rounds_up l1_suggest rows = ground (
  arith,
  length-take 3 rows,
  r3-lt_iff rounds_up (sum_by (λ r. or_zero r.edit_rate * r.sent) (take 3 rows))
      (sum_by (λ r. r.sent) (take 3 rows)) 200,
)
promotion_readiness_iff rounds_up l2_one_tap rows = ground (
  arith,
  length-take 3 rows,
  r3-lt_iff rounds_up (1000 * sum_by (λ r. r.blocked) (take 3 rows))
      (sum_by (λ r. r.answered + r.blocked) (take 3 rows)) 20,
)
promotion_readiness_iff rounds_up l3_auto_reply rows = ground (
  arith,
  length-take 5 rows,
  r3-lt_iff rounds_up (1000 * sum_by (λ r. r.rolled_back) (take 5 rows))
      (sum_by (λ r. r.committed) (take 5 rows)) 100,
)
promotion_readiness_iff rounds_up l4_auto_act rows = ground arith
