-- ===== src/Autonomy/Promotion.antt =====
-- src/autonomy/promotion.ts: the criteria that unlock the next rung, over the reports of finished
-- shows. The rows of the query, newest first and at most five, are an argument; labels and details
-- are left out. A rate is an integer number of thousandths, which is what `r3` rounds to. Where the
-- quotient lies half-way between two of them, `toFixed` looks at the binary fraction nearest to it, which
-- may lie below: whether it rounds up there is a parameter.
pub mod Laws
use sidestage_copilot.Prelude.{
  ℕ, zero, suc, ◌+◌, ◌*◌, ◌-◌, ◌/◌, not, Bool, true, false, ◌&&◌, Option, none, some, List, [], ◌∷◌,
  if◌then◌else◌, ltb, leb, ◌==◌, length, take, every, sum_by,
}
use sidestage_copilot.Domain.{
  AutonomyLevel, l0_observe, l1_suggest, l2_one_tap, l3_auto_reply, l4_auto_act,
}

-- The fields of `ShowReport` that the criteria read.
pub record ShowReport : Type 0 where
  pub questions_asked : ℕ
  pub sent : ℕ
  pub answered : ℕ
  pub blocked : ℕ
  pub audit_ok : Bool
  pub committed : ℕ
  pub rolled_back : ℕ
  pub edit_rate : Option ℕ

pub data CriterionState : Type 0 where
  met not_met unknown : CriterionState

pub record Criterion : Type 0 where
  pub shows_required : ℕ
  pub shows_seen : ℕ
  pub value : Option ℕ
  pub state : CriterionState

pub record PromotionReadiness : Type 0 where
  pub next : Option AutonomyLevel
  pub ready : Bool
  pub criteria : List Criterion

-- `r3(a / b)` of a fraction a / (1000 b): to the nearest thousandth, and at a half as `rounds_up` says.
unfoldable pub r3 : (ℕ → ℕ → Bool) → ℕ → ℕ → ℕ
r3 rounds_up a b =
    let q = (2 * a + b) / (2 * b) in
    if q * (2 * b) == 2 * a + b && not (rounds_up a b) then q - 1 else q

-- `b ? r3(a / b) : null`
unfoldable pub rate : (ℕ → ℕ → Bool) → ℕ → ℕ → Option ℕ
rate rounds_up a b = if b == 0 then none else some (r3 rounds_up a b)

abbrev judge : (ℕ → Bool) → Option ℕ → CriterionState
judge ok none = unknown
judge ok (some v) = if ok v then met else not_met

unfoldable build : List ShowReport → ℕ → (List ShowReport → Option ℕ) → (ℕ → Bool) → Criterion
build rows required compute ok =
    let rs = take required rows in
    let value = (if leb required (length rs) then compute rs else none) in
    record {
      shows_required = required;
      shows_seen = length rs;
      value = value;
      state = judge ok value;
    }

abbrev or_zero : Option ℕ → ℕ
or_zero none = 0
or_zero (some n) = n

abbrev pub questions : List ShowReport → Option ℕ
questions rs = some (sum_by (λ r. r.questions_asked) rs)

-- Pooled over the replies sent.
abbrev pub edits : (ℕ → ℕ → Bool) → List ShowReport → Option ℕ
edits rounds_up rs =
    rate rounds_up (sum_by (λ r. or_zero r.edit_rate * r.sent) rs) (sum_by (λ r. r.sent) rs)

abbrev pub block_rate : (ℕ → ℕ → Bool) → List ShowReport → Option ℕ
block_rate rounds_up rs =
    rate rounds_up (1000 * sum_by (λ r. r.blocked) rs) (sum_by (λ r. r.answered + r.blocked) rs)

abbrev pub chains : List ShowReport → Option ℕ
chains rs = some (if every (λ r. r.audit_ok) rs then 1 else 0)

abbrev pub rollbacks : (ℕ → ℕ → Bool) → List ShowReport → Option ℕ
rollbacks rounds_up rs =
    rate rounds_up (1000 * sum_by (λ r. r.rolled_back) rs) (sum_by (λ r. r.committed) rs)

unfoldable criteria_for : (ℕ → ℕ → Bool) → AutonomyLevel → List ShowReport → List Criterion
criteria_for rounds_up l0_observe rows = []
criteria_for rounds_up l1_suggest rows = build rows 1 questions (λ v. leb 10 v) ∷ []
criteria_for rounds_up l2_one_tap rows = build rows 3 (edits rounds_up) (λ v. ltb v 200) ∷ []
criteria_for rounds_up l3_auto_reply rows =
    build rows 3 (block_rate rounds_up) (λ v. ltb v 20) ∷ build rows 3 chains (λ v. v == 1) ∷ []
criteria_for rounds_up l4_auto_act rows = build rows 5 (rollbacks rounds_up) (λ v. ltb v 100) ∷ []

-- `LADDER[rung(current) + 1] ?? null`
abbrev pub next_rung : AutonomyLevel → Option AutonomyLevel
next_rung l0_observe = some l1_suggest
next_rung l1_suggest = some l2_one_tap
next_rung l2_one_tap = some l3_auto_reply
next_rung l3_auto_reply = some l4_auto_act
next_rung l4_auto_act = none

abbrev is_met : Criterion → Bool
is_met c = elim c.state [ met ↦ true | _ ↦ false ]

abbrev readiness : (ℕ → ℕ → Bool) → List ShowReport → Option AutonomyLevel → PromotionReadiness
readiness rounds_up rows none = record { next = none; ready = false; criteria = [] }
readiness rounds_up rows (some next) =
    let cs = criteria_for rounds_up next rows in
    record { next = some next; ready = ltb 0 (length cs) && every is_met cs; criteria = cs }

abbrev signed_in : Bool → List ShowReport → List ShowReport
signed_in true rows = rows
signed_in false rows = []

-- `owned` is whether somebody is signed in; then `rows` are that seller's reports.
unfoldable pub promotion_readiness :
    (ℕ → ℕ → Bool) → AutonomyLevel → Bool → List ShowReport → PromotionReadiness
unfolding criteria_for build
promotion_readiness rounds_up current owned rows =
    readiness rounds_up (signed_in owned rows) (next_rung current)
