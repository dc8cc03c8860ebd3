-- ===== src/Shows/Metrics.antt =====
-- src/shows/metrics.ts: the rates, in thousandths, and the length of a session, in milliseconds. As
-- for the promotion, whether a quotient half-way between two thousandths rounds up is a parameter.
pub mod Laws
use sidestage_copilot.Prelude.{Bool, ℕ, ◌+◌, ◌-◌, ◌*◌, ◌/◌, Option, none, some, if◌then◌else◌, ◌==◌}
use sidestage_copilot.Autonomy.Promotion.{r3}

-- `round3(n / d)` in thousandths
abbrev pub round3 : (ℕ → ℕ → Bool) → ℕ → ℕ → ℕ
round3 rounds_up n d = r3 rounds_up (1000 * n) d

unfoldable pub share : (ℕ → ℕ → Bool) → ℕ → ℕ → Option ℕ
share rounds_up n d = if d == 0 then none else some (round3 rounds_up n d)

unfoldable pub answered_rate : (ℕ → ℕ → Bool) → ℕ → ℕ → Option ℕ
answered_rate rounds_up sent questions_asked =
    if questions_asked == 0 then none else some (round3 rounds_up sent questions_asked)

unfoldable pub block_rate : (ℕ → ℕ → Bool) → ℕ → ℕ → Option ℕ
block_rate rounds_up blocked answered =
    let denom = answered + blocked in
    if denom == 0 then none else some (round3 rounds_up blocked denom)

unfoldable pub answerable_share : (ℕ → ℕ → Bool) → ℕ → ℕ → Option ℕ
answerable_share rounds_up answered proposals =
    if proposals == 0 then none else some (round3 rounds_up answered proposals)

abbrev end_of : ℕ → Option ℕ → ℕ
end_of now none = now
end_of now (some t) = t

-- `Math.max(0, Math.round(… / 60_000))`: a session that ends before it starts is 0 long, as a
-- difference that stops at 0 is.
unfoldable pub duration_min : ℕ → ℕ → Option ℕ → ℕ
duration_min now started ended = (end_of now ended - started + 30000) / 60000
