-- ===== src/Shows/Metrics/Laws.antt =====
-- What a rate may be, and how near the stated length is to the true one.
use sidestage_copilot.Prelude.{Bool, inl, ℕ, ◌+◌, ◌*◌, ◌-◌, ◌≤◌, ◌<◌, ◌≡◌, Option, some, arith}
use sidestage_copilot.Autonomy.Promotion.Laws.{r3-lt_iff}
use sidestage_copilot.Shows.Metrics.{round3, block_rate, end_of, duration_min}

round3-lt : (rounds_up : ℕ → ℕ → Bool) (n d : ℕ) → 0 < d → n ≤ d → round3 rounds_up n d < 1001
round3-lt rounds_up n d p h =
    (r3-lt_iff rounds_up (1000 * n) d 1001 p (omega arith)).1 (inl (omega arith))

-- The block rate is never above one, whatever the counts.
pub block_rate-le :
    (rounds_up : ℕ → ℕ → Bool) (blocked answered x : ℕ)
    → block_rate rounds_up blocked answered ≡ some x
    → x ≤ 1000
unfolding block_rate
block_rate-le rounds_up blocked answered x h =
    ground (arith, round3-lt rounds_up blocked (answered + blocked))

-- The length of a session is the nearest number of minutes, half a minute rounding up.
pub duration_min-nearest :
    (now started : ℕ) (ended : Option ℕ)
    → (60000 * duration_min now started ended ≤ end_of now ended - started + 30000)
      × (end_of now ended - started < 60000 * duration_min now started ended + 30000)
unfolding duration_min
duration_min-nearest now started ended = (omega arith, omega arith)
