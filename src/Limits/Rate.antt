-- ===== src/Limits/Rate.antt =====
-- src/api/rateLimit.ts, `RateLimiter`: fixed windows, one to a key. Times are in milliseconds.
pub mod Laws
use sidestage_copilot.Prelude.{
  ℕ, zero, suc, ◌+◌, ◌-◌, ◌/◌, max, String, Bool, true, false, not, Option, none, some, List, [],
  ◌∷◌, if◌then◌else◌, ltb, leb,
}
use sidestage_copilot.Prelude.Int.{ℤ, pos, negsuc}
use sidestage_copilot.Dict.{Dict, get, put, keep_values}

pub record Limit : Type 0 where
  pub window_ms : ℕ
  pub max_hits : ℕ

pub record Answer : Type 0 where
  pub ok : Bool
  pub retry_after_s : ℕ
  pub remaining : ℤ

pub record Window : Type 0 where
  pub count : ℕ
  pub reset_at : ℕ

pub record RateLimiter : Type 0 where
  pub windows : Dict Window
  pub last_sweep : ℕ

abbrev pub new_limiter : RateLimiter
new_limiter = record { windows = []; last_sweep = 0 }

abbrev pub is_open : ℕ → Window → Bool
is_open t w = ltb t w.reset_at

abbrev sweep : ℕ → RateLimiter → RateLimiter
sweep t r =
    if ltb t (r.last_sweep + 60000)
    then r
    else record { windows = keep_values (is_open t) r.windows; last_sweep = t }

-- `max - 1`, which is -1 at a limit of 0.
abbrev one_less : ℕ → ℤ
one_less zero = negsuc 0
one_less (suc n) = pos n

abbrev start_window : ℕ → String → Limit → RateLimiter → RateLimiter × Answer
start_window t key limit r = (
  record {
    windows = put key (record { count = 1; reset_at = t + limit.window_ms }) r.windows;
    last_sweep = r.last_sweep;
  },
  record { ok = true; retry_after_s = 0; remaining = one_less limit.max_hits },
)

abbrev verdict_at : ℕ → Limit → Window → Answer
verdict_at t limit w =
    if ltb limit.max_hits w.count
    then record {
      ok = false;
      retry_after_s = max 1 ((w.reset_at - t + 999) / 1000);
      remaining = pos 0;
    }
    else record { ok = true; retry_after_s = 0; remaining = pos (limit.max_hits - w.count) }

-- The count goes up on a refused hit too.
abbrev count_hit : ℕ → String → Limit → Window → RateLimiter → RateLimiter × Answer
count_hit t key limit w r =
    let counted_w : Window = record { count = w.count + 1; reset_at = w.reset_at } in
    (
      record { windows = put key counted_w r.windows; last_sweep = r.last_sweep },
      verdict_at t limit counted_w,
    )

abbrev hit_window : ℕ → String → Limit → Option Window → RateLimiter → RateLimiter × Answer
hit_window t key limit none r = start_window t key limit r
hit_window t key limit (some w) r =
    if is_open t w then count_hit t key limit w r else start_window t key limit r

unfoldable pub hit : ℕ → String → Limit → RateLimiter → RateLimiter × Answer
hit t key limit r = let swept = sweep t r in hit_window t key limit (get key swept.windows) swept

-- What a restart does.
abbrev reset : RateLimiter → RateLimiter
reset r = record r { windows = [] }
