-- ===== src/Ingest/Bucket.antt =====
-- src/ingest/classify.ts, `RateLimiter`: a refilling bucket of tokens. A token is 60,000 units, of
-- which as many are refilled in a millisecond as proposals are allowed in a minute; a sum of
-- the source's binary fractions is exact here. The clock does not go back.
pub mod Laws
use sidestage_copilot.Prelude.{ℕ, ◌+◌, ◌-◌, ◌*◌, min, Bool, true, false, if◌then◌else◌, leb}

pub record TokenBucket : Type 0 where
  pub per_min : ℕ
  pub tokens : ℕ
  pub last : ℕ

abbrev pub new_bucket : ℕ → ℕ → TokenBucket
new_bucket per_min now = record { per_min = per_min; tokens = per_min * 60000; last = now }

abbrev pub refilled : ℕ → TokenBucket → ℕ
refilled now b = min (b.per_min * 60000) (b.tokens + (now - b.last) * b.per_min)

unfoldable pub try_admit : ℕ → TokenBucket → Bool × TokenBucket
try_admit now b =
    if leb 60000 (refilled now b)
    then (true, record b { tokens = refilled now b - 60000; last = now })
    else (false, record b { tokens = refilled now b; last = now })
