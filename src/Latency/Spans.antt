-- ===== src/Latency/Spans.antt =====
-- src/latency/spans.ts, `LatencyTracker`: the latencies of the last replies, in whole milliseconds,
-- and their percentiles by nearest rank.
pub mod Laws
use sidestage_copilot.Prelude.{
  ℕ, zero, suc, ◌+◌, ◌-◌, ◌*◌, ◌/◌, min, Bool, true, false, Option, none, some, List, [], ◌∷◌, ◌++◌,
  if◌then◌else◌, ltb, ◌==◌, length, sort, nth,
}

pub record LatencyTracker : Type 0 where
  pub budget_ms : ℕ
  pub window : ℕ
  pub samples : List ℕ
  pub breaches : ℕ
  pub cache_hits : ℕ
  pub total : ℕ

pub record Percentiles : Type 0 where
  pub p50 : ℕ
  pub p95 : ℕ
  pub p99 : ℕ
  pub breaches : ℕ
  pub samples : ℕ

abbrev pub new_tracker : ℕ → ℕ → LatencyTracker
new_tracker budget_ms window = record {
  budget_ms = budget_ms;
  window = window;
  samples = [];
  breaches = 0;
  cache_hits = 0;
  total = 0;
}

-- `samples.shift()`
abbrev shift : List ℕ → List ℕ
shift [] = []
shift (x ∷ xs) = xs

abbrev within_window : ℕ → List ℕ → List ℕ
within_window window xs = if ltb window (length xs) then shift xs else xs

-- `LatencyTracker.record`
unfoldable pub record_total : ℕ → Bool → LatencyTracker → LatencyTracker
record_total total_ms cache_hit t = record t {
  samples = within_window t.window (t.samples ++ (total_ms ∷ []));
  total = t.total + 1;
  cache_hits = if cache_hit then t.cache_hits + 1 else t.cache_hits;
  breaches = if ltb t.budget_ms total_ms then t.breaches + 1 else t.breaches;
}

-- `Math.ceil((p / 100) * sorted.length)`; a rank of 0 reads the first sample, as a difference that
-- stops at 0 does.
unfoldable pub pct : List ℕ → ℕ → ℕ
pct [] p = 0
pct (x ∷ xs) p =
    let rank = (p * length (x ∷ xs) + 99) / 100 in
    nth (min (length (x ∷ xs) - 1) (rank - 1)) (x ∷ xs)

unfoldable pub percentiles : LatencyTracker → Percentiles
percentiles t =
    let s = sort t.samples in
    record {
      p50 = pct s 50;
      p95 = pct s 95;
      p99 = pct s 99;
      breaches = t.breaches;
      samples = length s;
    }

-- In thousandths, to the nearest.
unfoldable pub cache_hit_rate : LatencyTracker → Option ℕ
cache_hit_rate t =
    if t.total == 0 then none else some ((2000 * t.cache_hits + t.total) / (2 * t.total))
