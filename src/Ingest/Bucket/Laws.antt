-- ===== src/Ingest/Bucket/Laws.antt =====
-- How many proposals a burst of chat can make.
use native.Mathlib.Nat.{add-mul}
use sidestage_copilot.Prelude.{
  ℕ, suc, ◌+◌, ◌-◌, ◌*◌, ◌≤◌, ◌≡◌, ap, ◌∙◌, List, [], ◌∷◌, if◌then◌else◌, arith,
}
use sidestage_copilot.Ingest.Bucket.{TokenBucket, refilled, try_admit}

-- How many of the calls at these times are admitted.
unfoldable pub admissions : List ℕ → TokenBucket → ℕ
admissions [] b = 0
admissions (t ∷ ts) b =
    let rest = admissions ts (try_admit t b).1 in if (try_admit t b).0 then suc rest else rest

-- The times go forward from `t`, and not beyond `end`.
abbrev pub InOrder : ℕ → List ℕ → ℕ → Type 0
InOrder t [] end = t ≤ end
InOrder t (u ∷ us) end = (t ≤ u) × InOrder u us end

InOrder-le : (t : ℕ) (us : List ℕ) (end : ℕ) → InOrder t us end → t ≤ end
InOrder-le t [] end h = h
InOrder-le t (u ∷ us) end h = omega (arith, InOrder-le u us end h.1, h.0)

split_time : (s t e n : ℕ) → s ≤ t → t ≤ e → (e - s) * n ≡ (t - s) * n + (e - t) * n
split_time s t e n h k = ap (λ d. d * n) (gap s t e h k) ∙ add-mul (t - s) (e - t) n
  where
    gap : (s t e : ℕ) → s ≤ t → t ≤ e → e - s ≡ (t - s) + (e - t)
    gap s t e h k = omega arith

-- Of the calls between one time and another, no more are admitted than there were tokens at the
-- beginning and have been refilled since, at so many a minute.
pub admissions_bound :
    (ts : List ℕ) (end : ℕ) (b : TokenBucket)
    → InOrder b.last ts end
    → 60000 * admissions ts b ≤ b.tokens + (end - b.last) * b.per_min
unfolding admissions try_admit
admissions_bound [] end b h = omega arith
admissions_bound (t ∷ ts) end b h = ground (
  arith,
  split_time b.last t end b.per_min h.0 (InOrder-le t ts end h.1),
  admissions_bound ts end (record b { tokens = refilled t b - 60000; last = t }) h.1,
  admissions_bound ts end (record b { tokens = refilled t b; last = t }) h.1,
)
