-- ===== src/Limits/Rate/Laws.antt =====
-- What a limiter lets through: windows count hits, no more than the limit passes in one, and the
-- wait that a refusal names is enough.
use sidestage_copilot.Prelude.{
  ℕ, suc, ◌+◌, ◌*◌, ◌≤◌, ◌<◌, String, str_refl, ◌≡◌, true, false, Option, none, some, List, [], ◌∷◌,
  if◌then◌else◌, Option-cases, Bool-cases, inl, inr, ◌⊎◌, arith,
}
use sidestage_copilot.Dict.{get, put, IsUnique}
use sidestage_copilot.Dict.Laws.{get-put, get-keep_values-false, put-IsUnique, keep_values-IsUnique}
use sidestage_copilot.Limits.Rate.{Limit, Window, RateLimiter, is_open, sweep, count_hit, hit}

-- How many hits the window of `key` has counted at the time `t`; 0 where none is open.
abbrev counted_in : ℕ → Option Window → ℕ
counted_in t none = 0
counted_in t (some w) = if is_open t w then w.count else 0

abbrev pub counted : ℕ → String → RateLimiter → ℕ
counted t key r = counted_in t (get key r.windows)

-- The run of a caller: the times of its hits, under one limit. How many of them were allowed.
unfoldable pub allowed : String → Limit → List ℕ → RateLimiter → ℕ
allowed key limit [] r = 0
allowed key limit (t ∷ ts) r =
    let rest = allowed key limit ts (hit t key limit r).0 in
    if (hit t key limit r).1.ok then suc rest else rest

abbrev pub Before : ℕ → List ℕ → Type 0
Before e [] = Unit
Before e (t ∷ ts) = (t < e) × Before e ts

hit-refused :
    (t : ℕ) (key : String) (limit : Limit) (r : RateLimiter)
    → (hit t key limit r).1.ok ≡ false
    → (w : Window) × (get key (sweep t r).windows ≡ some w)
      × (is_open t w ≡ true)
      × (hit t key limit r ≡ count_hit t key limit w (sweep t r))
unfolding hit
hit-refused t key limit r h = elim (Option-cases (get key (sweep t r).windows)) [
  | inl e ↦ absurd (ground arith)
  | inr (w, e) ↦ (w, e, ground arith, ground arith)
]

get-sweep-closed :
    (t : ℕ) (key : String) (w : Window) (r : RateLimiter)
    → IsUnique r.windows
    → get key r.windows ≡ some w
    → w.reset_at ≤ t
    → (get key (sweep t r).windows ≡ none) ⊎ (get key (sweep t r).windows ≡ some w)
get-sweep-closed t key w r u h q =
    ground (arith, get-keep_values-false (is_open t) key w r.windows u h (ground arith))

hit-closed :
    (t : ℕ) (key : String) (limit : Limit) (w : Window) (r : RateLimiter)
    → IsUnique r.windows
    → get key r.windows ≡ some w
    → w.reset_at ≤ t
    → (hit t key limit r).1.ok ≡ true
unfolding hit
hit-closed t key limit w r u h q = elim (get-sweep-closed t key w r u h q) [
  | inl e ↦ ground arith
  | inr e ↦ ground arith
]

sweep-IsUnique : (t : ℕ) (r : RateLimiter) → IsUnique r.windows → IsUnique (sweep t r).windows
sweep-IsUnique t r u = ground (arith, keep_values-IsUnique (is_open t) r.windows u)

hit-windows :
    (t : ℕ) (key : String) (limit : Limit) (r : RateLimiter)
    → (w : Window) × ((hit t key limit r).0.windows ≡ put key w (sweep t r).windows)
unfolding hit
hit-windows t key limit r = elim (Option-cases (get key (sweep t r).windows)) [
  | inl e ↦ (record { count = 1; reset_at = t + limit.window_ms }, ground arith)
  | inr (w, e) ↦ elim (Bool-cases (is_open t w)) [
    | inl o ↦ (record { count = w.count + 1; reset_at = w.reset_at }, ground arith)
    | inr o ↦ (record { count = 1; reset_at = t + limit.window_ms }, ground arith)
  ]
]

-- A key has one window after a hit where it had one before.
pub hit-IsUnique :
    (t : ℕ) (key : String) (limit : Limit) (r : RateLimiter)
    → IsUnique r.windows
    → IsUnique (hit t key limit r).0.windows
unfolding hit
hit-IsUnique t key limit r u =
    let (w, e) = hit-windows t key limit r in
    rw e (put-IsUnique key w (sweep t r).windows (sweep-IsUnique t r u))

-- A caller that was refused and comes back after the seconds that the refusal named is allowed,
-- where a key has one window.
pub hit-retry :
    (t d : ℕ) (key : String) (limit : Limit) (r : RateLimiter)
    → IsUnique r.windows
    → (hit t key limit r).1.ok ≡ false
    → (hit
        (t + (hit t key limit r).1.retry_after_s * 1000 + d)
        key
        limit
        (hit t key limit r).0).1.ok
      ≡ true
hit-retry t d key limit r u h =
    let (w, e, o, q) = hit-refused t key limit r h in
    hit-closed (t + (hit t key limit r).1.retry_after_s * 1000 + d) key limit
      (record { count = w.count + 1; reset_at = w.reset_at }) (hit t key limit r).0
      (hit-IsUnique t key limit r u)
      (ground (
        arith,
        str_refl key,
        get-put key key (record { count = w.count + 1; reset_at = w.reset_at }) (sweep t r).windows,
      ))
      (ground arith)
