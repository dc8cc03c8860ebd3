-- ===== src/Limits/Browser/Laws.antt =====
-- The count of open browsers is that of the leases not released, in all and by purpose.
use sidestage_copilot.Prelude.{
  ℕ, zero, suc, ◌+◌, ◌-◌, ◌≤◌, String, str_eq, str_iff, ◌≡◌, refl, true, false, none, some, List,
  [], ◌∷◌, ◌++◌, if◌then◌else◌, leb, length, Bool-cases, Option-cases, ◌⊎◌, inl, inr, arith,
}
use mathlib.Core.Path.{subst}
use sidestage_copilot.Prelude.Int.{pos, negsuc}
use sidestage_copilot.Dict.{Dict, get}
use sidestage_copilot.Dict.Laws.{get-put, get-remove}
use sidestage_copilot.Limits.Browser.{
  BrowserLease, BrowserBudget, reset_browser_budget, or_zero, set_held, bump, take_browser,
  lease_at, set_released, closing, release_lease,
}

-- The leases not released.
abbrev pub outstanding : List BrowserLease → ℕ
outstanding [] = 0
outstanding (l ∷ ls) = (if l.released then 0 else 1) + outstanding ls

abbrev pub outstanding_for : String → List BrowserLease → ℕ
outstanding_for p [] = 0
outstanding_for p (l ∷ ls) =
    (if l.released then 0 else (if str_eq l.purpose p then 1 else 0)) + outstanding_for p ls

pub record IsBalanced (max_browsers : ℕ) (b : BrowserBudget) : Type 0 where
  pub within : b.open_count ≤ max_browsers
  pub counted : b.open_count ≡ outstanding b.leases
  pub counted_for : (p : String) → or_zero (get p b.held) ≡ outstanding_for p b.leases

get-set_held :
    (p q : String) (n : ℕ) (d : Dict ℕ)
    → or_zero (get q (set_held p n d)) ≡ (if str_eq p q then n else or_zero (get q d))
get-set_held p q zero d = ground (arith, get-remove p q d)
get-set_held p q (suc n) d = ground (arith, get-put p q (suc n) d)

get-bump-pos :
    (p q : String) (k : ℕ) (d : Dict ℕ)
    → or_zero (get q (bump p (pos k) d))
      ≡ (if str_eq p q then or_zero (get q d) + k else or_zero (get q d))
unfolding bump
get-bump-pos p q k d = ground (arith, str_iff p q, get-set_held p q (or_zero (get p d) + k) d)

get-bump-negsuc :
    (p q : String) (k : ℕ) (d : Dict ℕ)
    → or_zero (get q (bump p (negsuc k) d))
      ≡ (if str_eq p q then or_zero (get q d) - suc k else or_zero (get q d))
unfolding bump
get-bump-negsuc p q k d =
    ground (arith, str_iff p q, get-set_held p q (or_zero (get p d) - suc k) d)

outstanding-append :
    (ls ms : List BrowserLease) → outstanding (ls ++ ms) ≡ outstanding ls + outstanding ms
outstanding-append [] ms = omega arith
outstanding-append (l ∷ ls) ms = omega (arith, outstanding-append ls ms)

outstanding_for-append :
    (p : String) (ls ms : List BrowserLease)
    → outstanding_for p (ls ++ ms) ≡ outstanding_for p ls + outstanding_for p ms
outstanding_for-append p [] ms = omega arith
outstanding_for-append p (l ∷ ls) ms = omega (arith, outstanding_for-append p ls ms)

outstanding-set_released :
    (i : ℕ) (l : BrowserLease) (ls : List BrowserLease)
    → lease_at i ls ≡ some l
    → l.released ≡ false
    → outstanding ls ≡ outstanding (set_released i ls) + 1
outstanding-set_released i l [] h q = absurd (ground arith)
outstanding-set_released zero l (m ∷ ls) h q = ground arith
outstanding-set_released (suc i) l (m ∷ ls) h q = omega (arith, outstanding-set_released i l ls h q)

outstanding_for-set_released :
    (p : String) (i : ℕ) (l : BrowserLease) (ls : List BrowserLease)
    → lease_at i ls ≡ some l
    → l.released ≡ false
    → outstanding_for p ls
      ≡ outstanding_for p (set_released i ls) + (if str_eq l.purpose p then 1 else 0)
outstanding_for-set_released p i l [] h q = absurd (ground arith)
outstanding_for-set_released p zero l (m ∷ ls) h q = ground arith
outstanding_for-set_released p (suc i) l (m ∷ ls) h q =
    omega (arith, outstanding_for-set_released p i l ls h q)

lease_at-set_released :
    (i : ℕ) (l : BrowserLease) (ls : List BrowserLease)
    → lease_at i ls ≡ some l
    → lease_at i (set_released i ls) ≡ some (record l { released = true })
lease_at-set_released i l [] h = absurd (ground arith)
lease_at-set_released zero l (m ∷ ls) h = ground arith
lease_at-set_released (suc i) l (m ∷ ls) h = lease_at-set_released i l ls h

pub reset_browser_budget-IsBalanced : (m : ℕ) → IsBalanced m reset_browser_budget
unfolding get
reset_browser_budget-IsBalanced m = record {
  within = omega arith;
  counted = refl;
  counted_for = λ p. refl;
}

-- A browser is opened exactly where fewer than the ceiling are open, and the counts stay those of the
-- leases that are not released.
pub take_browser-IsBalanced :
    (m : ℕ) (p : String) (b : BrowserBudget)
    → IsBalanced m b
    → ((take_browser m p b ≡ none) × (b.open_count ≡ m))
      ⊎ ((i : ℕ) × (c : BrowserBudget) × (take_browser m p b ≡ some (i, c)) × IsBalanced m c)
unfolding take_browser
take_browser-IsBalanced m p b w = elim (Bool-cases (leb m b.open_count)) [
  | inl e ↦ inl (ground arith, ground (arith, w.within))
  | inr e ↦ inr (
    length b.leases,
    record {
      held = bump p (pos 1) b.held;
      open_count = b.open_count + 1;
      leases = b.leases ++ (record { purpose = p; released = false } ∷ []);
    },
    ground arith,
    record {
      within = ground arith;
      counted = omega (
        arith,
        w.counted,
        outstanding-append b.leases (record { purpose = p; released = false } ∷ []),
      );
      counted_for = λ q. ground (
        arith,
        w.counted_for q,
        get-bump-pos p q 1 b.held,
        outstanding_for-append q b.leases (record { purpose = p; released = false } ∷ []),
      );
    },
  )
]

closing-IsBalanced :
    (m i : ℕ) (l : BrowserLease) (b : BrowserBudget)
    → lease_at i b.leases ≡ some l
    → l.released ≡ false
    → IsBalanced m b
    → IsBalanced m (closing i l b)
closing-IsBalanced m i l b h q w = record {
  within = omega (arith, w.within);
  counted = omega (arith, w.counted, outstanding-set_released i l b.leases h q);
  counted_for = λ p. ground (
    arith,
    w.counted_for p,
    get-bump-negsuc l.purpose p 0 b.held,
    outstanding_for-set_released p i l b.leases h q,
  );
}

-- Giving a lease back keeps the counts those of the leases that are not released.
pub release_lease-IsBalanced :
    (m i : ℕ) (b : BrowserBudget) → IsBalanced m b → IsBalanced m (release_lease i b)
unfolding release_lease
release_lease-IsBalanced m i b w = elim (Option-cases (lease_at i b.leases)) [
  | inl e ↦ subst (IsBalanced m) (ground arith) w
  | inr (l, e) ↦ elim (Bool-cases l.released) [
    | inl q ↦ subst (IsBalanced m) (ground arith) w
    | inr q ↦ subst (IsBalanced m) (ground arith) (closing-IsBalanced m i l b e q w)
  ]
]

-- Giving a lease back twice is giving it back once.
pub release_lease_twice :
    (i : ℕ) (b : BrowserBudget) → release_lease i (release_lease i b) ≡ release_lease i b
unfolding release_lease
release_lease_twice i b = elim (Option-cases (lease_at i b.leases)) [
  | inl e ↦ ground arith
  | inr (l, e) ↦ ground (arith, lease_at-set_released i l b.leases e)
]
