-- ===== src/Latency/Spans/Laws.antt =====
-- Which replies the window holds, and how many of them a percentile covers.
use native.Mathlib.Nat.{add-mul}
use sidestage_copilot.Prelude.{
  ℕ, zero, suc, ◌+◌, ◌-◌, ◌*◌, ◌/◌, ◌≤◌, ◌<◌, min, ◌≡◌, refl, ap, Bool, List, [], ◌∷◌, ◌++◌,
  if◌then◌else◌, ltb, leb, Bool-cases, inl, inr, length, length-append, insert, sort, nth, All,
  arith,
}
use sidestage_copilot.Latency.Spans.{
  LatencyTracker, new_tracker, shift, within_window, record_total, pct,
}

abbrev pub drop : ℕ → List ℕ → List ℕ
drop zero xs = xs
drop (suc n) [] = []
drop (suc n) (x ∷ xs) = drop n xs

-- The last `n` of a list.
abbrev pub last_of : ℕ → List ℕ → List ℕ
last_of n xs = drop (length xs - n) xs

-- The elements of a list that the test takes.
abbrev pub count : (ℕ → Bool) → List ℕ → ℕ
count p [] = 0
count p (x ∷ xs) = let rest = count p xs in if p x then suc rest else rest

unfoldable pub record_all : List (ℕ × Bool) → LatencyTracker → LatencyTracker
record_all [] t = t
record_all ((ms, c) ∷ rest) t = record_all rest (record_total ms c t)

abbrev pub totals : List (ℕ × Bool) → List ℕ
totals [] = []
totals ((ms, c) ∷ rest) = ms ∷ totals rest

drop-nil : (n : ℕ) → [] ≡ drop n []
drop-nil zero = refl
drop-nil (suc n) = refl

length-drop : (n : ℕ) (xs : List ℕ) → length (drop n xs) ≡ length xs - n
length-drop zero xs = omega arith
length-drop (suc n) [] = omega arith
length-drop (suc n) (x ∷ xs) = omega (arith, length-drop n xs)

drop-append : (n : ℕ) (xs ys : List ℕ) → n ≤ length xs → drop n (xs ++ ys) ≡ drop n xs ++ ys
drop-append zero xs ys h = refl
drop-append (suc n) [] ys h = absurd (ground arith)
drop-append (suc n) (x ∷ xs) ys h = drop-append n xs ys (omega arith)

shift-drop : (n : ℕ) (xs : List ℕ) → shift (drop n xs) ≡ drop (suc n) xs
shift-drop zero [] = refl
shift-drop zero (x ∷ xs) = refl
shift-drop (suc n) [] = refl
shift-drop (suc n) (x ∷ xs) = shift-drop n xs

drop_at : (m n : ℕ) (xs : List ℕ) → m ≡ n → drop m xs ≡ drop n xs
drop_at m n xs h = ap (λ k. drop k xs) h

within_window-last_of :
    (w x : ℕ) (xs : List ℕ)
    → within_window w (last_of w xs ++ (x ∷ [])) ≡ last_of w (xs ++ (x ∷ []))
within_window-last_of w x xs = elim (Bool-cases (leb w (length xs))) [
  | inl h ↦ ground (
    arith,
    length-append (last_of w xs) (x ∷ []),
    length-drop (length xs - w) xs,
    drop-append (length xs - w) xs (x ∷ []),
    shift-drop (length xs - w) (xs ++ (x ∷ [])),
    drop_at (length (xs ++ (x ∷ [])) - w) (suc (length xs - w)) (xs ++ (x ∷ []))
        (ground (arith, length-append xs (x ∷ []))),
  )
  | inr h ↦ ground (
    arith,
    length-append xs (x ∷ []),
    drop_at (length xs - w) 0 xs (ground arith),
    drop_at (length (xs ++ (x ∷ [])) - w) 0 (xs ++ (x ∷ []))
        (ground (arith, length-append xs (x ∷ []))),
  )
]

append-nil : (xs : List ℕ) → xs ++ [] ≡ xs
append-nil [] = refl
append-nil (x ∷ xs) = ap (λ ys. x ∷ ys) (append-nil xs)

append-cons : (xs ys : List ℕ) (x : ℕ) → (xs ++ (x ∷ [])) ++ ys ≡ xs ++ (x ∷ ys)
append-cons [] ys x = refl
append-cons (y ∷ xs) ys x = ap (λ zs. y ∷ zs) (append-cons xs ys x)

record_all-from :
    (rs : List (ℕ × Bool)) (xs : List ℕ) (t : LatencyTracker)
    → t.samples ≡ last_of t.window xs
    → (record_all rs t).samples ≡ last_of t.window (xs ++ totals rs)
unfolding record_all record_total
record_all-from [] xs t h = ground (arith, append-nil xs)
record_all-from ((ms, c) ∷ rs) xs t h = ground (
  arith,
  append-cons xs (totals rs) ms,
  within_window-last_of t.window ms xs,
  record_all-from rs (xs ++ (ms ∷ [])) (record_total ms c t),
)

record_all-counts :
    (rs : List (ℕ × Bool)) (t : LatencyTracker)
    → ((record_all rs t).total ≡ t.total + length rs)
      × ((record_all rs t).breaches ≡ t.breaches + count (λ ms. ltb t.budget_ms ms) (totals rs))
unfolding record_all record_total
record_all-counts [] t = (omega arith, omega arith)
record_all-counts ((ms, c) ∷ rs) t = ground (arith, record_all-counts rs (record_total ms c t))

-- A tracker that has recorded replies since it was made holds the last of them, as many as its
-- window takes, and has counted all of them and those over the budget.
pub record_total_lem :
    (budget_ms window : ℕ) (rs : List (ℕ × Bool))
    → ((record_all rs (new_tracker budget_ms window)).samples ≡ last_of window (totals rs))
      × ((record_all rs (new_tracker budget_ms window)).total ≡ length rs)
      × ((record_all rs (new_tracker budget_ms window)).breaches
          ≡ count (λ ms. ltb budget_ms ms) (totals rs))
record_total_lem budget_ms window rs = (
  record_all-from rs [] (new_tracker budget_ms window) (drop-nil (0 - window)),
  ground (arith, record_all-counts rs (new_tracker budget_ms window)),
  ground (arith, record_all-counts rs (new_tracker budget_ms window)),
)

abbrev IsSorted : List ℕ → Type 0
IsSorted [] = Unit
IsSorted (x ∷ xs) = All (λ y. x ≤ y) xs × IsSorted xs

All-insert : (a x : ℕ) (xs : List ℕ) → a ≤ x → All (λ y. a ≤ y) xs → All (λ y. a ≤ y) (insert x xs)
All-insert a x [] h k = (h, tt)
All-insert a x (y ∷ ys) h k = ground (arith, All-insert a x ys h k.1)

All-le : (a b : ℕ) (xs : List ℕ) → a ≤ b → All (λ y. b ≤ y) xs → All (λ y. a ≤ y) xs
All-le a b [] h k = tt
All-le a b (y ∷ ys) h k = (omega (arith, k.0), All-le a b ys h k.1)

insert-IsSorted : (x : ℕ) (xs : List ℕ) → IsSorted xs → IsSorted (insert x xs)
insert-IsSorted x [] h = (tt, tt)
insert-IsSorted x (y ∷ ys) h =
    ground (arith, All-insert y x ys, All-le x y ys, insert-IsSorted x ys)

sort-IsSorted : (xs : List ℕ) → IsSorted (sort xs)
sort-IsSorted [] = tt
sort-IsSorted (x ∷ xs) = insert-IsSorted x (sort xs) (sort-IsSorted xs)

count-insert : (p : ℕ → Bool) (x : ℕ) (xs : List ℕ) → count p (insert x xs) ≡ count p (x ∷ xs)
count-insert p x [] = refl
count-insert p x (y ∷ ys) = ground (arith, count-insert p x ys)

count-sort : (p : ℕ → Bool) (xs : List ℕ) → count p (sort xs) ≡ count p xs
count-sort p [] = refl
count-sort p (x ∷ xs) = ground (arith, count-insert p x (sort xs), count-sort p xs)

length-insert : (x : ℕ) (xs : List ℕ) → length (insert x xs) ≡ suc (length xs)
length-insert x [] = refl
length-insert x (y ∷ ys) = ground (arith, length-insert x ys)

length-sort : (xs : List ℕ) → length (sort xs) ≡ length xs
length-sort [] = refl
length-sort (x ∷ xs) = omega (arith, length-insert x (sort xs), length-sort xs)

nth-All : (a i : ℕ) (xs : List ℕ) → All (λ y. a ≤ y) xs → i < length xs → a ≤ nth i xs
nth-All a i [] h k = absurd (ground arith)
nth-All a zero (x ∷ xs) h k = h.0
nth-All a (suc i) (x ∷ xs) h k = nth-All a i xs h.1 (omega arith)

count-nth :
    (i : ℕ) (xs : List ℕ) → IsSorted xs → i < length xs → i < count (λ y. leb y (nth i xs)) xs
count-nth i [] h k = absurd (ground arith)
count-nth zero (x ∷ xs) h k = ground arith
count-nth (suc i) (x ∷ xs) h k =
    ground (arith, nth-All x i xs h.0 (omega arith), count-nth i xs h.1 (omega arith))

whole_share : (p : ℕ) → p ≤ 100 → p + (100 - p) ≡ 100
whole_share p h = omega arith

share-le : (p n : ℕ) → p ≤ 100 → p * n ≤ 100 * n
share-le p n h = omega (arith, add-mul p (100 - p) n, ap (λ k. k * n) (whole_share p h))

pct-covers :
    (p : ℕ) (s : List ℕ)
    → IsSorted s
    → p ≤ 100
    → p * length s ≤ 100 * count (λ y. leb y (pct s p)) s
unfolding pct
pct-covers p [] h b = omega arith
pct-covers p (x ∷ xs) h b = omega (
  arith,
  share-le p (suc (length xs)) b,
  count-nth (min (length (x ∷ xs) - 1) ((p * length (x ∷ xs) + 99) / 100 - 1)) (x ∷ xs) h
      (omega arith),
)

-- A percentile is a bound for its share: of the samples, at least p in a hundred are at or below
-- the p-th percentile, for p up to 100.
pub pct-covers_samples :
    (p : ℕ) (samples : List ℕ)
    → p ≤ 100
    → p * length samples ≤ 100 * count (λ y. leb y (pct (sort samples) p)) samples
pct-covers_samples p samples b = ground (
  arith,
  length-sort samples,
  count-sort (λ y. leb y (pct (sort samples) p)) samples,
  pct-covers p (sort samples) (sort-IsSorted samples) b,
  ap (λ n. p * n) (length-sort samples),
)
