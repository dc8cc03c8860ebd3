-- ===== src/Ingest/Thread/Laws.antt =====
-- The branch above a message ends, is short, and does not hold the message.
use sidestage_copilot.Prelude.{
  ℕ, zero, suc, ◌≤◌, ◌<◌, ◌≡◌, ◌≢◌, refl, sym, ap, ◌∙◌, String, str_eq, str_iff, Bool-cases, inl,
  inr, Option, none, some, List, [], ◌∷◌, length, All, any, ltb, Option-cases, arith,
}
use mathlib.Core.Path.{subst}
use sidestage_copilot.Ingest.Thread.{
  ThreadMessage, max_ancestors, parent_of, by_id, unseen, climb, backwards, last_of, capped, before,
  with_leaf, branch_above, has_parent,
}

unseen-le : (id : String) (ms : List ThreadMessage) → length (unseen id ms) ≤ length ms
unfolding unseen
unseen-le id [] = omega arith
unseen-le id (m ∷ ms) = ground (arith, unseen-le id ms)

by_id-unseen :
    (id : String) (m : ThreadMessage) (ms : List ThreadMessage)
    → by_id id ms ≡ some m
    → (m.id ≡ id) × (length (unseen id ms) < length ms)
unfolding unseen
by_id-unseen id m [] h = absurd (ground arith)
by_id-unseen id m (n ∷ ms) h = elim (Option-cases (by_id id ms)) [
  | inl e ↦ ground (arith, unseen-le id ms, str_iff n.id id)
  | inr (x, e) ↦ ground (arith, by_id-unseen id m ms)
]

climb-none :
    (n : ℕ) (pool : List ThreadMessage) (id : String)
    → by_id id pool ≡ none
    → climb n pool (some id) ≡ []
unfolding climb
climb-none zero pool id h = refl
climb-none (suc n) pool id h = ground arith

climb-some :
    (n : ℕ) (pool : List ThreadMessage) (id : String) (m : ThreadMessage)
    → by_id id pool ≡ some m
    → climb (suc n) pool (some id) ≡ m ∷ climb n (unseen id pool) (parent_of m)
unfolding climb
climb-some n pool id m h = ground arith

climb_nowhere : (n : ℕ) (pool : List ThreadMessage) → climb n pool none ≡ []
unfolding climb
climb_nowhere zero pool = refl
climb_nowhere (suc n) pool = refl

-- As much fuel as there are messages left is enough: with any two such amounts the branch is the same.
pub climb-enough :
    (n k : ℕ) (pool : List ThreadMessage) (cur : Option String)
    → length pool ≤ n
    → length pool ≤ k
    → climb n pool cur ≡ climb k pool cur
climb-enough n k pool none h l = climb_nowhere n pool ∙ sym (climb_nowhere k pool)
climb-enough zero k pool (some id) h l = elim (Option-cases (by_id id pool)) [
  | inl e ↦ climb-none zero pool id e ∙ sym (climb-none k pool id e)
  | inr (m, e) ↦ absurd (ground (arith, by_id-unseen id m pool e))
]
climb-enough (suc n) zero pool (some id) h l = elim (Option-cases (by_id id pool)) [
  | inl e ↦ climb-none (suc n) pool id e ∙ sym (climb-none zero pool id e)
  | inr (m, e) ↦ absurd (ground (arith, by_id-unseen id m pool e))
]
climb-enough (suc n) (suc k) pool (some id) h l = elim (Option-cases (by_id id pool)) [
  | inl e ↦ climb-none (suc n) pool id e ∙ sym (climb-none (suc k) pool id e)
  | inr (m, e) ↦
      climb-some n pool id m e
      ∙ ap (λ c. m ∷ c)
          (climb-enough n k (unseen id pool) (parent_of m)
            (ground (arith, by_id-unseen id m pool e)) (ground (arith, by_id-unseen id m pool e)))
      ∙ sym (climb-some k pool id m e)
]

-- No message of the branch has this id.
abbrev pub Lacks : String → List ThreadMessage → Type 0
Lacks id ms = All (λ m. m.id ≢ id) ms

unseen-Lacks : (id : String) (ms : List ThreadMessage) → Lacks id (unseen id ms)
unfolding unseen
unseen-Lacks id [] = tt
unseen-Lacks id (m ∷ ms) = elim (Bool-cases (str_eq m.id id)) [
  | inl e ↦ rw e (unseen-Lacks id ms)
  | inr e ↦ rw e ((λ h. ground (arith, str_iff m.id id)), unseen-Lacks id ms)
]

unseen-other :
    (id other : String) (ms : List ThreadMessage) → Lacks id ms → Lacks id (unseen other ms)
unfolding unseen
unseen-other id other [] h = tt
unseen-other id other (m ∷ ms) h = elim (Bool-cases (str_eq m.id other)) [
  | inl e ↦ rw e (unseen-other id other ms h.1)
  | inr e ↦ rw e (h.0, unseen-other id other ms h.1)
]

by_id-Lacks :
    (id other : String) (m : ThreadMessage) (ms : List ThreadMessage)
    → Lacks id ms
    → by_id other ms ≡ some m
    → m.id ≢ id
by_id-Lacks id other m [] h e = absurd (ground arith)
by_id-Lacks id other m (n ∷ ms) h e = elim (Option-cases (by_id other ms)) [
  | inl x ↦ λ q. h.0 (ground arith)
  | inr (x, y) ↦ by_id-Lacks id other m ms h.1 (ground arith)
]

climb-Lacks :
    (id : String) (n : ℕ) (pool : List ThreadMessage) (cur : Option String)
    → Lacks id pool
    → Lacks id (climb n pool cur)
unfolding climb
climb-Lacks id zero pool cur h = tt
climb-Lacks id (suc n) pool none h = tt
climb-Lacks id (suc n) pool (some at) h = elim (Option-cases (by_id at pool)) [
  | inl e ↦ subst (Lacks id) (sym (climb-none (suc n) pool at e)) tt
  | inr (m, e) ↦ subst (Lacks id) (sym (climb-some n pool at m e)) (
    by_id-Lacks id at m pool h e,
    climb-Lacks id n (unseen at pool) (parent_of m) (unseen-other id at pool h),
  )
]

backwards-Lacks :
    (id : String) (ms acc : List ThreadMessage)
    → Lacks id ms
    → Lacks id acc
    → Lacks id (backwards ms acc)
backwards-Lacks id [] acc h k = k
backwards-Lacks id (m ∷ ms) acc h k = backwards-Lacks id ms (m ∷ acc) h.1 (h.0, k)

last_of-Lacks :
    (id : String) (n : ℕ) (ms : List ThreadMessage) → Lacks id ms → Lacks id (last_of n ms)
last_of-Lacks id n [] h = tt
last_of-Lacks id n (m ∷ ms) h = elim (Bool-cases (ltb n (length (m ∷ ms)))) [
  | inl e ↦ rw e (last_of-Lacks id n ms h.1)
  | inr e ↦ rw e h
]

last_of-le : (n : ℕ) (ms : List ThreadMessage) → length (last_of n ms) ≤ n
last_of-le n [] = omega arith
last_of-le n (m ∷ ms) = ground (arith, last_of-le n ms)

capped-Lacks : (id : String) (ms : List ThreadMessage) → Lacks id ms → Lacks id (capped ms)
unfolding capped
capped-Lacks id [] h = tt
capped-Lacks id (m ∷ ms) h = elim (Bool-cases (ltb max_ancestors (length (m ∷ ms)))) [
  | inl e ↦ rw e (h.0, last_of-Lacks id 7 (m ∷ ms) h)
  | inr e ↦ rw e h
]

capped-le : (ms : List ThreadMessage) → length (capped ms) ≤ max_ancestors
unfolding capped
capped-le [] = omega arith
capped-le (m ∷ ms) = ground (arith, last_of-le 7 (m ∷ ms))

before-Lacks : (id : String) (ms : List ThreadMessage) → Lacks id (before id ms)
before-Lacks id [] = tt
before-Lacks id (m ∷ ms) = elim (Bool-cases (str_eq m.id id)) [
  | inl e ↦ rw e tt
  | inr e ↦ rw e ((λ h. ground (arith, str_iff m.id id)), before-Lacks id ms)
]

with_leaf-IsShort :
    (ms : List ThreadMessage) (leaf : String) (o : Option ThreadMessage)
    → (length (with_leaf ms leaf o) ≤ max_ancestors) × Lacks leaf (with_leaf ms leaf o)
with_leaf-IsShort ms leaf none = (omega arith, tt)
with_leaf-IsShort ms leaf (some m) = elim (Bool-cases (any has_parent ms)) [
  | inl e ↦ rw e (
    capped-le (backwards (climb (length ms) (unseen leaf ms) (parent_of m)) []),
    capped-Lacks leaf (backwards (climb (length ms) (unseen leaf ms) (parent_of m)) []) (
        backwards-Lacks leaf (climb (length ms) (unseen leaf ms) (parent_of m)) []
          (climb-Lacks leaf (length ms) (unseen leaf ms) (parent_of m) (unseen-Lacks leaf ms)) tt),
  )
  | inr e ↦ rw e (
    last_of-le max_ancestors (before leaf ms),
    last_of-Lacks leaf max_ancestors (before leaf ms) (before-Lacks leaf ms),
  )
]

-- Whatever the platform says of parents, cycles included, the branch above a message has at most
-- eight messages, of which none is the message itself.
pub branch_above-IsShort :
    (ms : List ThreadMessage) (leaf : String)
    → (length (branch_above ms leaf) ≤ max_ancestors) × Lacks leaf (branch_above ms leaf)
unfolding branch_above
branch_above-IsShort ms leaf = with_leaf-IsShort ms leaf (by_id leaf ms)
