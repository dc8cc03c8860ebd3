-- ===== src/Pipeline/Draft/Laws.antt =====
-- How drafting ends.
use sidestage_copilot.Prelude.{
  ℕ, suc, ◌≡◌, refl, ◌⊎◌, inl, inr, String, Bool-cases, true, false, Option, arith,
}
use sidestage_copilot.Pipeline.State.{Pipe, ChatMessage}
use sidestage_copilot.Pipeline.Draft.{
  Attempt, Ended, over, again, opened, give_up, previous_or_id, attempt, draft_from,
}

Ended-cases : (x : Ended) → ((w : Pipe) × (x ≡ over w)) ⊎ ((w : Pipe) × (x ≡ again w))
Ended-cases (over w) = inl (w, refl)
Ended-cases (again w) = inr (w, refl)

-- With no retry left: nothing once the show has stopped, else the end of the attempt, or, after a
-- rate limit, that the draft is given up.
pub draft_from-last :
    (tries : ℕ → Attempt) (n : ℕ) (msg : ChatMessage) (previous : Option String) (w : Pipe)
    → ((w.stopped ≡ true) × (draft_from tries 0 n msg previous w ≡ w))
      ⊎ ((v : Pipe) × (w.stopped ≡ false)
          × (attempt (tries n) msg previous w ≡ over v)
          × (draft_from tries 0 n msg previous w ≡ v))
      ⊎ ((v : Pipe) × (w.stopped ≡ false)
          × (attempt (tries n) msg previous w ≡ again v)
          × (draft_from tries 0 n msg previous w ≡ give_up (tries n) msg v))
unfolding draft_from
draft_from-last tries n msg previous w = elim (Bool-cases w.stopped) [
  | inl s ↦ inl (s, ground arith)
  | inr s ↦ elim (Ended-cases (attempt (tries n) msg previous w)) [
    | inl (v, e) ↦ inr (inl (v, s, e, ground arith))
    | inr (v, e) ↦ inr (inr (v, s, e, ground arith))
  ]
]

-- With a retry left, a rate limit leads to the next attempt.
pub draft_from-next :
    (tries : ℕ → Attempt) (k n : ℕ) (msg : ChatMessage) (previous : Option String) (w : Pipe)
    → ((w.stopped ≡ true) × (draft_from tries (suc k) n msg previous w ≡ w))
      ⊎ ((v : Pipe) × (w.stopped ≡ false)
          × (attempt (tries n) msg previous w ≡ over v)
          × (draft_from tries (suc k) n msg previous w ≡ v))
      ⊎ ((v : Pipe) × (w.stopped ≡ false)
          × (attempt (tries n) msg previous w ≡ again v)
          × (draft_from tries (suc k) n msg previous w
              ≡ draft_from tries k (suc n) msg (previous_or_id previous (opened (tries n) msg)) v))
unfolding draft_from
draft_from-next tries k n msg previous w = elim (Bool-cases w.stopped) [
  | inl s ↦ inl (s, ground arith)
  | inr s ↦ elim (Ended-cases (attempt (tries n) msg previous w)) [
    | inl (v, e) ↦ inr (inl (v, s, e, ground arith))
    | inr (v, e) ↦ inr (inr (v, s, e, ground arith))
  ]
]
