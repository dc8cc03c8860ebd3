-- ===== src/Pipeline/Draft/Settles.antt =====
-- A draft ends, and its card with it.
use sidestage_copilot.Prelude.{
  if◌then◌else◌, ℕ, zero, suc, ◌+◌, ◌<◌, refl, ap, ◌≡◌, ◌≢◌, sym, ◌∙◌, ◌⊎◌, inl, inr, String,
  str_refl, Bool, true, false, Option, none, some, arith,
}
use mathlib.Core.Path.{subst, fun_ext}
use sidestage_copilot.Dict.{Dict, get, put}
use sidestage_copilot.Dict.Laws.{get-put}
use sidestage_copilot.Latency.Cache.{CachedReply}
use sidestage_copilot.Autonomy.Ladder.{ReplyDisposition}
use sidestage_copilot.Pipeline.State.{
  Scene, Pipe, ChatMessage, Composed, ReplyProposal, drafting, record_note, accepts,
}
use sidestage_copilot.Pipeline.Finish.{
  Outcome, returned, not_found, refused, not_delivered, unrecorded, Spans, status_of,
  disposition_of, addressed, finished, finish,
}
use sidestage_copilot.Pipeline.Evict.{evict}
use sidestage_copilot.Pipeline.Evict.Laws.{evict-old}
use sidestage_copilot.Pipeline.Draft.{
  Attempt, ComposeOutcome, drafted, rate_limited, threw, Composing, made, limited, failed, Ended,
  over, again, previous_or_id, opened, keep_grounding, after_finish, give_up, guard_and_repair,
  conclude, on_composing, on_reached, on_lookup, attempt, draft_from, draft,
}
use sidestage_copilot.Pipeline.Draft.Laws.{draft_from-last, draft_from-next}

-- The card is gone, or it is no longer being drafted.
abbrev pub IsSettled : String → Pipe → Type 0
IsSettled id w =
    (get id w.proposals ≡ none)
    ⊎ ((p : ReplyProposal) × (get id w.proposals ≡ some p) × (p.status ≢ drafting))

status_of-settled : (d : ReplyDisposition) (b : Bool) → status_of d b ≢ drafting
status_of-settled d b h = ground arith

stored : (id : String) (p : ReplyProposal) (d : Dict ReplyProposal) → get id (put id p d) ≡ some p
stored id p d = ground (arith, get-put id id p d, str_refl id)

give_up-IsSettled :
    (a : Attempt) (msg : ChatMessage) (w : Pipe) → IsSettled (opened a msg).id (give_up a msg w)
unfolding give_up
give_up-IsSettled a msg w = inr (_, stored (opened a msg).id _ w.proposals, λ h. ground arith)

finish-IsSettled :
    (e : Scene) (base : ReplyProposal) (r : Composed) (spans : Spans) (msg : ChatMessage) (w : Pipe)
    → e.audit_up ≡ true
    → IsSettled base.id (finish e base r spans msg w).1
unfolding finish record_note
finish-IsSettled e base r spans msg w up = inr (
  finished e base msg r,
  ground (arith, stored base.id (finished e base msg r) w.proposals),
  status_of-settled (disposition_of e msg r) (accepts e (addressed base msg r)),
)

evict-IsSettled : (id : String) (w : Pipe) → IsSettled id w → IsSettled id (evict w)
evict-IsSettled id w (inl n) = ground (arith, evict-old id w)
evict-IsSettled id w (inr (p, g, s)) = elim (evict-old id w) [
  | inl n ↦ inl n
  | inr o ↦ inr (p, o ∙ g, s)
]

after_finish-IsSettled :
    (a : Attempt) (msg : ChatMessage) (s : Outcome × Pipe)
    → IsSettled (opened a msg).id s.1
    → IsSettled (opened a msg).id (after_finish a msg s)
after_finish-IsSettled a msg (returned p, w) h = evict-IsSettled (opened a msg).id w h
after_finish-IsSettled a msg (not_found, w) h = give_up-IsSettled a msg w
after_finish-IsSettled a msg (refused, w) h = give_up-IsSettled a msg w
after_finish-IsSettled a msg (not_delivered, w) h = give_up-IsSettled a msg w
after_finish-IsSettled a msg (unrecorded, w) h = give_up-IsSettled a msg w

-- The end of an attempt is settled, and one to be tried again runs on.
abbrev Progressed : Attempt → ChatMessage → Ended → Type 0
Progressed a msg (over w) = IsSettled (opened a msg).id w
Progressed a msg (again w) = w.stopped ≡ false

composing-Progressed :
    (a : Attempt) (msg : ChatMessage) (c : Composing) (w : Pipe)
    → a.finished_at.audit_up ≡ true
    → w.stopped ≡ false
    → Progressed a msg (on_composing a msg c w)
unfolding conclude
composing-Progressed a msg (made c) w up s =
    after_finish-IsSettled a msg _ (finish-IsSettled a.finished_at (opened a msg) c _ msg _ up)
composing-Progressed a msg limited w up s = s
composing-Progressed a msg failed w up s = give_up-IsSettled a msg w

reached-Progressed :
    (a : Attempt) (msg : ChatMessage) (r : ComposeOutcome) (w : Pipe)
    → a.finished_at.audit_up ≡ true
    → w.stopped ≡ false
    → Progressed a msg (on_reached a msg r w)
reached-Progressed a msg (drafted d) w up s =
    composing-Progressed a msg (guard_and_repair a msg d) (keep_grounding a msg w) up s
reached-Progressed a msg rate_limited w up s = s
reached-Progressed a msg threw w up s = give_up-IsSettled a msg w

lookup-Progressed :
    (a : Attempt) (msg : ChatMessage) (previous : Option String) (o : Option (CachedReply Composed))
    (w : Pipe)
    → a.finished_at.audit_up ≡ true
    → (a.meanwhile w).stopped ≡ false
    → Progressed a msg (on_lookup a msg previous o w)
lookup-Progressed a msg previous (some c) w up s =
    finish-IsSettled a.finished_at (opened a msg) c.answer _ msg w up
lookup-Progressed a msg previous none w up s =
    reached-Progressed a msg (a.compose previous) (a.meanwhile w) up s

-- What follows one attempt, with what the next ones come to.
abbrev follows : Attempt → (Option String → Pipe → Pipe) → ChatMessage → Option String → Pipe → Pipe
follows a next msg previous w = if w.stopped then w else elim (attempt a msg previous w) [
  | over w' ↦ w'
  | again w' ↦ next (previous_or_id previous (opened a msg)) w'
]

follows-zero :
    (tries : ℕ → Attempt) (n : ℕ) (msg : ChatMessage) (previous : Option String) (w : Pipe)
    → draft_from tries 0 n msg previous w
      ≡ follows (tries n) (λ q v. give_up (tries n) msg v) msg previous w
unfolding draft_from
follows-zero tries n msg previous w = refl

follows-suc :
    (tries : ℕ → Attempt) (k n : ℕ) (msg : ChatMessage) (previous : Option String) (w : Pipe)
    → draft_from tries (suc k) n msg previous w
      ≡ follows (tries n) (λ q v. draft_from tries k (suc n) msg q v) msg previous w
unfolding draft_from
follows-suc tries k n msg previous w = refl

-- Attempts that agree on all that can be reached come to the same end.
draft_from-same :
    (tries other : ℕ → Attempt) (msg : ChatMessage)
    → ((n : ℕ) → n < 4 → other n ≡ tries n)
    → (k n : ℕ) (previous : Option String) (w : Pipe) → k + n < 4
    → draft_from other k n msg previous w ≡ draft_from tries k n msg previous w
draft_from-same tries other msg same zero n previous w l =
    follows-zero other n msg previous w
    ∙ ap (λ a. follows a (λ q v. give_up a msg v) msg previous w) (same n (omega arith))
    ∙ sym (follows-zero tries n msg previous w)
draft_from-same tries other msg same (suc k) n previous w l =
    let rest =
      fun_ext
        (λ q. fun_ext (λ v. draft_from-same tries other msg same k (suc n) q v (omega arith))) in
    follows-suc other k n msg previous w
    ∙ ap (λ a. follows a (λ q v. draft_from other k (suc n) msg q v) msg previous w)
        (same n (omega arith))
    ∙ ap (λ f. follows (tries n) f msg previous w) rest
    ∙ sym (follows-suc tries k n msg previous w)

module _ (tries : ℕ → Attempt) (msg : ChatMessage)
    (running : (n : ℕ)
      → n < 4
      → (v : Pipe) → v.stopped ≡ false
      → ((tries n).meanwhile v).stopped ≡ false)
    (up : (n : ℕ) → n < 4 → (tries n).finished_at.audit_up ≡ true) where
  attempt-Progressed :
      (n : ℕ) (previous : Option String) (w : Pipe)
      → n < 4
      → w.stopped ≡ false
      → Progressed (tries n) msg (attempt (tries n) msg previous w)
  unfolding attempt
  attempt-Progressed n previous w l s =
      lookup-Progressed (tries n) msg previous _ _ (up n l) (running n l _ s)

  draft_from-IsSettled :
      (k n : ℕ) (previous : Option String) (w : Pipe)
      → k + n < 4
      → w.stopped ≡ false
      → IsSettled (opened (tries 0) msg).id (draft_from tries k n msg previous w)
  draft_from-IsSettled zero n previous w l s =
      let one : Progressed (tries n) msg (attempt (tries n) msg previous w) =
        attempt-Progressed n previous w (omega arith) s in
      elim (draft_from-last tries n msg previous w) [
        | inl (t, e) ↦ absurd (ground arith)
        | inr (inl (v, t, a, e)) ↦
            subst (IsSettled (opened (tries 0) msg).id) (sym e)
              (subst (Progressed (tries n) msg) a one)
        | inr (inr (v, t, a, e)) ↦
            subst (IsSettled (opened (tries 0) msg).id) (sym e) (give_up-IsSettled (tries n) msg v)
      ]
  draft_from-IsSettled (suc k) n previous w l s =
      let one : Progressed (tries n) msg (attempt (tries n) msg previous w) =
        attempt-Progressed n previous w (omega arith) s in
      elim (draft_from-next tries k n msg previous w) [
        | inl (t, e) ↦ absurd (ground arith)
        | inr (inl (v, t, a, e)) ↦
            subst (IsSettled (opened (tries 0) msg).id) (sym e)
              (subst (Progressed (tries n) msg) a one)
        | inr (inr (v, t, a, e)) ↦ subst (IsSettled (opened (tries 0) msg).id) (sym e) (
            draft_from-IsSettled k (suc n) _ v (omega arith)
              (subst (Progressed (tries n) msg) a one))
      ]

  -- While the show runs and the ledger is up during the first four attempts, drafting comes to an end
  -- whatever the composer does: the card that it opened is gone, or its status is no longer
  -- `drafting`. And nothing hangs on a fifth attempt: any attempts with the same first four give the
  -- same end.
  pub draft-IsSettled :
      (other : ℕ → Attempt)
      → ((n : ℕ) → n < 4 → other n ≡ tries n)
      → (previous : Option String) (w : Pipe) → w.stopped ≡ false
      → IsSettled (opened (tries 0) msg).id (draft tries msg previous w)
        × (draft other msg previous w ≡ draft tries msg previous w)
  unfolding draft
  draft-IsSettled other same previous w s = (
    draft_from-IsSettled 3 0 previous w (omega arith) s,
    draft_from-same tries other msg same 3 0 previous w (omega arith),
  )
