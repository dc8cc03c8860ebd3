-- ===== src/Pipeline/Accounts/Laws.antt =====
-- The counters hold what they say after every operation.
use sidestage_copilot.Prelude.{
  ℕ, suc, zero, refl, sym, ap, ◌∙◌, inl, inr, String, Option, none, some, arith,
}
use mathlib.Core.Path.{subst}
use sidestage_copilot.Dict.{get}
use sidestage_copilot.Latency.Cache.{CachedReply}
use sidestage_copilot.Pipeline.State.{Pipe, ChatMessage, Composed}
use sidestage_copilot.Pipeline.Intake.{ingest}
use sidestage_copilot.Pipeline.Finish.{
  Outcome, returned, not_found, refused, not_delivered, unrecorded,
}
use sidestage_copilot.Pipeline.Send.{dismiss}
use sidestage_copilot.Pipeline.Evict.{evict}
use sidestage_copilot.Pipeline.Draft.{
  Attempt, ComposeOutcome, rate_limited, threw, Composing, made, limited, failed, opened,
  keep_grounding, keep_reply, after_finish, guard_and_repair, on_composing, on_reached, on_lookup,
  conclude, Ended, attempt, over, again, draft_from, draft,
}
use sidestage_copilot.Pipeline.Draft.Laws.{draft_from-last, draft_from-next}
use sidestage_copilot.Pipeline.Accounts.{
  IsAccounted, Reached, fresh, ingested, drafted, sent, dismissed,
}
use sidestage_copilot.Pipeline.Accounts.Steps.{
  IsSame-IsAccounted, ingest-IsSame, dismiss-IsSame, evict-IsSame, finish-IsAccounted,
  found-IsAccounted, give_up-IsAccounted,
}

after_finish-IsAccounted :
    (a : Attempt) (msg : ChatMessage) (s : Outcome × Pipe)
    → IsAccounted s.1
    → IsAccounted (after_finish a msg s)
after_finish-IsAccounted a msg (returned p, w) h = IsSame-IsAccounted (evict w) w (evict-IsSame w) h
after_finish-IsAccounted a msg (not_found, w) h = give_up-IsAccounted a msg w h
after_finish-IsAccounted a msg (refused, w) h = give_up-IsAccounted a msg w h
after_finish-IsAccounted a msg (not_delivered, w) h = give_up-IsAccounted a msg w h
after_finish-IsAccounted a msg (unrecorded, w) h = give_up-IsAccounted a msg w h

keep_reply-IsAccounted :
    (a : Attempt) (msg : ChatMessage) (c : Composed) (w : Pipe)
    → IsAccounted w
    → IsAccounted (keep_reply a msg c w)
keep_reply-IsAccounted a msg c w h =
    IsSame-IsAccounted (keep_reply a msg c w) w
      (record { counts = ground arith; out = ground arith; noted = ground arith }) h

conclude-IsAccounted :
    (a : Attempt) (msg : ChatMessage) (c : Composed) (w : Pipe)
    → IsAccounted w
    → IsAccounted (conclude a msg c w)
unfolding conclude
conclude-IsAccounted a msg c w h =
    after_finish-IsAccounted a msg _ (
      finish-IsAccounted a.finished_at (opened a msg) c _ msg _
        (keep_reply-IsAccounted a msg c w h))

-- What an attempt leaves, whether it is over or to be tried again.
abbrev left : Ended → Pipe
left (over w) = w
left (again w) = w

on_composing-IsAccounted :
    (a : Attempt) (msg : ChatMessage) (c : Composing) (w : Pipe)
    → IsAccounted w
    → IsAccounted (left (on_composing a msg c w))
on_composing-IsAccounted a msg (made c) w h = conclude-IsAccounted a msg c w h
on_composing-IsAccounted a msg limited w h = h
on_composing-IsAccounted a msg failed w h = give_up-IsAccounted a msg w h

on_reached-IsAccounted :
    (a : Attempt) (msg : ChatMessage) (r : ComposeOutcome) (w : Pipe)
    → IsAccounted w
    → IsAccounted (left (on_reached a msg r w))
on_reached-IsAccounted a msg (ComposeOutcome.drafted d) w h =
    on_composing-IsAccounted a msg (guard_and_repair a msg d) (keep_grounding a msg w) (
      IsSame-IsAccounted (keep_grounding a msg w) w
        (record { counts = (refl, refl, refl, refl); out = refl; noted = refl }) h)
on_reached-IsAccounted a msg rate_limited w h = h
on_reached-IsAccounted a msg threw w h = give_up-IsAccounted a msg w h

on_lookup-IsAccounted :
    (a : Attempt) (msg : ChatMessage) (previous : Option String) (o : Option (CachedReply Composed))
    (w : Pipe)
    → ((v : Pipe) → IsAccounted v → IsAccounted (a.meanwhile v))
    → IsAccounted w
    → IsAccounted (left (on_lookup a msg previous o w))
on_lookup-IsAccounted a msg previous (some c) w ok h =
    finish-IsAccounted a.finished_at (opened a msg) c.answer _ msg w h
on_lookup-IsAccounted a msg previous none w ok h =
    on_reached-IsAccounted a msg (a.compose previous) (a.meanwhile w) (ok w h)

attempt-IsAccounted :
    (a : Attempt) (msg : ChatMessage) (previous : Option String) (w : Pipe)
    → ((v : Pipe) → IsAccounted v → IsAccounted (a.meanwhile v))
    → IsAccounted w
    → IsAccounted (left (attempt a msg previous w))
unfolding attempt
attempt-IsAccounted a msg previous w ok h = on_lookup-IsAccounted a msg previous _ _ ok (
    IsSame-IsAccounted _ w (record { counts = (refl, refl, refl, refl); out = refl; noted = refl })
      h)

draft_from-IsAccounted :
    (tries : ℕ → Attempt) (k n : ℕ) (msg : ChatMessage) (previous : Option String) (w : Pipe)
    → ((n : ℕ) (v : Pipe) → IsAccounted v → IsAccounted ((tries n).meanwhile v))
    → IsAccounted w
    → IsAccounted (draft_from tries k n msg previous w)
unfolding draft_from
draft_from-IsAccounted tries zero n msg previous w ok h =
    let one : IsAccounted (left (attempt (tries n) msg previous w)) =
      attempt-IsAccounted (tries n) msg previous w (ok n) h in
    elim (draft_from-last tries n msg previous w) [
      | inl (s, e) ↦ subst IsAccounted (sym e) h
      | inr (inl (v, s, a, e)) ↦ subst IsAccounted (ap left a ∙ sym e) one
      | inr (inr (v, s, a, e)) ↦
          subst IsAccounted (sym e)
            (give_up-IsAccounted (tries n) msg v (subst IsAccounted (ap left a) one))
    ]
draft_from-IsAccounted tries (suc k) n msg previous w ok h =
    let one : IsAccounted (left (attempt (tries n) msg previous w)) =
      attempt-IsAccounted (tries n) msg previous w (ok n) h in
    elim (draft_from-next tries k n msg previous w) [
      | inl (s, e) ↦ subst IsAccounted (sym e) h
      | inr (inl (v, s, a, e)) ↦ subst IsAccounted (ap left a ∙ sym e) one
      | inr (inr (v, s, a, e)) ↦
          subst IsAccounted (sym e)
            (draft_from-IsAccounted tries k (suc n) msg _ v ok (subst IsAccounted (ap left a) one))
    ]

-- Whatever is asked of the pipeline, in whatever order, every reply that it counts as sent was
-- either delivered or handed over, the deliverer holds exactly as many replies as are counted as
-- delivered, and the ledger has no entry of a send that is not counted.
pub Reached-IsAccounted : (w : Pipe) → Reached w → IsAccounted w
unfolding draft
Reached-IsAccounted _ (fresh {w} f) = record {
  split = ground arith;
  taken = ground arith;
  automatic = ground arith;
  recorded = ground arith;
}
Reached-IsAccounted _ (ingested {w} e resolved m o r) =
    IsSame-IsAccounted (ingest e resolved m o w).1 w (ingest-IsSame e resolved m o w)
      (Reached-IsAccounted w r)
Reached-IsAccounted _ (drafted {w} tries m previous ok r) =
    draft_from-IsAccounted tries 3 0 m previous w ok (Reached-IsAccounted w r)
Reached-IsAccounted _ (sent {w} e id text actor r) =
    found-IsAccounted e id text actor w (get id w.proposals) refl (Reached-IsAccounted w r)
Reached-IsAccounted _ (dismissed {w} id r) =
    IsSame-IsAccounted (dismiss id w).1 w (dismiss-IsSame id w) (Reached-IsAccounted w r)
