-- ===== src/Pipeline/Accounts/Steps.antt =====
-- The account of each step: what leaves the counters as they were, a finished reply, and a send.
use sidestage_copilot.Prelude.{
  ◌+◌, ◌≡◌, refl, sym, ap, inl, inr, String, Option, none, some, List, [], ◌∷◌, ◌++◌, length-append,
  arith,
}
use mathlib.Core.Path.{subst}
use sidestage_copilot.Dict.{get}
use sidestage_copilot.Domain.{Verdict}
use sidestage_copilot.Guardrails.Chain.{GuardResult}
use sidestage_copilot.Pipeline.State.{
  Scene, Pipe, LedgerNote, ChatMessage, Composed, ReplyProposal, record_note, delivery_for,
  reply_sent, reply_blocked,
}
use sidestage_copilot.Pipeline.Intake.{IncomingMessage, IngestOptions, ingest, signalled, queued_up}
use sidestage_copilot.Pipeline.Finish.{Spans, addressed, note_of, finish}
use sidestage_copilot.Pipeline.Send.{send, deliver_and_commit, commit_send, handed, dismiss}
use sidestage_copilot.Pipeline.Send.Cases.{send-cases}
use sidestage_copilot.Pipeline.Evict.{evict}
use sidestage_copilot.Pipeline.Draft.{Attempt, give_up}
use sidestage_copilot.Pipeline.Accounts.{sent_notes, IsAccounted}

pub sent_notes-append :
    (ns : List LedgerNote) (n : LedgerNote)
    → sent_notes (ns ++ (n ∷ [])) ≡ sent_notes ns + sent_notes (n ∷ [])
sent_notes-append [] n = ground arith
sent_notes-append (m ∷ ns) n = ground (arith, sent_notes-append ns n)

-- The same counters and logs, and so the same account.
pub record IsSame (v w : Pipe) : Type 0 where
  pub counts :
      (v.counters.sent ≡ w.counters.sent)
      × (v.counters.delivered ≡ w.counters.delivered)
      × (v.counters.handed_off ≡ w.counters.handed_off)
      × (v.counters.auto_sent ≡ w.counters.auto_sent)
  pub out : v.outbox ≡ w.outbox
  pub noted : v.ledger ≡ w.ledger

pub IsSame-IsAccounted : (v w : Pipe) → IsSame v w → IsAccounted w → IsAccounted v
IsSame-IsAccounted v w s h = record {
  split = ground arith;
  taken = ground arith;
  automatic = ground arith;
  recorded = ground arith;
}

pub ingest-IsSame :
    (e : Scene) (resolved : String → Option String) (m : IncomingMessage) (o : IngestOptions)
    (w : Pipe)
    → IsSame (ingest e resolved m o w).1 w
unfolding ingest signalled queued_up
ingest-IsSame e resolved m o w = record {
  counts = ground arith;
  out = ground arith;
  noted = ground arith;
}

pub dismiss-IsSame : (id : String) (w : Pipe) → IsSame (dismiss id w).1 w
unfolding dismiss
dismiss-IsSame id w = record { counts = ground arith; out = ground arith; noted = ground arith }

pub evict-IsSame : (w : Pipe) → IsSame (evict w) w
unfolding evict
evict-IsSame w = record { counts = ground arith; out = ground arith; noted = ground arith }

pub give_up-IsSame : (a : Attempt) (msg : ChatMessage) (w : Pipe) → IsSame (give_up a msg w) w
unfolding give_up
give_up-IsSame a msg w = record { counts = (refl, refl, refl, refl); out = refl; noted = refl }

pub finish-IsAccounted :
    (e : Scene) (base : ReplyProposal) (r : Composed) (spans : Spans) (msg : ChatMessage) (w : Pipe)
    → IsAccounted w
    → IsAccounted (finish e base r spans msg w).1
unfolding finish record_note
finish-IsAccounted e base r spans msg w h = record {
  split = ground (
    arith,
    length-append w.outbox (addressed base msg r ∷ []),
    sent_notes-append w.ledger (note_of base msg r (delivery_for e)),
    sent_notes-append w.ledger
        (record (note_of base msg r (delivery_for e)) { kind = reply_blocked }),
  );
  taken = ground (
    arith,
    length-append w.outbox (addressed base msg r ∷ []),
    sent_notes-append w.ledger (note_of base msg r (delivery_for e)),
    sent_notes-append w.ledger
        (record (note_of base msg r (delivery_for e)) { kind = reply_blocked }),
  );
  automatic = ground (
    arith,
    length-append w.outbox (addressed base msg r ∷ []),
    sent_notes-append w.ledger (note_of base msg r (delivery_for e)),
    sent_notes-append w.ledger
        (record (note_of base msg r (delivery_for e)) { kind = reply_blocked }),
  );
  recorded = ground (
    arith,
    length-append w.outbox (addressed base msg r ∷ []),
    sent_notes-append w.ledger (note_of base msg r (delivery_for e)),
    sent_notes-append w.ledger
        (record (note_of base msg r (delivery_for e)) { kind = reply_blocked }),
  );
}

pub commit-IsAccounted :
    (e : Scene) (id t actor : String) (gs : List GuardResult) (v : Verdict) (p : ReplyProposal)
    (w : Pipe)
    → IsAccounted w
    → IsAccounted (deliver_and_commit e id t actor gs v p w).1
unfolding deliver_and_commit commit_send record_note
commit-IsAccounted e id t actor gs v p w h = record {
  split = ground (
    arith,
    length-append w.outbox (handed id p t ∷ []),
    sent_notes-append w.ledger (record {
      kind = reply_sent;
      actor = actor;
      proposal_id = id;
      text = t;
      delivery = delivery_for e;
    }),
  );
  taken = ground (
    arith,
    length-append w.outbox (handed id p t ∷ []),
    sent_notes-append w.ledger (record {
      kind = reply_sent;
      actor = actor;
      proposal_id = id;
      text = t;
      delivery = delivery_for e;
    }),
  );
  automatic = ground (
    arith,
    length-append w.outbox (handed id p t ∷ []),
    sent_notes-append w.ledger (record {
      kind = reply_sent;
      actor = actor;
      proposal_id = id;
      text = t;
      delivery = delivery_for e;
    }),
  );
  recorded = ground (
    arith,
    length-append w.outbox (handed id p t ∷ []),
    sent_notes-append w.ledger (record {
      kind = reply_sent;
      actor = actor;
      proposal_id = id;
      text = t;
      delivery = delivery_for e;
    }),
  );
}

pub found-IsAccounted :
    (e : Scene) (id : String) (text : Option String) (actor : String) (w : Pipe)
    (o : Option ReplyProposal)
    → get id w.proposals ≡ o
    → IsAccounted w
    → IsAccounted (send e id text actor w).1
unfolding send
found-IsAccounted e id text actor w none h a = subst IsAccounted (ground arith) a
found-IsAccounted e id text actor w (some p) h a = elim (send-cases e id text actor p w h) [
  | inl (g, s) ↦ subst IsAccounted (ap (λ x. x.1) (sym s)) a
  | inr (inl (g, n, b, s)) ↦ subst IsAccounted (ap (λ x. x.1) (sym s)) a
  | inr (inr (inl (g, n, b, s))) ↦ subst IsAccounted (ap (λ x. x.1) (sym s)) a
  | inr (inr (inr (inl (g, n, b, s)))) ↦
      subst (λ x. IsAccounted x.1) (sym s) (commit-IsAccounted e id _ actor _ _ p w a)
  | inr (inr (inr (inr (g, n, b, s)))) ↦
      subst (λ x. IsAccounted x.1) (sym s) (commit-IsAccounted e id _ actor _ _ p w a)
]

pub give_up-IsAccounted :
    (a : Attempt) (msg : ChatMessage) (w : Pipe) → IsAccounted w → IsAccounted (give_up a msg w)
give_up-IsAccounted a msg w h = IsSame-IsAccounted (give_up a msg w) w (give_up-IsSame a msg w) h
