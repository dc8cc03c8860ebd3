-- ===== src/Pipeline/Finish/Laws.antt =====
-- When a reply leaves on its own.
use sidestage_copilot.Prelude.{
  ◌≡◌, ◌≢◌, ◌↔◌, ◌⊎◌, inl, inr, Bool, true, false, ◌++◌, [], ◌∷◌, arith,
}
use sidestage_copilot.Autonomy.Ladder.{ReplyDisposition, auto_send}
use sidestage_copilot.Autonomy.Ladder.Laws.{MaySend, decide_reply-auto_send_iff}
use sidestage_copilot.Pipeline.State.{
  Scene, Pipe, ChatMessage, Composed, ReplyProposal, ProposalStatus, auto_sent, accepts,
  record_note,
}
use sidestage_copilot.Pipeline.Finish.{
  returned, unrecorded, Spans, decision_input, disposition_of, addressed, status_of, status_in,
  finished, finish,
}

status_of-auto_sent_iff :
    (d : ReplyDisposition) (accepted : Bool)
    → (status_of d accepted ≡ auto_sent) ↔ ((d ≡ auto_send) × (accepted ≡ true))
status_of-auto_sent_iff d accepted = ground arith

status-cases : (s : ProposalStatus) → (s ≡ auto_sent) ⊎ (s ≢ auto_sent)
status-cases s = ground arith

-- The status says that a reply was sent automatically exactly when the ladder lets it be sent, at
-- L3 or above with every guard content, and the wired deliverer took it.
pub status_in-auto_sent_iff :
    (e : Scene) (base : ReplyProposal) (msg : ChatMessage) (r : Composed)
    → (status_in e base msg r ≡ auto_sent)
      ↔ (MaySend (decision_input e msg r) × (accepts e (addressed base msg r) ≡ true))
status_in-auto_sent_iff e base msg r =
    let to = status_of-auto_sent_iff (disposition_of e msg r) (accepts e (addressed base msg r)) in
    let may = decide_reply-auto_send_iff (decision_input e msg r) in
    (λ h. (may.0 (to.0 h).0, (to.0 h).1), λ h. to.1 (may.1 h.0, h.1))

-- Of finishing a reply: the deliverer is left with it exactly when the ladder lets it be sent and
-- the deliverer takes it, and with nothing else otherwise; and a required entry that the ledger does
-- not take is an error, not a sent reply.
pub finish-outbox :
    (e : Scene) (base : ReplyProposal) (r : Composed) (spans : Spans) (msg : ChatMessage) (w : Pipe)
    → (MaySend (decision_input e msg r)
        × (accepts e (addressed base msg r) ≡ true)
        × ((finish e base r spans msg w).1.outbox ≡ w.outbox ++ (addressed base msg r ∷ []))
        × (((finish e base r spans msg w).0 ≡ returned (finished e base msg r))
            ⊎ ((e.audit_up ≡ false) × ((finish e base r spans msg w).0 ≡ unrecorded))))
      ⊎ ((status_in e base msg r ≢ auto_sent)
          × ((finish e base r spans msg w).1.outbox ≡ w.outbox)
          × ((finish e base r spans msg w).0 ≡ returned (finished e base msg r)))
unfolding finish record_note
finish-outbox e base r spans msg w = elim (status-cases (status_in e base msg r)) [
  | inl s ↦
      let (may, took) = (status_in-auto_sent_iff e base msg r).0 s in
      inl (may, took, ground arith, ground arith)
  | inr s ↦ inr (s, ground arith, ground arith)
]
