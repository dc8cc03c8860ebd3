-- ===== src/Pipeline/Send/Laws.antt =====
-- What the operator's command to send may put in front of a buyer.
use sidestage_copilot.Prelude.{
  List, ◌≡◌, refl, sym, ap, ◌⊎◌, inl, inr, String, Bool-cases, true, false, not, ◌&&◌, ◌++◌, [],
  ◌∷◌, Option, none, some, arith,
}
use mathlib.Core.Path.{subst}
use sidestage_copilot.Dict.{get}
use sidestage_copilot.Domain.{Verdict, api, human}
use sidestage_copilot.Guardrails.Guards.Laws.{IsClean}
use sidestage_copilot.Guardrails.Chain.{GuardResult}
use sidestage_copilot.Pipeline.State.{
  Scene, Pipe, ReplyProposal, sent, accepts, delivery_for, record_note,
}
use sidestage_copilot.Pipeline.Finish.{Outcome, returned, unrecorded}
use sidestage_copilot.Pipeline.Send.{
  is_api, is_gone, text_to_send, is_edited, was_blocked, edit_input, handed, sent_proposal,
  commit_send, deliver_and_commit, send,
}
use sidestage_copilot.Pipeline.Send.Cases.{send-cases, edit_chain-IsClean, commit-IsCommitted}

-- A reply that send returns, and that had not gone before, is marked as sent with the trimmed text,
-- and that text was checked: it is the draft, which no guard blocked, or an edit that is clean by
-- the guards that protect the buyer, over the listings at that moment. It was handed to the deliverer
-- exactly where there is one for the surface.
pub send-IsChecked :
    (e : Scene) (id : String) (text : Option String) (actor : String) (p q : ReplyProposal)
    (w : Pipe)
    → get id w.proposals ≡ some p
    → is_gone p.status ≡ false
    → (send e id text actor w).0 ≡ returned q
    → (q.status ≡ sent)
      × (q.sent_text ≡ some (text_to_send e text p))
      × (((is_edited e text p ≡ false) × (was_blocked p ≡ false))
          ⊎ ((is_edited e text p ≡ true)
              × IsClean (edit_input e (text_to_send e text p) p (get id w.grounding))))
      × (((delivery_for e ≡ api)
            × ((send e id text actor w).1.outbox
                ≡ w.outbox ++ (handed id p (text_to_send e text p) ∷ [])))
          ⊎ ((delivery_for e ≡ human) × ((send e id text actor w).1.outbox ≡ w.outbox)))
send-IsChecked e id text actor p q w h new r = elim (send-cases e id text actor p w h) [
  | inl (g, s) ↦ absurd (ground arith)
  | inr (inl (g, n, b, s)) ↦ absurd (ground arith)
  | inr (inr (inl (g, n, b, s))) ↦ absurd (ground arith)
  | inr (inr (inr (inl (g, n, b, s)))) ↦
      let c =
        commit-IsCommitted e id _ actor p.guards p.verdict p q w (send e id text actor w) s r in
      (c.status, c.text, inl (n, b), c.delivered)
  | inr (inr (inr (inr (g, n, b, s)))) ↦
      let c = commit-IsCommitted e id _ actor _ _ p q w (send e id text actor w) s r in
      (c.status, c.text, inr (n, edit_chain-IsClean e _ p (get id w.grounding) b), c.delivered)
]

send-gone :
    (e : Scene) (id : String) (text : Option String) (actor : String) (p : ReplyProposal) (w : Pipe)
    → get id w.proposals ≡ some p
    → is_gone p.status ≡ true
    → send e id text actor w ≡ (returned p, w)
send-gone e id text actor p w h g = ground (arith, send-cases e id text actor p w h)

-- The ways in which a result is left by a send.
abbrev Fails : Scene → Pipe → Outcome × Pipe → Type 0
Fails e w s =
    ((q : ReplyProposal) × (s.0 ≡ returned q))
    ⊎ (s.1 ≡ w)
    ⊎ ((s.0 ≡ unrecorded) × (e.audit_up ≡ false))

deliver_and_commit-failed :
    (e : Scene) (id t actor : String) (gs : List GuardResult) (v : Verdict) (p : ReplyProposal)
    (w : Pipe)
    → Fails e w (deliver_and_commit e id t actor gs v p w)
unfolding deliver_and_commit commit_send record_note
deliver_and_commit-failed e id t actor gs v p w =
    elim (Bool-cases (is_api (delivery_for e) && not (accepts e (handed id p t)))) [
      | inl b ↦ inr (inl (ground arith))
      | inr b ↦ elim (Bool-cases e.audit_up) [
        | inl a ↦ inl (sent_proposal e t gs v p, ground arith)
        | inr a ↦ inr (inr (ground arith))
      ]
    ]

found-failed :
    (e : Scene) (id : String) (text : Option String) (actor : String) (w : Pipe)
    (o : Option ReplyProposal)
    → get id w.proposals ≡ o
    → Fails e w (send e id text actor w)
unfolding send
found-failed e id text actor w none h = inr (inl (ground arith))
found-failed e id text actor w (some p) h = elim (send-cases e id text actor p w h) [
  | inl (g, s) ↦ inr (inl (ap (λ x. x.1) s))
  | inr (inl (g, n, b, s)) ↦ inr (inl (ap (λ x. x.1) s))
  | inr (inr (inl (g, n, b, s))) ↦ inr (inl (ap (λ x. x.1) s))
  | inr (inr (inr (inl (g, n, b, s)))) ↦
      subst (Fails e w) (sym s) (deliver_and_commit-failed e id _ actor _ _ p w)
  | inr (inr (inr (inr (g, n, b, s)))) ↦
      subst (Fails e w) (sym s) (deliver_and_commit-failed e id _ actor _ _ p w)
]

-- A send that does not return a reply leaves everything as it was, except where the ledger was down.
pub send-failed :
    (e : Scene) (id : String) (text : Option String) (actor : String) (w : Pipe)
    → ((q : ReplyProposal) × ((send e id text actor w).0 ≡ returned q))
      ⊎ ((send e id text actor w).1 ≡ w)
      ⊎ (((send e id text actor w).0 ≡ unrecorded) × (e.audit_up ≡ false))
send-failed e id text actor w = found-failed e id text actor w (get id w.proposals) refl

gone-stored :
    (id : String) (p q : ReplyProposal) (w : Pipe) (s : Outcome × Pipe)
    → s ≡ (returned p, w)
    → s.0 ≡ returned q
    → get id w.proposals ≡ some p
    → is_gone p.status ≡ true
    → (get id s.1.proposals ≡ some q) × (is_gone q.status ≡ true)
gone-stored id p q w (o, v) e r h g = ground arith

send-stored :
    (e : Scene) (id : String) (text : Option String) (actor : String) (p q : ReplyProposal)
    (w : Pipe)
    → get id w.proposals ≡ some p
    → (send e id text actor w).0 ≡ returned q
    → (get id (send e id text actor w).1.proposals ≡ some q) × (is_gone q.status ≡ true)
send-stored e id text actor p q w h r = elim (send-cases e id text actor p w h) [
  | inl (g, s) ↦ gone-stored id p q w (send e id text actor w) s r h g
  | inr (inl (g, n, b, s)) ↦ absurd (ground arith)
  | inr (inr (inl (g, n, b, s))) ↦ absurd (ground arith)
  | inr (inr (inr (inl (g, n, b, s)))) ↦
      let c =
        commit-IsCommitted e id _ actor p.guards p.verdict p q w (send e id text actor w) s r in
      (c.stored, ap (is_gone) c.status)
  | inr (inr (inr (inr (g, n, b, s)))) ↦
      let c = commit-IsCommitted e id _ actor _ _ p q w (send e id text actor w) s r in
      (c.stored, ap (is_gone) c.status)
]

-- A second send of a reply that was sent, with whatever text and by whomever, hands back what was
-- sent and changes nothing.
pub send-twice :
    (e f : Scene) (id : String) (text other : Option String) (actor second : String)
    (p q : ReplyProposal) (w : Pipe)
    → get id w.proposals ≡ some p
    → (send e id text actor w).0 ≡ returned q
    → send f id other second (send e id text actor w).1 ≡ (returned q, (send e id text actor w).1)
send-twice e f id text other actor second p q w h r =
    let (there, gone) = send-stored e id text actor p q w h r in
    send-gone f id other second q (send e id text actor w).1 there gone
