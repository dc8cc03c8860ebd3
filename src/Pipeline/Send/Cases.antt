-- ===== src/Pipeline/Send/Cases.antt =====
-- What a send comes to, case by case.
use sidestage_copilot.Prelude.{
  List, str_refl, ◌≡◌, ◌≢◌, sym, ap, ◌∙◌, ◌⊎◌, inl, inr, String, true, false, ◌++◌, [], ◌∷◌, Option,
  some, arith,
}
use sidestage_copilot.Dict.{get}
use sidestage_copilot.Dict.Laws.{get-put}
use sidestage_copilot.Domain.{Verdict, block, api, human}
use sidestage_copilot.Guardrails.Guards.Laws.{IsClean, guards-IsClean}
use sidestage_copilot.Guardrails.Chain.{GuardResult}
use sidestage_copilot.Pipeline.State.{
  Scene, Pipe, ReplyProposal, Grounding, sent, delivery_for, record_note,
}
use sidestage_copilot.Pipeline.Finish.{Outcome, returned, refused}
use sidestage_copilot.Pipeline.Send.{
  is_gone, text_to_send, is_edited, was_blocked, edit_input, edit_chain, handed, sent_proposal,
  commit_send, deliver_and_commit, send_found, send,
}

pub send-found :
    (e : Scene) (id : String) (text : Option String) (actor : String) (p : ReplyProposal) (w : Pipe)
    → get id w.proposals ≡ some p
    → send e id text actor w ≡ send_found e id text actor p w
unfolding send
send-found e id text actor p w h = ground arith

-- What stands in the way of a send, or lets it through: a reply that has gone is handed back as it
-- is, a blocked one is refused as it stands, and an edit that the chain blocks is refused. In none
-- of these does anything change.
pub send-cases :
    (e : Scene) (id : String) (text : Option String) (actor : String) (p : ReplyProposal) (w : Pipe)
    → get id w.proposals ≡ some p
    → ((is_gone p.status ≡ true) × (send e id text actor w ≡ (returned p, w)))
      ⊎ ((is_gone p.status ≡ false)
          × (is_edited e text p ≡ false)
          × (was_blocked p ≡ true)
          × (send e id text actor w ≡ (refused, w)))
      ⊎ ((is_gone p.status ≡ false)
          × (is_edited e text p ≡ true)
          × ((edit_chain e (text_to_send e text p) p (get id w.grounding)).verdict ≡ block)
          × (send e id text actor w ≡ (refused, w)))
      ⊎ ((is_gone p.status ≡ false)
          × (is_edited e text p ≡ false)
          × (was_blocked p ≡ false)
          × (send e id text actor w
              ≡ deliver_and_commit e id (text_to_send e text p) actor p.guards p.verdict p w))
      ⊎ ((is_gone p.status ≡ false)
          × (is_edited e text p ≡ true)
          × ((edit_chain e (text_to_send e text p) p (get id w.grounding)).verdict ≢ block)
          × (send e id text actor w
              ≡ deliver_and_commit e id
                  (text_to_send e text p)
                  actor
                  (edit_chain e (text_to_send e text p) p (get id w.grounding)).guards
                  (edit_chain e (text_to_send e text p) p (get id w.grounding)).verdict
                  p
                  w))
unfolding send_found
send-cases e id text actor p w h = ground (arith, send-found e id text actor p w h)

pub edit_chain-IsClean :
    (e : Scene) (text : String) (p : ReplyProposal) (g : Option Grounding)
    → (edit_chain e text p g).verdict ≢ block
    → IsClean (edit_input e text p g)
unfolding edit_chain
edit_chain-IsClean e text p g h = (guards-IsClean (edit_input e text p g) 0 _ h).0

pub delivered-returned :
    (e : Scene) (id t actor : String) (gs : List GuardResult) (v : Verdict) (p q : ReplyProposal)
    (w : Pipe)
    → (deliver_and_commit e id t actor gs v p w).0 ≡ returned q
    → (q ≡ sent_proposal e t gs v p)
      × (get id (deliver_and_commit e id t actor gs v p w).1.proposals ≡ some q)
      × (((delivery_for e ≡ api)
            × ((deliver_and_commit e id t actor gs v p w).1.outbox
                ≡ w.outbox ++ (handed id p t ∷ [])))
          ⊎ ((delivery_for e ≡ human)
              × ((deliver_and_commit e id t actor gs v p w).1.outbox ≡ w.outbox)))
unfolding deliver_and_commit commit_send record_note
delivered-returned e id t actor gs v p q w h =
    ground (arith, get-put id id (sent_proposal e t gs v p) w.proposals, str_refl id)

-- What a result tells that is the commit of a send.
pub record IsCommitted (e : Scene) (id t : String) (p q : ReplyProposal) (w : Pipe)
    (s : Outcome × Pipe) : Type 0 where
  pub status : q.status ≡ sent
  pub text : q.sent_text ≡ some t
  pub stored : get id s.1.proposals ≡ some q
  pub delivered :
      ((delivery_for e ≡ api) × (s.1.outbox ≡ w.outbox ++ (handed id p t ∷ [])))
      ⊎ ((delivery_for e ≡ human) × (s.1.outbox ≡ w.outbox))

pub commit-IsCommitted :
    (e : Scene) (id t actor : String) (gs : List GuardResult) (v : Verdict) (p q : ReplyProposal)
    (w : Pipe) (s : Outcome × Pipe)
    → s ≡ deliver_and_commit e id t actor gs v p w
    → s.0 ≡ returned q
    → IsCommitted e id t p q w s
commit-IsCommitted e id t actor gs v p q w s h r =
    let (same, there, out) =
      delivered-returned e id t actor gs v p q w (ap (λ x. x.0) (sym h) ∙ r) in
    record {
      status = ap (λ x. x.status) same;
      text = ap (λ x. x.sent_text) same;
      stored = ap (λ x. get id x.1.proposals) h ∙ there;
      delivered = elim out [
        | inl (d, o) ↦ inl (d, ap (λ x. x.1.outbox) h ∙ o)
        | inr (d, o) ↦ inr (d, ap (λ x. x.1.outbox) h ∙ o)
      ];
    }
