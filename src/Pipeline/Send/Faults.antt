-- ===== src/Pipeline/Send/Faults.antt =====
-- Two ways in which the ledger and the replies come apart.
use sidestage_copilot.Prelude.{
  ◌≡◌, ◌≢◌, ◌⊎◌, refl, ap, ◌∙◌, String, str_refl, true, false, Option, none, some, [], ◌∷◌, ◌++◌,
  arith,
}
use sidestage_copilot.Dict.{get}
use sidestage_copilot.Dict.Laws.{get-put}
use sidestage_copilot.Domain.{api}
use sidestage_copilot.Pipeline.State.{
  Scene, Pipe, ReplyProposal, dismissed, delivery_for, accepts, record_note,
}
use sidestage_copilot.Pipeline.Finish.{returned, unrecorded}
use sidestage_copilot.Pipeline.Send.{
  is_gone, was_blocked, text_to_send, handed, sent_proposal, commit_send, deliver_and_commit,
  send_found, send, dismiss,
}

-- While the ledger is down, sending as it stands a reply that is not blocked and has not gone, where
-- the operator delivers it or the deliverer accepts it, ends with an error and no entry; but the reply
-- counts as sent, and every later send of it returns it as sent and leaves the ledger without an entry.
pub send-unrecorded :
    (e f : Scene) (id : String) (actor second : String) (other : Option String) (p : ReplyProposal)
    (w : Pipe)
    → get id w.proposals ≡ some p
    → is_gone p.status ≡ false
    → was_blocked p ≡ false
    → (delivery_for e ≢ api) ⊎ (accepts e (handed id p (text_to_send e none p)) ≡ true)
    → e.audit_up ≡ false
    → ((send e id none actor w).0 ≡ unrecorded)
      × ((send e id none actor w).1.ledger ≡ w.ledger)
      × (send f id other second (send e id none actor w).1 ≡ (
        returned (sent_proposal e (text_to_send e none p) p.guards p.verdict p),
        (send e id none actor w).1,
      ))
unfolding send send_found deliver_and_commit commit_send record_note
send-unrecorded e f id actor second other p w h g b ok down = ground (
  arith,
  get-put id id (sent_proposal e (text_to_send e none p) p.guards p.verdict p) w.proposals,
  str_refl id,
)

-- The first reply, sent as it stands.
abbrev sent_as_is : Scene → ReplyProposal → ReplyProposal
sent_as_is e p = sent_proposal e (text_to_send e none p) p.guards p.verdict p

send-delivers :
    (e : Scene) (id actor : String) (p : ReplyProposal) (w : Pipe)
    → get id w.proposals ≡ some p
    → is_gone p.status ≡ false
    → was_blocked p ≡ false
    → delivery_for e ≡ api
    → accepts e (handed id p (text_to_send e none p)) ≡ true
    → e.audit_up ≡ true
    → ((send e id none actor w).1.outbox ≡ w.outbox ++ (handed id p (text_to_send e none p) ∷ []))
      × (get id (send e id none actor w).1.proposals ≡ some (sent_as_is e p))
unfolding send send_found deliver_and_commit commit_send record_note
send-delivers e id actor p w h g b d ok up =
    ground (arith, get-put id id (sent_as_is e p) w.proposals, str_refl id)

dismiss-found :
    (id : String) (p : ReplyProposal) (w : Pipe)
    → get id w.proposals ≡ some p
    → ((dismiss id w).1.outbox ≡ w.outbox)
      × (get id (dismiss id w).1.proposals ≡ some (record p { status = dismissed }))
unfolding dismiss
dismiss-found id p w h =
    ground (arith, get-put id id (record p { status = dismissed }) w.proposals, str_refl id)

-- A reply that was delivered and is then dismissed is delivered once more by the next send.
pub dismiss-resend :
    (e : Scene) (id actor : String) (p : ReplyProposal) (w : Pipe)
    → get id w.proposals ≡ some p
    → is_gone p.status ≡ false
    → was_blocked p ≡ false
    → delivery_for e ≡ api
    → accepts e (handed id p (text_to_send e none p)) ≡ true
    → e.audit_up ≡ true
    → (send e id none actor (dismiss id (send e id none actor w).1).1).1.outbox
      ≡ (w.outbox ++ (handed id p (text_to_send e none p) ∷ []))
        ++ (handed id p (text_to_send e none p) ∷ [])
dismiss-resend e id actor p w h g b d ok up =
    let (out, there) = send-delivers e id actor p w h g b d ok up in
    let (same, again) = dismiss-found id (sent_as_is e p) (send e id none actor w).1 there in
    let twice =
      (send-delivers e id actor (record (sent_as_is e p) { status = dismissed })
        (dismiss id (send e id none actor w).1).1 again refl (ground arith) d ok up).0 in
    twice ∙ ap (λ l. l ++ (handed id p (text_to_send e none p) ∷ [])) (same ∙ out)
