-- ===== src/Examples/Replies.antt =====
-- What the pipeline does on the stream.
use sidestage_copilot.Prelude.{
  inl, ◌≢◌, arith, ◌+◌, ◌-◌, ◌*◌, ◌≤◌, true, false, none, some, [], ◌∷◌, ◌++◌, ◌≡◌, ◌⊎◌, ◌↔◌, refl,
  any, arith,
}
use sidestage_copilot.Dict.{get}
use sidestage_copilot.Domain.{l3_auto_reply, allow, capabilities_of, api, human}
use sidestage_copilot.Autonomy.Ladder.{rung}
use sidestage_copilot.Limits.Budget.{is_over_budget}
use sidestage_copilot.Ingest.Bucket.{new_bucket}
use sidestage_copilot.Ingest.Bucket.Laws.{admissions, admissions_bound}
use sidestage_copilot.Guardrails.Chain.{run_chain}
use sidestage_copilot.Guardrails.Guards.Price.{price_run, price_guard}
use sidestage_copilot.Guardrails.Guards.Stock.{availability_guard}
use sidestage_copilot.Guardrails.Guards.Words.{policy_guard, tone_guard, pii_guard}
use sidestage_copilot.Guardrails.Guards.Rooms.{community_rule_guard, sponsor_guard}
use sidestage_copilot.Guardrails.Guards.Grounding.{is_unknown, is_weak, claim_grounding_guard}
use sidestage_copilot.Guardrails.Guards.Laws.{IsClean}
use sidestage_copilot.Pipeline.Fanout.{Fanout, idle, arrive}
use sidestage_copilot.Pipeline.State.{
  Scene, Composed, ChatMessage, ReplyProposal, sent, accepts, delivery_for, record_note,
  constraints_of,
}
use sidestage_copilot.Pipeline.Intake.{IncomingMessage, IngestOptions, ingest}
use sidestage_copilot.Pipeline.Intake.Laws.{MayDraft, ingest-admitted_iff}
use sidestage_copilot.Pipeline.Finish.{returned, unrecorded, addressed}
use sidestage_copilot.Pipeline.Send.{
  is_edited, was_blocked, edit_input, handed, send, sent_proposal, dismiss,
}
use sidestage_copilot.Pipeline.Send.Laws.{send-IsChecked, send-twice}
use sidestage_copilot.Pipeline.Send.Faults.{send-unrecorded, dismiss-resend}
use sidestage_copilot.Pipeline.Draft.{
  opened, grounded, rules_for, guard_input, checked, composed, guard_and_repair, conclude, draft,
}
use sidestage_copilot.Pipeline.Draft.Safety.{IsChecked, conclude-IsClean}
use sidestage_copilot.Pipeline.Draft.Settles.{IsSettled, draft-IsSettled}
use sidestage_copilot.Pipeline.Accounts.{IsAccounted, fresh, drafted, sent}
use sidestage_copilot.Pipeline.Accounts.Laws.{Reached-IsAccounted}
use sidestage_copilot.Examples.Stream.{
  scene, question, answer, try_once, pipe, answered, waiting_reply,
}

abbrev sent_reply : ReplyProposal
sent_reply = sent_proposal scene "ships tomorrow" [] waiting_reply.verdict waiting_reply

send-twice_example :
    let w = (send scene "prop_m1" none "seller" answered).1 in
    send scene "prop_m1" (some "again") "other" w ≡ (returned sent_reply, w)
unfolding get send delivery_for capabilities_of accepts record_note
send-twice_example =
    send-twice scene scene "prop_m1" none (some "again") "seller" "other" waiting_reply sent_reply
      answered refl refl

-- The ledger is down, and no deliverer is wired.
abbrev ledger_down : Scene
ledger_down = record scene { audit_up = false; deliver = none }

no_deliverer : delivery_for ledger_down ≢ api
unfolding delivery_for capabilities_of
no_deliverer h = ground arith

send-unrecorded_example :
    ((send ledger_down "prop_m1" none "seller" answered).0 ≡ unrecorded)
    × ((send ledger_down "prop_m1" none "seller" answered).1.ledger ≡ [])
    × (send scene "prop_m1" none "seller" (send ledger_down "prop_m1" none "seller" answered).1 ≡ (
      returned (sent_proposal ledger_down "ships tomorrow" [] allow waiting_reply),
      (send ledger_down "prop_m1" none "seller" answered).1,
    ))
unfolding get accepts
send-unrecorded_example =
    send-unrecorded ledger_down scene "prop_m1" "seller" "seller" none waiting_reply answered refl
      refl refl (inl no_deliverer) refl

dismiss-resend_example :
    (send scene "prop_m1" none "seller"
      (dismiss "prop_m1" (send scene "prop_m1" none "seller" answered).1).1).1.outbox
    ≡ handed "prop_m1" waiting_reply "ships tomorrow"
      ∷ handed "prop_m1" waiting_reply "ships tomorrow"
      ∷ []
unfolding get delivery_for capabilities_of accepts
dismiss-resend_example =
    dismiss-resend scene "prop_m1" "seller" waiting_reply answered refl refl refl refl refl refl

send-IsChecked_example :
    (sent_reply.status ≡ sent)
    × (sent_reply.sent_text ≡ some "ships tomorrow")
    × (((is_edited scene none waiting_reply ≡ false) × (was_blocked waiting_reply ≡ false))
        ⊎ ((is_edited scene none waiting_reply ≡ true)
            × IsClean (edit_input scene "ships tomorrow" waiting_reply none)))
    × (((delivery_for scene ≡ api)
          × ((send scene "prop_m1" none "seller" answered).1.outbox
              ≡ [] ++ (handed "prop_m1" waiting_reply "ships tomorrow" ∷ [])))
        ⊎ ((delivery_for scene ≡ human)
            × ((send scene "prop_m1" none "seller" answered).1.outbox ≡ [])))
unfolding get send delivery_for capabilities_of accepts record_note
send-IsChecked_example =
    send-IsChecked scene "prop_m1" none "seller" waiting_reply sent_reply answered refl refl refl

abbrev reply : Composed
reply =
    composed (grounded try_once question) answer
      (checked scene question (rules_for try_once question) (grounded try_once question) answer)
      false

conclude-IsClean_example :
    ((conclude try_once question reply pipe).outbox ≡ [])
    ⊎ (((conclude try_once question reply pipe).outbox
          ≡ [] ++ (addressed (opened try_once question) question reply ∷ []))
        × (rung l3_auto_reply ≤ 4)
        × ((e : Scene) × (t : _) × IsChecked try_once answer e t
            × (reply.answer ≡ t.answer)
            × IsClean (
                guard_input e question (rules_for try_once question) (grounded try_once question) t)
            × (any
                  (is_unknown (
                    guard_input e question
                      (rules_for try_once question)
                      (grounded try_once question)
                      t))
                  t.claims
                ≡ false)))
unfolding guard_and_repair checked run_chain price_run price_guard capabilities_of
    availability_guard policy_guard claim_grounding_guard grounded is_weak tone_guard pii_guard
    community_rule_guard constraints_of sponsor_guard
conclude-IsClean_example = conclude-IsClean try_once question answer reply pipe refl

draft-IsSettled_example :
    IsSettled "prop_m1" (draft (λ n. try_once) question none pipe)
    × (draft (λ n. try_once) question none pipe ≡ draft (λ n. try_once) question none pipe)
draft-IsSettled_example =
    draft-IsSettled (λ n. try_once) question (λ n l v h. h) (λ n l. refl) (λ n. try_once)
      (λ n l. refl) none pipe refl

Reached-IsAccounted_example :
    IsAccounted (send scene "prop_m1" none "seller" (draft (λ n. try_once) question none pipe)).1
Reached-IsAccounted_example =
    Reached-IsAccounted
      (send scene "prop_m1" none "seller" (draft (λ n. try_once) question none pipe)).1
      (sent scene "prop_m1" none "seller" (
        drafted (λ n. try_once) question none (λ n v h. h)
          (fresh (record { counts = refl; nothing_out = refl; nothing_noted = refl }))))

abbrev busy : Fanout ChatMessage
busy = arrive 1 question idle

abbrev line : IncomingMessage
line = record { id = "m2"; author = "ana"; text = "when does it ship?"; thread_id = none }

abbrev plainly : IngestOptions
plainly = record { force = false; is_historic = false }

ingest-admitted_iff_example :
    ((ingest scene (λ t. none) line plainly pipe).0.admitted ≡ true)
    ↔ ((is_over_budget none "s1" ≡ false) × ((false ≡ true) ⊎ MayDraft scene line plainly pipe))
ingest-admitted_iff_example = ingest-admitted_iff scene (λ t. none) line plainly pipe

admissions_bound_example :
    60000 * admissions (1000 ∷ 1500 ∷ []) (new_bucket 1 1000) ≤ 60000 + (2000 - 1000) * 1
admissions_bound_example =
    admissions_bound (1000 ∷ 1500 ∷ []) 2000 (new_bucket 1 1000)
      (omega arith, (omega arith, omega arith))
