-- ===== src/Pipeline/Send.antt =====
-- `send` and `dismiss` of src/pipeline/pipeline.ts: the operator's commands on a reply.
pub mod Cases
pub mod Laws
pub mod Faults
use sidestage_copilot.Prelude.{
  ℕ, ◌+◌, String, str_eq, Bool, true, false, not, ◌&&◌, ◌||◌, Option, none, some, List, [], ◌∷◌,
  ◌++◌, if◌then◌else◌, is_some,
}
use sidestage_copilot.Dict.{get, put}
use sidestage_copilot.Domain.{
  Verdict, allow, revise, block, ReplyDelivery, api, human, capabilities_of,
}
use sidestage_copilot.Guardrails.Input.{Fact, GuardInput}
use sidestage_copilot.Guardrails.Chain.{GuardResult, ChainResult, run_chain}
use sidestage_copilot.Guardrails.Guards.{guards}
use sidestage_copilot.Pipeline.State.{
  Scene, Pipe, Counters, ChatMessage, ReplyProposal, Grounding, ProposalStatus, sent, auto_sent,
  dismissed, Delivered, LedgerNote, reply_sent, delivery_for, accepts, constraints_of, record_note,
}
use sidestage_copilot.Pipeline.Finish.{
  Outcome, returned, not_found, refused, not_delivered, unrecorded,
}

abbrev pub is_gone : ProposalStatus → Bool
is_gone sent = true
is_gone auto_sent = true
is_gone _ = false

abbrev pub is_blocked : ProposalStatus → Bool
is_blocked ProposalStatus.blocked = true
is_blocked _ = false

abbrev pub refuses : Verdict → Bool
refuses block = true
refuses _ = false

abbrev or_draft : Option String → ReplyProposal → String
or_draft none p = p.draft
or_draft (some t) p = t

-- `(text ?? p.draft).trim()`
abbrev pub text_to_send : Scene → Option String → ReplyProposal → String
text_to_send e text p = e.tools.trim (or_draft text p)

abbrev pub is_edited : Scene → Option String → ReplyProposal → Bool
is_edited e text p = is_some text && not (str_eq (text_to_send e text p) (e.tools.trim p.draft))

abbrev pub was_blocked : ReplyProposal → Bool
was_blocked p = is_blocked p.status || refuses p.verdict

abbrev facts_of : Option Grounding → List Fact
facts_of none = []
facts_of (some g) = g.facts

abbrev slots_of : Option Grounding → List String
slots_of none = []
slots_of (some g) = g.slot_ids

abbrev quality_of : Option Grounding → ℕ
quality_of none = 0
quality_of (some g) = g.evidence_quality

-- What the guards are given of the operator's own words.
abbrev pub edit_input : Scene → String → ReplyProposal → Option Grounding → GuardInput
edit_input e text p g = record {
  tools = e.tools;
  policy = e.policy;
  draft = record { answer = text; claims = []; parsed_ok = true };
  question = p.message.text;
  asker = none;
  facts = facts_of g;
  current_listings = e.listings;
  slot_ids = slots_of g;
  has_slots = is_some g;
  surface = capabilities_of e.source;
  community = constraints_of (e.constraints p.message) (facts_of g);
}

unfoldable pub edit_chain : Scene → String → ReplyProposal → Option Grounding → ChainResult
edit_chain e text p g =
    run_chain guards (edit_input e text p g) 0
      (record { evidence_quality = some (quality_of g); abstained = false; by_human = true })

abbrev pub is_api : ReplyDelivery → Bool
is_api api = true
is_api human = false

abbrev pub handed : String → ReplyProposal → String → Delivered
handed id p text = record { proposal_id = id; to = p.message.author; text = text }

-- From the proposal to the ledger: the proposal is `sent` before its entry is appended.
abbrev after_note : ReplyProposal → Bool × Pipe → Outcome × Pipe
after_note next (true, w) = (unrecorded, w)
after_note next (false, w) = (returned next, w)

abbrev settled_counts : ReplyDelivery → Counters → Counters
settled_counts api c = record c { sent = c.sent + 1; delivered = c.delivered + 1 }
settled_counts human c = record c { sent = c.sent + 1; handed_off = c.handed_off + 1 }

abbrev outbox_after : ReplyDelivery → Delivered → List Delivered → List Delivered
outbox_after api m ms = ms ++ (m ∷ [])
outbox_after human m ms = ms

abbrev pub sent_proposal :
    Scene → String → List GuardResult → Verdict → ReplyProposal → ReplyProposal
sent_proposal e text gs v p = record p {
  status = sent;
  sent_text = some text;
  guards = gs;
  verdict = v;
  delivery = delivery_for e;
}

unfoldable pub commit_send :
    Scene
    → String
    → String
    → String
    → List GuardResult
    → Verdict
    → ReplyProposal
    → Pipe
    → Outcome × Pipe
commit_send e id text actor gs v p w =
    let d = delivery_for e in
    let next = sent_proposal e text gs v p in
    after_note next (
      record_note e true
        (record { kind = reply_sent; actor = actor; proposal_id = id; text = text; delivery = d })
        (record w {
          outbox = outbox_after d (handed id p text) w.outbox;
          proposals = put id next w.proposals;
          counters = settled_counts d w.counters;
        }))

-- A delivery that throws is not a send.
unfoldable pub deliver_and_commit :
    Scene
    → String
    → String
    → String
    → List GuardResult
    → Verdict
    → ReplyProposal
    → Pipe
    → Outcome × Pipe
unfolding commit_send
deliver_and_commit e id text actor gs v p w =
    if is_api (delivery_for e) && not (accepts e (handed id p text))
    then (not_delivered, w)
    else commit_send e id text actor gs v p w

abbrev send_edited :
    Scene → String → String → String → ReplyProposal → ChainResult → Pipe → Outcome × Pipe
send_edited e id text actor p chain w =
    if refuses chain.verdict
    then (refused, w)
    else deliver_and_commit e id text actor chain.guards chain.verdict p w

unfoldable pub send_found :
    Scene → String → Option String → String → ReplyProposal → Pipe → Outcome × Pipe
unfolding deliver_and_commit edit_chain
send_found e id text actor p w =
    let t = text_to_send e text p in
    if is_gone p.status
    then (returned p, w)
    else if was_blocked p && not (is_edited e text p)
    then (refused, w)
    else if is_edited e text p
    then send_edited e id t actor p (edit_chain e t p (get id w.grounding)) w
    else deliver_and_commit e id t actor p.guards p.verdict p w

unfoldable pub send : Scene → String → Option String → String → Pipe → Outcome × Pipe
unfolding send_found
send e id text actor w = elim (get id w.proposals) [
  | none ↦ (not_found, w)
  | some p ↦ send_found e id text actor p w
]

unfoldable pub dismiss : String → Pipe → Outcome × Pipe
dismiss id w = elim (get id w.proposals) [
  | none ↦ (not_found, w)
  | some p ↦
      let next = record p { status = dismissed } in
      (
        returned next,
        record w {
          proposals = put id next w.proposals;
          counters = record w.counters { dismissed = w.counters.dismissed + 1 };
        },
      )
]
