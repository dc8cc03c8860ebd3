-- ===== src/Pipeline/Finish.antt =====
-- `finish` of src/pipeline/pipeline.ts: the ladder decides, a reply that may send itself is handed to
-- the deliverer, and the result is counted, recorded and shown. Every clause of the four statements
-- `if (status …)` is a step here. An error of the deliverer carries a text: one without would pass
-- for no error.
pub mod Laws
use sidestage_copilot.Prelude.{
  ℕ, ◌+◌, String, Bool, true, false, not, ◌&&◌, Option, none, some, List, [], ◌∷◌, ◌++◌,
  if◌then◌else◌,
}
use sidestage_copilot.Dict.{Dict, get, put}
use sidestage_copilot.Domain.{ReplyDelivery}
use sidestage_copilot.Autonomy.Ladder.{
  ReplyDecisionInput, ReplyDisposition, drop, suggest, auto_send, decide_reply,
}
use sidestage_copilot.Guardrails.Chain.{GuardResult, is_block}
use sidestage_copilot.Latency.Spans.{record_total}
use sidestage_copilot.Pipeline.State.{
  Scene, Pipe, Counters, ChatMessage, Composed, ReplyProposal, ProposalStatus, ready, auto_sent,
  dismissed, Delivered, LedgerNote, reply_blocked, reply_sent, delivery_for, accepts, record_note,
}

-- An operation returns a proposal, or throws for one of four reasons.
pub data Outcome : Type 0 where
  returned : ReplyProposal → Outcome
  not_found refused not_delivered unrecorded : Outcome

-- What a draft took.
pub record Spans : Type 0 where
  pub total_ms : ℕ
  pub cache_hit : Bool

abbrev pub decision_input : Scene → ChatMessage → Composed → ReplyDecisionInput
decision_input e msg r = record {
  level = e.level;
  intent = some msg.intent;
  verdict = r.verdict;
  confidence = r.confidence;
  abstained = r.groundless;
  delivery = delivery_for e;
}

abbrev pub disposition_of : Scene → ChatMessage → Composed → ReplyDisposition
disposition_of e msg r = decide_reply (decision_input e msg r)

abbrev pub addressed : ReplyProposal → ChatMessage → Composed → Delivered
addressed base msg r = record { proposal_id = base.id; to = msg.author; text = r.answer }

abbrev pub status_of : ReplyDisposition → Bool → ProposalStatus
status_of auto_send accepted = if accepted then auto_sent else ProposalStatus.needs_review
status_of ReplyDisposition.blocked accepted = ProposalStatus.blocked
status_of ReplyDisposition.needs_review accepted = ProposalStatus.needs_review
status_of drop accepted = dismissed
status_of suggest accepted = ready

abbrev pub status_in : Scene → ReplyProposal → ChatMessage → Composed → ProposalStatus
status_in e base msg r = status_of (disposition_of e msg r) (accepts e (addressed base msg r))

abbrev sent_text_of : ProposalStatus → String → Option String
sent_text_of auto_sent answer = some answer
sent_text_of _ answer = none

-- `{ ...base, ...rest, draft: answer, status, delivery, … }`
abbrev pub finished : Scene → ReplyProposal → ChatMessage → Composed → ReplyProposal
finished e base msg r = record base {
  status = status_in e base msg r;
  draft = r.answer;
  claims = r.claims;
  evidence = r.evidence;
  guards = r.guards;
  verdict = r.verdict;
  confidence = r.confidence;
  repaired = r.repaired;
  delivery = delivery_for e;
  sent_text = sent_text_of (status_in e base msg r) r.answer;
}

abbrev counted : Option ℕ → ℕ
counted none = 0
counted (some n) = n

-- `this.counters.guardBlocks[g.guard]++` for each guard that blocks; each starts at 0.
unfoldable pub guard_blocks : List GuardResult → Dict ℕ → Dict ℕ
guard_blocks [] d = d
guard_blocks (g ∷ gs) d =
    guard_blocks gs (if is_block g.verdict then put g.guard (counted (get g.guard d) + 1) d else d)

abbrev count_guards : List GuardResult → Pipe → Pipe
count_guards gs w = record w {
  counters = record w.counters { guard_blocks = guard_blocks gs w.counters.guard_blocks };
}

abbrev pub note_of : ReplyProposal → ChatMessage → Composed → ReplyDelivery → LedgerNote
note_of base msg r delivery = record {
  kind = reply_sent;
  actor = "copilot";
  proposal_id = base.id;
  text = r.answer;
  delivery = delivery;
}

-- `status === "blocked"`: an entry that cannot be appended is let go.
abbrev note_block : Scene → ReplyProposal → ChatMessage → Composed → ProposalStatus → Pipe → Pipe
note_block e base msg r ProposalStatus.blocked w =
    (record_note e false (record (note_of base msg r (delivery_for e)) { kind = reply_blocked })
      (record w { counters = record w.counters { blocked = w.counters.blocked + 1 } })).1
note_block e base msg r _ w = w

-- `status === "auto_sent"`: the entry is required.
abbrev note_auto :
    Scene → ReplyProposal → ChatMessage → Composed → ProposalStatus → Pipe → Bool × Pipe
note_auto e base msg r auto_sent w =
    record_note e true (note_of base msg r (delivery_for e)) (record w {
      counters = record w.counters {
        auto_sent = w.counters.auto_sent + 1;
        sent = w.counters.sent + 1;
        delivered = w.counters.delivered + 1;
      };
    })
note_auto e base msg r _ w = (false, w)

abbrev hand_over : Scene → ReplyProposal → ChatMessage → Composed → ProposalStatus → Pipe → Pipe
hand_over e base msg r auto_sent w = record w { outbox = w.outbox ++ (addressed base msg r ∷ []) }
hand_over e base msg r _ w = w

abbrev shown : Spans → ReplyProposal → Bool × Pipe → Outcome × Pipe
shown spans p (true, w) = (unrecorded, w)
shown spans p (false, w) = (
  returned p,
  record w {
    latency = record_total spans.total_ms spans.cache_hit w.latency;
    proposals = put p.id p w.proposals;
  },
)

unfoldable pub finish :
    Scene → ReplyProposal → Composed → Spans → ChatMessage → Pipe → Outcome × Pipe
finish e base r spans msg w =
    let s = status_in e base msg r in
    shown spans (finished e base msg r) (
      note_auto e base msg r s
        (note_block e base msg r s (count_guards r.guards (hand_over e base msg r s w))))
