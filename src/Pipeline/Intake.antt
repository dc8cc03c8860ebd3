-- ===== src/Pipeline/Intake.antt =====
-- `ingest` of src/pipeline/pipeline.ts: a line is classified, gated, counted and queued. What the
-- retriever resolves of its text is a parameter.
pub mod Laws
use sidestage_copilot.Prelude.{
  ℕ, ◌+◌, String, Bool, true, false, not, ◌&&◌, ◌||◌, Option, none, some, if◌then◌else◌,
}
use sidestage_copilot.Domain.{AutonomyLevel, l0_observe, ChatIntent, hype}
use sidestage_copilot.Ingest.Classify.{
  Lexicon, SpeechAct, DropReason, rate_cap, AdmissionResult, classify, classify_stance,
  classify_speech_act, admit,
}
use sidestage_copilot.Ingest.Bucket.{TokenBucket, try_admit}
use sidestage_copilot.Actions.Proposer.{Signal, record_signal}
use sidestage_copilot.Limits.Budget.{is_over_budget}
use sidestage_copilot.Pipeline.Fanout.{arrive}
use sidestage_copilot.Pipeline.State.{
  Scene, Pipe, Counters, ChatMessage, DropNote, over_budget, observing, historic, dropped_by_gate,
  overridden,
}

-- `id` is the platform's, or made from the clock and from `Math.random()`.
pub record IncomingMessage : Type 0 where
  pub id : String
  pub author : String
  pub text : String
  pub thread_id : Option String

pub record IngestOptions : Type 0 where
  pub force : Bool
  pub is_historic : Bool

abbrev pub observes : AutonomyLevel → Bool
observes l0_observe = true
observes _ = false

abbrev pub is_hype_intent : ChatIntent → Bool
is_hype_intent hype = true
is_hype_intent _ = false

-- The thunk that the gate is given: `!observing && !opts.historic && this.rate.tryAdmit()`.
abbrev pub rate_thunk : Scene → IngestOptions → TokenBucket → Bool × TokenBucket
rate_thunk e o b = if observes e.level || o.is_historic then (false, b) else try_admit e.now b

unfoldable pub natural :
    Scene → IncomingMessage → IngestOptions → TokenBucket → AdmissionResult × TokenBucket
natural e m o b =
    admit e.lexicon m.text (classify e.lexicon m.text) (rate_thunk e o)
      (classify_speech_act e.lexicon m.text) (classify_stance e.lexicon m.text) b

-- `decision.admitted`
abbrev pub decided : Bool → IngestOptions → AdmissionResult → Bool
decided capped o n = if capped then false else if o.force then true else n.admitted

abbrev is_rate_cap : DropReason → Bool
is_rate_cap rate_cap = true
is_rate_cap _ = false

abbrev told : Scene → IngestOptions → DropReason → DropNote
told e o r =
    if observes e.level
    then observing
    else if o.is_historic && is_rate_cap r
    then historic
    else dropped_by_gate r

abbrev told_natural : Scene → IngestOptions → Option DropReason → Option DropNote
told_natural e o none = none
told_natural e o (some r) = some (told e o r)

abbrev told_forced : Option DropReason → Option DropNote
told_forced none = none
told_forced (some r) = some (overridden r)

-- The two spreads of `dropReason`. A refusal of the gate has a reason always.
abbrev pub drop_note : Scene → Bool → IngestOptions → AdmissionResult → Option DropNote
drop_note e capped o n =
    if capped
    then some over_budget
    else if o.force
    then told_forced n.reason
    else told_natural e o n.reason

unfoldable pub message_of :
    Scene → Bool → IncomingMessage → IngestOptions → AdmissionResult → ChatMessage
message_of e capped m o n = record {
  id = m.id;
  author = m.author;
  text = m.text;
  intent = classify e.lexicon m.text;
  speech_act = classify_speech_act e.lexicon m.text;
  admitted = decided capped o n;
  drop_reason = drop_note e capped o n;
  thread_id = m.thread_id;
}

-- A signal comes of every line that is not a reaction, admitted or not.
unfoldable pub signalled : Scene → (String → Option String) → ChatMessage → Pipe → Pipe
signalled e resolved m w = if is_hype_intent m.intent then w else record w {
  signals =
      record_signal e.window_ms e.now
        (record { at = e.now; intent = m.intent; listing_id = resolved m.text; author = m.author })
        w.signals;
}

unfoldable pub queued_up : Scene → ChatMessage → Pipe → Pipe
queued_up e m w =
    if m.admitted
    then record w {
      counters = record w.counters { admitted = w.counters.admitted + 1 };
      fanout = arrive e.reply_concurrency m w.fanout;
    }
    else w

-- The limiter is asked whatever the cap and the operator say.
unfoldable pub ingest :
    Scene → (String → Option String) → IncomingMessage → IngestOptions → Pipe → ChatMessage × Pipe
unfolding natural message_of signalled queued_up
ingest e resolved m o w =
    let (n, b) = natural e m o w.rate in
    let msg = message_of e (is_over_budget e.budget e.show_id) m o n in
    (msg, queued_up e msg (signalled e resolved msg (record w { rate = b })))
