-- ===== src/Pipeline/Intake/Laws.antt =====
-- Which lines are drafted for, and what the operator is told of the others.
use sidestage_copilot.Prelude.{
  String, ◌≡◌, ◌≢◌, ◌↔◌, ◌⊎◌, inl, inr, Bool, true, false, Option, none, arith,
}
use sidestage_copilot.Domain.{ChatIntent, l0_observe}
use sidestage_copilot.Limits.Budget.{is_over_budget}
use sidestage_copilot.Ingest.Classify.{
  Lexicon, SpeechAct, Stance, admit, classify, classify_stance, classify_speech_act,
}
use sidestage_copilot.Ingest.Classify.Laws.{IsAnswerable, admit_lem}
use sidestage_copilot.Ingest.Bucket.{try_admit}
use sidestage_copilot.Pipeline.State.{Scene, Pipe}
use sidestage_copilot.Pipeline.Intake.{
  IncomingMessage, IngestOptions, rate_thunk, natural, message_of, signalled, queued_up, ingest,
}

-- What the gate needs of a line that the operator does not force.
pub record MayDraft (e : Scene) (m : IncomingMessage) (o : IngestOptions) (w : Pipe) : Type 0 where
  pub answerable :
      IsAnswerable e.lexicon m.text
        (classify e.lexicon m.text)
        (classify_speech_act e.lexicon m.text)
        (classify_stance e.lexicon m.text)
  pub above_observe : e.level ≢ l0_observe
  pub fresh : o.is_historic ≡ false
  pub within_rate : (try_admit e.now w.rate).0 ≡ true

rate_thunk-true :
    (e : Scene) (o : IngestOptions) (w : Pipe)
    → (rate_thunk e o w.rate).0 ≡ true
    → (e.level ≢ l0_observe) × (o.is_historic ≡ false) × ((try_admit e.now w.rate).0 ≡ true)
rate_thunk-true e o w h = ground arith

true-rate_thunk :
    (e : Scene) (o : IngestOptions) (w : Pipe)
    → e.level ≢ l0_observe
    → o.is_historic ≡ false
    → (try_admit e.now w.rate).0 ≡ true
    → (rate_thunk e o w.rate).0 ≡ true
true-rate_thunk e o w l f r = ground arith

natural-MayDraft :
    (e : Scene) (m : IncomingMessage) (o : IngestOptions) (w : Pipe)
    → (natural e m o w.rate).0.admitted ≡ true
    → MayDraft e m o w
unfolding natural
natural-MayDraft e m o w h =
    elim (admit_lem e.lexicon m.text (classify e.lexicon m.text) (rate_thunk e o)
      (classify_speech_act e.lexicon m.text) (classify_stance e.lexicon m.text) w.rate) [
        | inl (a, d, t) ↦
            let (l, f, r) = rate_thunk-true e o w (ground arith) in
            record { answerable = a; above_observe = l; fresh = f; within_rate = r }
        | inr (a, d, t) ↦ absurd (ground arith)
      ]

MayDraft-natural :
    (e : Scene) (m : IncomingMessage) (o : IngestOptions) (w : Pipe)
    → MayDraft e m o w
    → (natural e m o w.rate).0.admitted ≡ true
unfolding natural
MayDraft-natural e m o w h =
    elim (admit_lem e.lexicon m.text (classify e.lexicon m.text) (rate_thunk e o)
      (classify_speech_act e.lexicon m.text) (classify_stance e.lexicon m.text) w.rate) [
        | inl (a, d, t) ↦
            ground (arith, true-rate_thunk e o w h.above_observe h.fresh h.within_rate)
        | inr (a, d, t) ↦ absurd (a h.answerable)
      ]

-- A line is admitted exactly when the show is not at its spend cap, and either the operator forces
-- it or it is answerable, the show is above L0, the line was said since the console attached, and
-- the limiter has a token.
pub ingest-admitted_iff :
    (e : Scene) (resolved : String → Option String) (m : IncomingMessage) (o : IngestOptions)
    (w : Pipe)
    → ((ingest e resolved m o w).0.admitted ≡ true)
      ↔ ((is_over_budget e.budget e.show_id ≡ false) × ((o.force ≡ true) ⊎ MayDraft e m o w))
unfolding ingest message_of
ingest-admitted_iff e resolved m o w =
    (λ h. ground (arith, natural-MayDraft e m o w), λ h. ground (arith, MayDraft-natural e m o w))

admit-reason :
    {S : Type 0} (lx : Lexicon) (text : String) (intent : ChatIntent) (rate : S → Bool × S)
    (act : SpeechAct) (stance : Stance) (s : S)
    → (admit lx text intent rate act stance s).0.admitted ≡ false
    → (admit lx text intent rate act stance s).0.reason ≢ none
unfolding admit
admit-reason lx text intent rate act stance s h = ground arith

-- A line that is not admitted carries the reason that the operator is shown, and neither the queue
-- nor a counter moves for it.
pub ingest-refused :
    (e : Scene) (resolved : String → Option String) (m : IncomingMessage) (o : IngestOptions)
    (w : Pipe)
    → (ingest e resolved m o w).0.admitted ≡ false
    → ((ingest e resolved m o w).0.drop_reason ≢ none)
      × ((ingest e resolved m o w).1.fanout ≡ w.fanout)
      × ((ingest e resolved m o w).1.counters ≡ w.counters)
unfolding ingest message_of queued_up signalled natural
ingest-refused e resolved m o w h = ground (
  arith,
  admit-reason e.lexicon m.text (classify e.lexicon m.text) (rate_thunk e o)
      (classify_speech_act e.lexicon m.text) (classify_stance e.lexicon m.text) w.rate,
)
