-- ===== src/Pipeline/Accounts.antt =====
-- What the counters of `Pipeline` say of its two logs, over every sequence of its operations.
pub mod Steps
pub mod Laws
use sidestage_copilot.Prelude.{
  ℕ, ◌+◌, ◌≤◌, ◌≡◌, String, Bool, true, false, Option, List, [], ◌∷◌, ◌++◌, if◌then◌else◌, length,
}
use sidestage_copilot.Pipeline.State.{
  Scene, Pipe, LedgerNote, LedgerKind, reply_sent, reply_blocked, ChatMessage, no_counts,
}
use sidestage_copilot.Pipeline.Intake.{IncomingMessage, IngestOptions, ingest}
use sidestage_copilot.Pipeline.Finish.{Outcome}
use sidestage_copilot.Pipeline.Send.{send, dismiss}
use sidestage_copilot.Pipeline.Draft.{Attempt, draft}

abbrev is_sent_note : LedgerKind → Bool
is_sent_note reply_sent = true
is_sent_note reply_blocked = false

abbrev pub sent_notes : List LedgerNote → ℕ
sent_notes [] = 0
sent_notes (n ∷ ns) = if is_sent_note n.kind then sent_notes ns + 1 else sent_notes ns

-- Every sent reply was delivered or handed to the operator; what was delivered is what the deliverer
-- took; what sent itself was delivered; and the ledger has no entry of a send that did not happen.
pub record IsAccounted (w : Pipe) : Type 0 where
  pub split : w.counters.sent ≡ w.counters.delivered + w.counters.handed_off
  pub taken : length w.outbox ≡ w.counters.delivered
  pub automatic : w.counters.auto_sent ≤ w.counters.delivered
  pub recorded : sent_notes w.ledger ≤ w.counters.sent

-- The state that the constructor leaves: nothing is counted and nothing is logged.
pub record IsFresh (w : Pipe) : Type 0 where
  pub counts : w.counters ≡ no_counts
  pub nothing_out : w.outbox ≡ []
  pub nothing_noted : w.ledger ≡ []

-- Any number of operations, each in its own surroundings.
pub data Reached : Pipe → Type 0 where
  fresh : {w : Pipe} → IsFresh w → Reached w
  ingested :
      {w : Pipe} (e : Scene) (resolved : String → Option String) (m : IncomingMessage)
      (o : IngestOptions)
      → Reached w
      → Reached (ingest e resolved m o w).1
  drafted :
      {w : Pipe} (tries : ℕ → Attempt) (m : ChatMessage) (previous : Option String)
      → ((n : ℕ) (v : Pipe) → IsAccounted v → IsAccounted ((tries n).meanwhile v))
      → Reached w
      → Reached (draft tries m previous w)
  sent :
      {w : Pipe} (e : Scene) (id : String) (text : Option String) (actor : String)
      → Reached w
      → Reached (send e id text actor w).1
  dismissed : {w : Pipe} (id : String) → Reached w → Reached (dismiss id w).1
