-- ===== src/Ingest/Classify/Laws.antt =====
-- What the gate admits, and that a token is drawn for nothing else.
use sidestage_copilot.Prelude.{◌≤◌, ◌≡◌, ◌≢◌, ◌⊎◌, String, Bool, false, arith}
use sidestage_copilot.Domain.{ChatIntent, hype}
use sidestage_copilot.Ingest.Classify.{SpeechAct, query, command, Stance, baiting, Lexicon, admit}

-- A request or a question, not made to provoke, not a mere reaction, of a length that can be
-- answered in a chat.
pub record IsAnswerable (lx : Lexicon) (text : String) (intent : ChatIntent) (act : SpeechAct)
    (stance : Stance) : Type 0 where
  pub sincere : stance ≢ baiting
  pub asks : (act ≡ command) ⊎ ((act ≡ query) × (intent ≢ hype))
  pub long_enough : 3 ≤ lx.size (lx.trim text)
  pub short_enough : lx.size (lx.trim text) ≤ 500

module _ {S : Type 0} (lx : Lexicon) (text : String) (intent : ChatIntent) (rate : S → Bool × S)
    (act : SpeechAct) (stance : Stance) (s : S) where
  -- The gate either draws from the limiter, for a line that is answerable and with the limiter's
  -- word for the result, or drops the line with the limiter as it was, for one that is not.
  pub admit_lem :
      (IsAnswerable lx text intent act stance
        × ((admit lx text intent rate act stance s).0.admitted ≡ (rate s).0)
        × ((admit lx text intent rate act stance s).1 ≡ (rate s).1))
      ⊎ (¬ IsAnswerable lx text intent act stance
          × ((admit lx text intent rate act stance s).0.admitted ≡ false)
          × ((admit lx text intent rate act stance s).1 ≡ s))
  unfolding admit
  admit_lem = ground arith
