-- ===== src/Pipeline/State.antt =====
-- The state of the class `Pipeline` and what its operations read of their surroundings. Times of
-- display, spans, styles and threads as they are rendered are left out.
use sidestage_copilot.Prelude.{
  ℕ, String, Bool, false, Option, none, some, List, [], ◌∷◌, ◌++◌, if◌then◌else◌, has, is_some,
}
use sidestage_copilot.Dict.{Dict}
use sidestage_copilot.Domain.{
  AutonomyLevel, ChatIntent, Verdict, ReplyDelivery, api, human, SurfaceId, community_corpus,
  capabilities_of, delivers,
}
use sidestage_copilot.Catalog.{Listing}
use sidestage_copilot.Ingest.Classify.{Lexicon, SpeechAct, DropReason}
use sidestage_copilot.Ingest.Bucket.{TokenBucket}
use sidestage_copilot.Actions.Proposer.{Signal}
use sidestage_copilot.Latency.Cache.{Entry}
use sidestage_copilot.Latency.Spans.{LatencyTracker}
use sidestage_copilot.Limits.Budget.{Budget}
use sidestage_copilot.Guardrails.Input.{Fact, Claim, GuardPolicy, TextTools, same_corpus}
use sidestage_copilot.Guardrails.Chain.{GuardResult}
use sidestage_copilot.Pipeline.Fanout.{Fanout}

-- `dropReason`, whose texts say which of these it is.
pub data DropNote : Type 0 where
  over_budget observing historic : DropNote
  dropped_by_gate : DropReason → DropNote
  overridden : DropReason → DropNote

pub record ChatMessage : Type 0 where
  pub id : String
  pub author : String
  pub text : String
  pub intent : ChatIntent
  pub speech_act : SpeechAct
  pub admitted : Bool
  pub drop_reason : Option DropNote
  pub thread_id : Option String

pub data ProposalStatus : Type 0 where
  drafting ready needs_review blocked : ProposalStatus
  sent auto_sent dismissed : ProposalStatus

-- A score is in hundredths.
pub record Evidence : Type 0 where
  pub fact_id : String
  pub score : ℕ

-- What drafting a reply ends with, and what the cache keeps: the result less its spans.
pub record Composed : Type 0 where
  pub answer : String
  pub claims : List Claim
  pub evidence : List Evidence
  pub groundless : Bool
  pub guards : List GuardResult
  pub verdict : Verdict
  pub confidence : ℕ
  pub repaired : Bool

pub record ReplyProposal : Type 0 where
  pub id : String
  pub message : ChatMessage
  pub status : ProposalStatus
  pub draft : String
  pub claims : List Claim
  pub evidence : List Evidence
  pub guards : List GuardResult
  pub verdict : Verdict
  pub confidence : ℕ
  pub repaired : Bool
  pub delivery : ReplyDelivery
  pub created_at : ℕ
  pub sent_text : Option String

-- A value of the map `grounding`.
pub record Grounding : Type 0 where
  pub facts : List Fact
  pub slot_ids : List String
  pub evidence_quality : ℕ

-- `guardBlocks` counts the blocks of each guard by its name.
pub record Counters : Type 0 where
  pub proposals : ℕ
  pub sent : ℕ
  pub delivered : ℕ
  pub handed_off : ℕ
  pub auto_sent : ℕ
  pub dismissed : ℕ
  pub blocked : ℕ
  pub admitted : ℕ
  pub guard_blocks : Dict ℕ

abbrev pub no_counts : Counters
no_counts = record {
  proposals = 0;
  sent = 0;
  delivered = 0;
  handed_off = 0;
  auto_sent = 0;
  dismissed = 0;
  blocked = 0;
  admitted = 0;
  guard_blocks = [];
}

pub data LedgerKind : Type 0 where
  reply_blocked reply_sent : LedgerKind

pub record LedgerNote : Type 0 where
  pub kind : LedgerKind
  pub actor : String
  pub proposal_id : String
  pub text : String
  pub delivery : ReplyDelivery

-- What `deliver` was handed and did not throw on.
pub record Delivered : Type 0 where
  pub proposal_id : String
  pub to : String
  pub text : String

-- The fields of the class, and the two logs outside it that they answer to.
pub record Pipe : Type 0 where
  pub rate : TokenBucket
  pub signals : List Signal
  pub fanout : Fanout ChatMessage
  pub stopped : Bool
  pub proposals : Dict ReplyProposal
  pub grounding : Dict Grounding
  pub cache : Dict (Entry Composed)
  pub latency : LatencyTracker
  pub seen_action_keys : List String
  pub counters : Counters
  pub ledger : List LedgerNote
  pub outbox : List Delivered

-- What an operation reads of the show, of the seller's settings and of the two services. `deliver`
-- is absent where no delivery path is wired, and answers whether it returned; `audit_up` is whether
-- the ledger takes an entry.
pub record Scene : Type 0 where
  pub show_id : String
  pub now : ℕ
  pub level : AutonomyLevel
  pub source : Option SurfaceId
  pub listings : Dict Listing
  pub constraints : ChatMessage → List Fact
  pub tools : TextTools
  pub policy : GuardPolicy
  pub lexicon : Lexicon
  pub budget : Option Budget
  pub reply_concurrency : ℕ
  pub window_ms : ℕ
  pub cache_ttl : ℕ
  pub cache_size : ℕ
  pub deliver : Option (Delivered → Bool)
  pub audit_up : Bool

-- `deliveryFor`: the surface declares it, and a path is wired.
unfoldable pub delivery_for : Scene → ReplyDelivery
delivery_for e =
    if delivers (capabilities_of e.source).delivery
    then (if is_some e.deliver then api else human)
    else human

-- Whether the wired path takes the reply; without one there is nothing that throws.
unfoldable pub accepts : Scene → Delivered → Bool
accepts e m = elim e.deliver [ none ↦ false | some f ↦ f m ]

abbrev constraints_from : List String → List Fact → List Fact
constraints_from seen [] = []
constraints_from seen (f ∷ fs) =
    let skipped = constraints_from seen fs in
    let kept = constraints_from (f.fact_id ∷ seen) fs in
    if same_corpus f.corpus community_corpus
    then if has seen f.fact_id then skipped else f ∷ kept
    else skipped

-- `constraintsOf`
unfoldable pub constraints_of : List Fact → List Fact → List Fact
constraints_of from_room retrieved = constraints_from [] (from_room ++ retrieved)

-- `record`: whether the append threw to the caller, and the ledger after it.
unfoldable pub record_note : Scene → Bool → LedgerNote → Pipe → Bool × Pipe
record_note e required n w =
    if e.audit_up then (false, record w { ledger = w.ledger ++ (n ∷ []) }) else (required, w)
