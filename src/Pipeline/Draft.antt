-- ===== src/Pipeline/Draft.antt =====
-- `draft` and `regenerate` of src/pipeline/pipeline.ts: retrieval, the cache, the composer, the
-- guards, one repair and three retries. The retriever, the host's speech, the research card and the
-- composer are parameters, one value for each attempt; so is what other calls do to the state while
-- the composer is awaited. What throws outside the `try` is left out but for the ledger.
pub mod Compose
pub mod Laws
pub mod Safety
pub mod Settles
unfoldable pub use Compose.*
use sidestage_copilot.Prelude.{
  ℕ, zero, suc, ◌+◌, String, str_eq, str_append, Bool, true, false, not, ◌&&◌, ◌||◌, Option, none,
  some, List, [], ◌∷◌, ◌++◌, if◌then◌else◌, any, is_some, length,
}
use sidestage_copilot.Dict.{Dict, get, put}
use sidestage_copilot.Domain.{
  Verdict, allow, revise, asks_revision, block, capabilities_of, comparison, ChatIntent,
}
use sidestage_copilot.Latency.Cache.{CachedReply, Entry, lookup, store}
use sidestage_copilot.Guardrails.Input.{Fact, Draft, GuardInput}
use sidestage_copilot.Guardrails.Chain.{GuardResult, ChainOptions, ChainResult, run_chain}
use sidestage_copilot.Guardrails.Guards.{guards}
use sidestage_copilot.Pipeline.State.{
  Scene, Pipe, Counters, ChatMessage, Composed, Evidence, ReplyProposal, Grounding, ProposalStatus,
  drafting, delivery_for, constraints_of,
}
use sidestage_copilot.Pipeline.Finish.{Outcome, returned, unrecorded, Spans, finish}
use sidestage_copilot.Pipeline.Evict.{evict}

abbrev cache_key_of : Attempt → ChatMessage → String
cache_key_of a msg = a.key_of (grounded a msg).evidence (rules_for a msg)

-- A regenerate and a message of a thread are not answered from the cache.
unfoldable pub from_cache :
    Attempt
    → ChatMessage
    → Option String
    → Pipe
    → Dict (Entry Composed) × Option (CachedReply Composed)
from_cache a msg previous w =
    if is_some previous || is_some msg.thread_id
    then (w.cache, none)
    else lookup a.scene.cache_ttl a.scene.now (cache_key_of a msg) w.cache

abbrev pub keep_grounding : Attempt → ChatMessage → Pipe → Pipe
keep_grounding a msg w = record w {
  grounding =
      put (opened a msg).id
        (record {
          facts = (grounded a msg).facts;
          slot_ids = (grounded a msg).slot_ids;
          evidence_quality = quality (grounded a msg).evidence;
        })
        w.grounding;
}

abbrev pub keep_reply : Attempt → ChatMessage → Composed → Pipe → Pipe
keep_reply a msg c w = if is_some msg.thread_id then w else record w {
  cache =
      store a.finished_at.cache_size a.finished_at.now (cache_key_of a msg)
        (record { answer = c; verdict = c.verdict }) w.cache;
}

-- The result of `drafting failed`, which leaves the reply to the operator.
unfoldable pub give_up : Attempt → ChatMessage → Pipe → Pipe
give_up a msg w = record w {
  proposals =
      put (opened a msg).id
        (record (opened a msg) {
          status = ProposalStatus.needs_review;
          verdict = revise;
          guards = record { guard = "claim_grounding"; verdict = asks_revision } ∷ [];
        })
        w.proposals;
}

-- A ledger that fails a required entry throws into the `catch`.
abbrev pub after_finish : Attempt → ChatMessage → Outcome × Pipe → Pipe
after_finish a msg (returned p, w) = evict w
after_finish a msg (_, w) = give_up a msg w

unfoldable pub conclude : Attempt → ChatMessage → Composed → Pipe → Pipe
unfolding give_up
conclude a msg c w = after_finish a msg (
    finish a.finished_at (opened a msg) c (record { total_ms = a.total_ms; cache_hit = false }) msg
      (keep_reply a msg c w))

-- What an attempt comes to: it is over, or it is to be tried again.
pub data Ended : Type 0 where
  over again : Pipe → Ended

abbrev pub on_composing : Attempt → ChatMessage → Composing → Pipe → Ended
on_composing a msg (made c) w = over (conclude a msg c w)
on_composing a msg limited w = again w
on_composing a msg failed w = over (give_up a msg w)

abbrev pub on_reached : Attempt → ChatMessage → ComposeOutcome → Pipe → Ended
on_reached a msg (drafted d) w =
    on_composing a msg (guard_and_repair a msg d) (keep_grounding a msg w)
on_reached a msg rate_limited w = again w
on_reached a msg threw w = over (give_up a msg w)

-- The cached result is finished outside the `try`, and nothing is evicted after it.
abbrev pub on_lookup :
    Attempt → ChatMessage → Option String → Option (CachedReply Composed) → Pipe → Ended
on_lookup a msg previous (some c) w =
    over
      (finish a.finished_at (opened a msg) c.answer
        (record { total_ms = a.total_ms; cache_hit = true }) msg w).1
on_lookup a msg previous none w = on_reached a msg (a.compose previous) (a.meanwhile w)

unfoldable pub attempt : Attempt → ChatMessage → Option String → Pipe → Ended
unfolding conclude give_up
attempt a msg previous w =
    let w' = open_proposal a msg previous w in
    let (cache, hit) = from_cache a msg previous w' in
    on_lookup a msg previous hit (record w' { cache = cache })

-- `previous ?? proposal.id`
abbrev pub previous_or_id : Option String → ReplyProposal → Option String
previous_or_id none p = some p.id
previous_or_id (some t) p = some t

-- With `left` retries: the attempt is `3 - left`.
unfoldable pub draft_from : (ℕ → Attempt) → ℕ → ℕ → ChatMessage → Option String → Pipe → Pipe
unfolding attempt
draft_from tries zero n msg previous w =
    if w.stopped then w else elim (attempt (tries n) msg previous w) [
      | over w' ↦ w'
      | again w' ↦ give_up (tries n) msg w'
    ]
draft_from tries (suc left) n msg previous w =
    if w.stopped then w else elim (attempt (tries n) msg previous w) [
      | over w' ↦ w'
      | again w' ↦
          draft_from tries left (suc n) msg (previous_or_id previous (opened (tries n) msg)) w'
    ]

abbrev pub max_retries : ℕ
max_retries = 3

unfoldable pub draft : (ℕ → Attempt) → ChatMessage → Option String → Pipe → Pipe
unfolding draft_from
draft tries msg previous w = draft_from tries max_retries 0 msg previous w

-- `p.draft || undefined`
abbrev given_draft : String → Option String
given_draft text = if str_eq text "" then none else some text

unfoldable pub regenerate : (ℕ → Attempt) → String → Pipe → Option Pipe
unfolding draft
regenerate tries id w = elim (get id w.proposals) [
  | none ↦ none
  | some p ↦ some (draft tries p.message (given_draft p.draft) w)
]
