-- ===== src/Pipeline/Draft/Compose.antt =====
-- One attempt of `draft` up to its result: what is retrieved, the opened card, the guards over the
-- draft and its one repair.
use sidestage_copilot.Prelude.{
  ℕ, ◌+◌, String, str_eq, str_append, Bool, true, false, ◌||◌, Option, none, some, List, [], ◌∷◌,
  ◌++◌, if◌then◌else◌, any, is_some, length,
}
use sidestage_copilot.Dict.{put}
use sidestage_copilot.Domain.{Verdict, allow, revise, capabilities_of, comparison, ChatIntent}
use sidestage_copilot.Guardrails.Input.{Fact, Draft, GuardInput}
use sidestage_copilot.Guardrails.Chain.{ChainOptions, ChainResult, run_chain}
use sidestage_copilot.Guardrails.Guards.{guards}
use sidestage_copilot.Pipeline.State.{
  Scene, Pipe, ChatMessage, Composed, Evidence, ReplyProposal, drafting, delivery_for,
  constraints_of,
}

pub record Retrieval : Type 0 where
  pub facts : List Fact
  pub evidence : List Evidence
  pub slot_ids : List String
  pub abstain : Bool

-- The composer's answer; a rate limit is an `LlmError` that says so, and any other error is `threw`.
pub data ComposeOutcome : Type 0 where
  drafted : Draft → ComposeOutcome
  rate_limited threw : ComposeOutcome

-- What one attempt reads, in its order.
pub record Attempt : Type 0 where
  pub scene : Scene
  pub retrieval : Retrieval
  pub host : List Fact
  pub asks_market : Bool
  pub card : List (Fact × ℕ)
  pub key_of : List Evidence → List Fact → String
  pub compose : Option String → ComposeOutcome
  pub meanwhile : Pipe → Pipe
  pub guarded_at : Scene
  pub repair : ComposeOutcome
  pub repaired_at : Scene
  pub finished_at : Scene
  pub total_ms : ℕ

-- `facts.some((x) => x.factId === id)`
abbrev pub holds_fact : String → List Fact → Bool
holds_fact id fs = any (λ f. str_eq f.fact_id id) fs

abbrev with_fact : Fact → ℕ → Retrieval → Retrieval
with_fact f score r = record r {
  facts = r.facts ++ (f ∷ []);
  evidence = r.evidence ++ (record { fact_id = f.fact_id; score = score } ∷ []);
}

-- 0.6
abbrev host_score : ℕ
host_score = 60

unfoldable pub push_host : List Fact → Retrieval → Retrieval
push_host [] r = r
push_host (f ∷ fs) r =
    push_host fs (if holds_fact f.fact_id r.facts then r else with_fact f host_score r)

-- `addHostFacts`: what the host just said ends an abstention.
unfoldable pub add_host_facts : List Fact → Retrieval → Retrieval
unfolding push_host
add_host_facts [] r = r
add_host_facts (f ∷ fs) r = record (push_host (f ∷ fs) r) { abstain = false }

abbrev is_comparison : ChatIntent → Bool
is_comparison comparison = true
is_comparison _ = false

abbrev unseen : List Fact → List (Fact × ℕ) → List (Fact × ℕ)
unseen already [] = []
unseen already ((f, s) ∷ fs) =
    let rest = unseen already fs in if holds_fact f.fact_id already then rest else (f, s) ∷ rest

-- `researchGrounding`, where the second test of the question is `asks_market`.
unfoldable pub research_grounding : Attempt → ChatMessage → List Fact → List (Fact × ℕ)
research_grounding a msg already =
    if is_comparison msg.intent || a.asks_market then unseen already a.card else []

abbrev push_market : List (Fact × ℕ) → Retrieval → Retrieval
push_market [] r = r
push_market ((f, s) ∷ fs) r = push_market fs (with_fact f s r)

unfoldable pub grounded : Attempt → ChatMessage → Retrieval
unfolding add_host_facts research_grounding
grounded a msg =
    let r = add_host_facts a.host a.retrieval in push_market (research_grounding a msg r.facts) r

abbrev pub rules_for : Attempt → ChatMessage → List Fact
rules_for a msg = constraints_of (a.scene.constraints msg) (grounded a msg).facts

abbrev pub opened : Attempt → ChatMessage → ReplyProposal
opened a msg = record {
  id = str_append "prop_" msg.id;
  message = msg;
  status = drafting;
  draft = "";
  claims = [];
  evidence = [];
  guards = [];
  verdict = allow;
  confidence = 0;
  repaired = false;
  delivery = delivery_for a.scene;
  created_at = a.scene.now;
  sent_text = none;
}

-- A proposal that replaces another is not counted again.
abbrev pub open_proposal : Attempt → ChatMessage → Option String → Pipe → Pipe
open_proposal a msg previous w = record w {
  proposals = put (opened a msg).id (opened a msg) w.proposals;
  counters = record w.counters {
    proposals = if is_some previous then w.counters.proposals else w.counters.proposals + 1;
  };
}

abbrev pub quality : List Evidence → ℕ
quality [] = 0
quality (e ∷ es) = e.score

abbrev pub guard_input : Scene → ChatMessage → List Fact → Retrieval → Draft → GuardInput
guard_input e msg rules r d = record {
  tools = e.tools;
  policy = e.policy;
  draft = d;
  question = msg.text;
  asker = some msg.author;
  facts = r.facts;
  current_listings = e.listings;
  slot_ids = r.slot_ids;
  has_slots = true;
  surface = capabilities_of e.source;
  community = rules;
}

abbrev pub chain_options : Retrieval → ChainOptions
chain_options r = record {
  evidence_quality = some (quality r.evidence);
  abstained = r.abstain;
  by_human = false;
}

unfoldable pub checked : Scene → ChatMessage → List Fact → Retrieval → Draft → ChainResult
checked e msg rules r d =
    run_chain guards (guard_input e msg rules r d) (length d.claims) (chain_options r)

abbrev none_cited : Draft → List Evidence → List Evidence
none_cited d es = elim d.claims [ [] ↦ [] | c ∷ cs ↦ es ]

abbrev no_evidence : List Evidence → Bool
no_evidence [] = true
no_evidence (e ∷ es) = false

abbrev pub composed : Retrieval → Draft → ChainResult → Bool → Composed
composed r d chain repaired = record {
  answer = d.answer;
  claims = d.claims;
  evidence = none_cited d r.evidence;
  groundless = no_evidence r.evidence;
  guards = chain.guards;
  verdict = chain.verdict;
  confidence = chain.confidence;
  repaired = repaired;
}

-- What composing comes to: a result, or one of the two errors.
pub data Composing : Type 0 where
  made : Composed → Composing
  limited failed : Composing

abbrev pub repaired_to : Attempt → ChatMessage → ComposeOutcome → Composing
repaired_to a msg (drafted d) = made (
    composed (grounded a msg) d (checked a.repaired_at msg (rules_for a msg) (grounded a msg) d)
      true)
repaired_to a msg rate_limited = limited
repaired_to a msg threw = failed

abbrev pub by_verdict : Attempt → ChatMessage → Draft → ChainResult → Verdict → Composing
by_verdict a msg d chain revise = repaired_to a msg a.repair
by_verdict a msg d chain _ = made (composed (grounded a msg) d chain false)

-- The guards over the draft, and exactly one repair, for `revise` only.
unfoldable pub guard_and_repair : Attempt → ChatMessage → Draft → Composing
guard_and_repair a msg d =
    let chain = checked a.guarded_at msg (rules_for a msg) (grounded a msg) d in
    by_verdict a msg d chain chain.verdict
