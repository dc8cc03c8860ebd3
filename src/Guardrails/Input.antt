-- ===== src/Guardrails/Input.antt =====
-- What a guard reads: src/guardrails/types.ts, with the facts of src/retrieval/facts.ts, the draft of
-- src/compose/composer.ts and the seller's policy of src/guardrails/policy.ts. The regular
-- expressions, and the language's own operations on text, are parameters.
use sidestage_copilot.Prelude.{
  ℕ, String, Bool, true, false, not, Option, List, none, some, [], ◌∷◌, if◌then◌else◌, str_eq, ◌==◌,
}
use sidestage_copilot.Dict.{Dict}
use sidestage_copilot.Domain.{SurfaceCapabilities, CorpusKind}
use sidestage_copilot.Catalog.{Listing}

pub data EvidenceSource : Type 0 where
  from_listing from_policy from_catalog from_qa : EvidenceSource
  from_market from_host from_persona : EvidenceSource

-- `field` is one of the fixed names of `FactField`.
pub record Fact : Type 0 where
  pub fact_id : String
  pub source : EvidenceSource
  pub corpus : CorpusKind
  pub label : String
  pub text : String
  pub field : String
  pub listing_id : Option String
  pub listing_version : Option ℕ
  pub numeric_cents : Option ℕ
  pub policy_topic : Option String

pub record Claim : Type 0 where
  pub text : String
  pub fact_id : String

pub record Draft : Type 0 where
  pub answer : String
  pub claims : List Claim
  pub parsed_ok : Bool

-- A rule of `neverSay` with its compiled matcher.
pub record NeverSay : Type 0 where
  pub hits : String → Bool
  pub unless_certified : Bool

pub record GuardPolicy : Type 0 where
  pub never_say : List NeverSay
  pub discount_cap : ℕ
  pub max_reply_chars : ℕ
  pub allow_markdown : Bool
  pub allow_emoji : Bool
  pub hype_phrases : List String

-- The expressions of src/guardrails/guards.ts by their names there, and what it calls on text.
pub record TextTools : Type 0 where
  pub money : String → List ℕ
  pub sentences : String → List String
  pub terms : String → List String
  pub fold : String → String
  pub lower : String → String
  pub trim : String → String
  pub size : String → ℕ
  pub includes : String → String → Bool
  pub declining : String → Bool
  pub attributed_to_host : String → Bool
  pub asserts_available : String → Bool
  pub asserts_sold_out : String → Bool
  pub says_last_one : String → Bool
  pub stated_counts : String → List ℕ
  pub asserts_topic : String → String → Bool
  pub factual : String → Bool
  pub non_committal : String → Bool
  pub without_vocative : String → Option String → String
  -- `cosine(ngramVector(a), ngramVector(b)) >= 0.18`
  pub similar : String → String → Bool
  pub profane : String → Bool
  pub uses_markdown : String → Bool
  pub uses_emoji : String → Bool
  pub letters : String → String
  pub upper : String → String
  pub email : String → Bool
  pub phone : String → Bool
  pub card : String → Bool
  pub address : String → Bool
  -- of a rule's text: what it quotes, trimmed and in lower case, and the words behind each of its prohibitions
  pub quoted : String → List String
  pub prohibited : String → List (List String)

pub record GuardInput : Type 0 where
  pub tools : TextTools
  pub policy : GuardPolicy
  pub draft : Draft
  pub question : String
  pub asker : Option String
  pub facts : List Fact
  pub current_listings : Dict Listing
  -- `slots.listingIds`; a reply of which no grounding was kept is given slots without that field
  pub slot_ids : List String
  pub has_slots : Bool
  pub surface : SurfaceCapabilities
  pub community : List Fact

abbrev corpus_code : CorpusKind → ℕ
corpus_code CorpusKind.listing_corpus = 0
corpus_code CorpusKind.policy_corpus = 1
corpus_code CorpusKind.qa_corpus = 2
corpus_code CorpusKind.community_corpus = 3
corpus_code CorpusKind.schedule_corpus = 4
corpus_code CorpusKind.sponsor_corpus = 5
corpus_code CorpusKind.product_corpus = 6

abbrev pub same_corpus : CorpusKind → CorpusKind → Bool
same_corpus a b = corpus_code a == corpus_code b

abbrev in_corpora : CorpusKind → List CorpusKind → Bool
in_corpora k [] = false
in_corpora k (c ∷ cs) = if same_corpus c k then true else in_corpora k cs

-- `hasCorpus(surface, kind)`
abbrev pub has_corpus : SurfaceCapabilities → CorpusKind → Bool
has_corpus caps kind = in_corpora kind caps.corpora

abbrev found : Option String → Bool
found none = false
found (some s) = not (str_eq s "")

-- `Boolean(xs.find(p))`: an empty text that is found counts as none.
abbrev first_hit : (String → Bool) → List String → Option String
first_hit p [] = none
first_hit p (x ∷ xs) = if p x then some x else first_hit p xs

abbrev pub finds : (String → Bool) → List String → Bool
finds p xs = found (first_hit p xs)

-- `Boolean(s)` of a text that may be absent
abbrev pub is_given : Option String → Bool
is_given s = found s

-- `factById.get(id)`: of the facts with one id, the map keeps the last.
abbrev pub fact_by_id : String → List Fact → Option Fact
fact_by_id id [] = none
fact_by_id id (f ∷ fs) = elim (fact_by_id id fs) [
  | some g ↦ some g
  | none ↦ if str_eq f.fact_id id then some f else none
]
