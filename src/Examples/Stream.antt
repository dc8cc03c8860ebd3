-- ===== src/Examples/Stream.antt =====
-- A stream with one question, its reply, and the services of the pipeline.
use sidestage_copilot.Prelude.{String, str_eq, true, false, none, some, [], ◌∷◌, if◌then◌else◌}
use sidestage_copilot.Domain.{
  ebaylive, twitch, shipping, l4_auto_act, allow, human, product_corpus, capabilities_of,
}
use sidestage_copilot.Ingest.Classify.{Lexicon, query}
use sidestage_copilot.Ingest.Bucket.{new_bucket}
use sidestage_copilot.Latency.Spans.{new_tracker}
use sidestage_copilot.Guardrails.Input.{
  TextTools, GuardPolicy, Fact, Draft, GuardInput, from_policy,
}
use sidestage_copilot.Pipeline.Fanout.{idle}
use sidestage_copilot.Pipeline.State.{ChatMessage, ReplyProposal, ready, Pipe, Scene, no_counts}
use sidestage_copilot.Pipeline.Draft.{Attempt, drafted, threw}
use sidestage_copilot.Examples.Show.{panda, chicago}

abbrev pub lexicon : Lexicon
lexicon = record {
  trim = λ t. t;
  size = λ t. 20;
  cue = λ i t. false;
  act = λ a t. elim a [ query ↦ true | _ ↦ false ];
  words = λ t. t ∷ [];
  attribute_words = λ t. [];
  is_laugh = λ t. false;
  is_number = λ t. false;
  is_size = λ t. false;
  has_question_mark = λ t. true;
  opens_as_question = λ t. false;
  bait_always = λ t. false;
  bait_asserted = λ t. false;
  complaint = λ t. false;
}

-- Of these texts, one names a price and one a count.
abbrev pub tools : TextTools
tools = record {
  money = λ t. if str_eq t "I can do $180" then 18000 ∷ [] else [];
  sentences = λ t. t ∷ [];
  terms = λ t. t ∷ [];
  fold = λ t. t;
  lower = λ t. t;
  trim = λ t. t;
  size = λ t. 13;
  includes = λ t p. false;
  declining = λ t. false;
  attributed_to_host = λ t. false;
  asserts_available = λ t. false;
  asserts_sold_out = λ t. false;
  says_last_one = λ t. false;
  stated_counts = λ t. if str_eq t "3 left" then 3 ∷ [] else [];
  asserts_topic = λ k t. false;
  factual = λ t. true;
  non_committal = λ t. false;
  without_vocative = λ t a. t;
  similar = λ s t. true;
  profane = λ t. false;
  uses_markdown = λ t. false;
  uses_emoji = λ t. false;
  letters = λ t. t;
  upper = λ t. "";
  email = λ t. false;
  phone = λ t. false;
  card = λ t. false;
  address = λ t. false;
  quoted = λ t. [];
  prohibited = λ t. [];
}

abbrev pub policy : GuardPolicy
policy = record {
  never_say = [];
  discount_cap = 200000;
  max_reply_chars = 200;
  allow_markdown = false;
  allow_emoji = false;
  hype_phrases = [];
}

abbrev pub fact : Fact
fact = record {
  fact_id = "f1";
  source = from_policy;
  corpus = product_corpus;
  label = "Shipping";
  text = "ships tomorrow";
  field = "shipping";
  listing_id = none;
  listing_version = none;
  numeric_cents = none;
  policy_topic = none;
}

abbrev pub question : ChatMessage
question = record {
  id = "m1";
  author = "ana";
  text = "when does it ship?";
  intent = shipping;
  speech_act = query;
  admitted = true;
  drop_reason = none;
  thread_id = none;
}

abbrev pub scene : Scene
scene = record {
  show_id = "s1";
  now = 1000;
  level = l4_auto_act;
  source = some twitch;
  listings = ("lot1", panda) ∷ ("lot2", chicago) ∷ [];
  constraints = λ m. [];
  tools = tools;
  policy = policy;
  lexicon = lexicon;
  budget = none;
  reply_concurrency = 2;
  window_ms = 60000;
  cache_ttl = 60000;
  cache_size = 100;
  deliver = some (λ m. true);
  audit_up = true;
}

abbrev pub answer : Draft
answer = record {
  answer = "ships tomorrow";
  claims = record { text = "ships tomorrow"; fact_id = "f1" } ∷ [];
  parsed_ok = true;
}

abbrev pub try_once : Attempt
try_once = record {
  scene = scene;
  retrieval = record {
    facts = fact ∷ [];
    evidence = record { fact_id = "f1"; score = 100 } ∷ [];
    slot_ids = [];
    abstain = false;
  };
  host = [];
  asks_market = false;
  card = [];
  key_of = λ e r. "k";
  compose = λ p. drafted answer;
  meanwhile = λ w. w;
  guarded_at = scene;
  repair = threw;
  repaired_at = scene;
  finished_at = scene;
  total_ms = 800;
}

abbrev pub waiting_reply : ReplyProposal
waiting_reply = record {
  id = "prop_m1";
  message = question;
  status = ready;
  draft = "ships tomorrow";
  claims = [];
  evidence = [];
  guards = [];
  verdict = allow;
  confidence = 90;
  repaired = false;
  delivery = human;
  created_at = 1000;
  sent_text = none;
}

abbrev pub pipe : Pipe
pipe = record {
  rate = new_bucket 10 1000;
  signals = [];
  fanout = idle;
  stopped = false;
  proposals = [];
  grounding = [];
  cache = [];
  latency = new_tracker 2000 100;
  seen_action_keys = [];
  counters = no_counts;
  ledger = [];
  outbox = [];
}

abbrev pub answered : Pipe
answered = record pipe { proposals = ("prop_m1", waiting_reply) ∷ [] }

-- A reply about a listing, on a surface with a catalog.
abbrev pub about : String → GuardInput
about text = record {
  tools = tools;
  policy = policy;
  draft = record answer { answer = text };
  question = "how much for the panda";
  asker = some "ana";
  facts = fact ∷ [];
  current_listings = ("lot1", panda) ∷ [];
  slot_ids = "lot1" ∷ [];
  has_slots = true;
  surface = capabilities_of (some ebaylive);
  community = [];
}
