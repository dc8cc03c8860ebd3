-- ===== src/Domain.antt =====
-- src/domain/types.ts and the capability rows of src/surfaces/types.ts: the vocabulary that the
-- components share.
use sidestage_copilot.Prelude.{
  ℕ, Bool, true, false, Option, none, some, List, [], ◌∷◌, if◌then◌else◌, ◌==◌, ◌≡◌, ◌≢◌, ◌↔◌,
  arith,
}

pub data AutonomyLevel : Type 0 where
  l0_observe l1_suggest l2_one_tap l3_auto_reply l4_auto_act : AutonomyLevel

pub data ChatIntent : Type 0 where
  price_question availability sizing shipping returns : ChatIntent
  authenticity comparison discount_request hype other : ChatIntent

pub data Verdict : Type 0 where
  allow revise block : Verdict

-- `Verdict | "n/a"` of a guard's own result
pub data GuardVerdict : Type 0 where
  passed asks_revision blocks not_applicable : GuardVerdict

-- What sending does on this show: `"api" | "human"`.
pub data ReplyDelivery : Type 0 where
  api human : ReplyDelivery

pub data ActionKind : Type 0 where
  push_listing swap_pinned markdown_price adjust_stock end_listing : ActionKind
  create_clip mark_highlight run_poll shoutout pin_message : ActionKind
  post_reply send_dm flag_for_human : ActionKind

pub data ActionStatus : Type 0 where
  proposed preflight_failed approved committing : ActionStatus
  committed failed rolled_back rejected : ActionStatus

pub data ListingState : Type 0 where
  draft queued live ended : ListingState

abbrev kind_code : ActionKind → ℕ
kind_code push_listing = 0
kind_code swap_pinned = 1
kind_code markdown_price = 2
kind_code adjust_stock = 3
kind_code end_listing = 4
kind_code create_clip = 5
kind_code mark_highlight = 6
kind_code run_poll = 7
kind_code shoutout = 8
kind_code pin_message = 9
kind_code post_reply = 10
kind_code send_dm = 11
kind_code flag_for_human = 12

-- `kinds.includes(kind)`, `set.has(kind)`
abbrev pub includes : List ActionKind → ActionKind → Bool
includes [] k = false
includes (x ∷ xs) k = if kind_code x == kind_code k then true else includes xs k

abbrev pub is_ended : ListingState → Bool
is_ended ended = true
is_ended _ = false

abbrev pub is_committed : ActionStatus → Bool
is_committed committed = true
is_committed _ = false

abbrev pub is_rolled_back : ActionStatus → Bool
is_rolled_back rolled_back = true
is_rolled_back _ = false

pub is_committed_iff : (s : ActionStatus) → (is_committed s ≡ true) ↔ (s ≡ committed)
is_committed_iff s = ground arith

pub ne_committed : (s : ActionStatus) → s ≢ committed → is_committed s ≡ false
ne_committed s h = ground arith

pub data SurfaceId : Type 0 where
  simulated ebaylive whatnot tiktoklive twitch youtubelive reddit dm : SurfaceId

pub data CorpusKind : Type 0 where
  listing_corpus policy_corpus qa_corpus community_corpus : CorpusKind
  schedule_corpus sponsor_corpus product_corpus : CorpusKind

pub data SurfaceDelivery : Type 0 where
  by_api draft_only : SurfaceDelivery

-- `tempo` and `perception` are read by no definition of this development.
pub record SurfaceCapabilities : Type 0 where
  pub delivery : SurfaceDelivery
  pub actions : List ActionKind
  pub corpora : List CorpusKind
  pub community_rules : Bool

abbrev pub delivers : SurfaceDelivery → Bool
delivers by_api = true
delivers draft_only = false

abbrev pub ebaylive_capabilities : SurfaceCapabilities
ebaylive_capabilities = record {
  delivery = draft_only;
  actions = push_listing ∷ swap_pinned ∷ markdown_price ∷ adjust_stock ∷ end_listing ∷ [];
  corpora = listing_corpus ∷ policy_corpus ∷ qa_corpus ∷ community_corpus ∷ [];
  community_rules = false;
}

abbrev pub scraped_live_capabilities : SurfaceCapabilities
scraped_live_capabilities = record {
  delivery = draft_only;
  actions = mark_highlight ∷ flag_for_human ∷ [];
  corpora = listing_corpus ∷ policy_corpus ∷ qa_corpus ∷ [];
  community_rules = false;
}

abbrev twitch_capabilities : SurfaceCapabilities
twitch_capabilities = record {
  delivery = by_api;
  actions = create_clip ∷ mark_highlight ∷ run_poll ∷ shoutout ∷ pin_message ∷ post_reply ∷ [];
  corpora = schedule_corpus ∷ sponsor_corpus ∷ product_corpus ∷ qa_corpus ∷ community_corpus ∷ [];
  community_rules = true;
}

abbrev youtubelive_capabilities : SurfaceCapabilities
youtubelive_capabilities = record {
  delivery = by_api;
  actions = mark_highlight ∷ pin_message ∷ post_reply ∷ [];
  corpora = schedule_corpus ∷ sponsor_corpus ∷ product_corpus ∷ qa_corpus ∷ community_corpus ∷ [];
  community_rules = true;
}

abbrev reddit_capabilities : SurfaceCapabilities
reddit_capabilities = record {
  delivery = draft_only;
  actions = flag_for_human ∷ [];
  corpora = product_corpus ∷ policy_corpus ∷ qa_corpus ∷ community_corpus ∷ [];
  community_rules = true;
}

abbrev dm_capabilities : SurfaceCapabilities
dm_capabilities = record {
  delivery = draft_only;
  actions = send_dm ∷ flag_for_human ∷ [];
  corpora = listing_corpus ∷ policy_corpus ∷ product_corpus ∷ qa_corpus ∷ [];
  community_rules = false;
}

-- `SURFACE_CAPABILITIES[id]`; an id that is absent or unknown answers as eBay Live.
unfoldable pub capabilities_of : Option SurfaceId → SurfaceCapabilities
capabilities_of none = ebaylive_capabilities
capabilities_of (some simulated) = ebaylive_capabilities
capabilities_of (some ebaylive) = ebaylive_capabilities
capabilities_of (some whatnot) = scraped_live_capabilities
capabilities_of (some tiktoklive) = scraped_live_capabilities
capabilities_of (some twitch) = twitch_capabilities
capabilities_of (some youtubelive) = youtubelive_capabilities
capabilities_of (some reddit) = reddit_capabilities
capabilities_of (some dm) = dm_capabilities
