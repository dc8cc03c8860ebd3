-- ===== src/Examples/Rules.antt =====
-- What may be proposed, sent and promoted on the show.
use sidestage_copilot.Prelude.{
  ℕ, zero, suc, ◌≤◌, ◌<◌, String, true, false, none, some, [], ◌∷◌, ◌≡◌, ◌⊎◌, ◌↔◌, refl, All, arith,
}
use sidestage_copilot.Prelude.Int.{pos}
use sidestage_copilot.Domain.{
  markdown_price, capabilities_of, ebaylive, allow, l1_suggest, l3_auto_reply, shipping, api,
  discount_request, passed,
}
use sidestage_copilot.Dict.{get}
use sidestage_copilot.Js.{num, whole}
use sidestage_copilot.Catalog.{Listing}
use sidestage_copilot.Autonomy.Ladder.{ReplyDecisionInput, decide_reply, auto_send}
use sidestage_copilot.Autonomy.Ladder.Laws.{MaySend, decide_reply-auto_send_iff}
use sidestage_copilot.Autonomy.Promotion.{ShowReport, promotion_readiness}
use sidestage_copilot.Autonomy.Promotion.Laws.{Earned, promotion_readiness_iff}
use sidestage_copilot.Guardrails.Chain.{Guard, ChainOptions, run_chain}
use sidestage_copilot.Guardrails.Chain.Laws.{Cleared, run_chain-allow_iff, run_chain-confident}
use sidestage_copilot.Actions.Preflight.{PreflightContext, preflight, within_discount}
use sidestage_copilot.Actions.Preflight.Laws.{IsMarkdown, MayPropose, preflight-passed_iff}
use sidestage_copilot.Actions.Proposer.{Signal, Room, ProposedAction, markdown_for}
use sidestage_copilot.Actions.Proposer.Laws.{markdown_for-IsMarkdown}
use sidestage_copilot.Actions.Proposer.Pricing.{markdown_to, median, round_to, cap_floor}
use sidestage_copilot.Actions.Proposer.Pricing.Laws.{markdown_to-bounds}
use sidestage_copilot.Surfaces.Rooms.{posting_in}
use sidestage_copilot.Surfaces.Rooms.Laws.{run_rooms, saves, posting_in_lem}
use sidestage_copilot.Examples.Show.{node, panda, cheaper}

abbrev calm : PreflightContext
calm = record {
  surface = capabilities_of (some ebaylive);
  posting = none;
  read_only_show = false;
  committed_this_show = 0;
  action_budget = 20;
  committed_last_minute = 0;
  rate_per_minute = 6;
}

preflight-passed_iff_example :
    ((preflight node 200000 markdown_price (some panda) cheaper calm).passed ≡ true)
    ↔ MayPropose node 200000 markdown_price (some panda) cheaper calm
preflight-passed_iff_example =
    preflight-passed_iff node 200000 markdown_price (some panda) cheaper calm

abbrev sure : ReplyDecisionInput
sure = record {
  level = l3_auto_reply;
  intent = some shipping;
  verdict = allow;
  confidence = 90;
  abstained = false;
  delivery = api;
}

decide_reply-auto_send_iff_example : (decide_reply sure ≡ auto_send) ↔ MaySend sure
decide_reply-auto_send_iff_example = decide_reply-auto_send_iff sure

abbrev good_night : ShowReport
good_night = record {
  questions_asked = 40;
  sent = 20;
  answered = 30;
  blocked = 0;
  audit_ok = true;
  committed = 4;
  rolled_back = 0;
  edit_rate = some 100;
}

promotion_readiness_iff_example :
    ((promotion_readiness
        (λ a b. true)
        l1_suggest
        true
        (good_night ∷ good_night ∷ good_night ∷ [])).ready
      ≡ true)
    ↔ Earned (λ a b. true) l1_suggest (good_night ∷ good_night ∷ good_night ∷ [])
promotion_readiness_iff_example =
    promotion_readiness_iff (λ a b. true) l1_suggest (good_night ∷ good_night ∷ good_night ∷ [])

-- A guard that throws at 0.
abbrev price_guard : Guard ℕ
price_guard = record {
  name = "price";
  model_only = false;
  run = λ n. elim n [ zero ↦ none | suc m ↦ some passed ];
}

abbrev usual : ChainOptions
usual = record { evidence_quality = some 90; abstained = false; by_human = false }

run_chain-allow_iff_example :
    ((run_chain (price_guard ∷ []) 1 1 usual).verdict ≡ allow)
    ↔ All (Cleared false 1) (price_guard ∷ [])
run_chain-allow_iff_example = run_chain-allow_iff (price_guard ∷ []) 1 1 usual

run_chain-confident_example :
    ((run_chain (price_guard ∷ []) 1 1 usual).verdict ≡ allow) × (0 < 1) × (false ≡ false)
unfolding run_chain
run_chain-confident_example = run_chain-confident (price_guard ∷ []) 1 1 usual (ground arith)

abbrev asked : String → Signal
asked a = record { at = 5; intent = discount_request; listing_id = some "lot1"; author = a }

abbrev room : Room
room = record {
  runtime = node;
  window_ms = 180000;
  discount_threshold = 3;
  swap_threshold = 4;
  discount_cap = 200000;
  listings = ("lot1", panda) ∷ [];
  comps = λ id. 17400 ∷ 17000 ∷ 18900 ∷ [];
  lot_queue = [];
}

suggested : markdown_to 200000 (17400 ∷ 17000 ∷ 18900 ∷ []) panda ≡ some 17500
unfolding markdown_to median round_to cap_floor
suggested = refl

markdown_to-bounds_example :
    (17500 < 20000)
    × (15000 ≤ 17500)
    × (median (17400 ∷ 17000 ∷ 18900 ∷ []) ≤ 17500)
    × (within_discount 200000 20000 17500 ≡ true)
markdown_to-bounds_example =
    markdown_to-bounds 200000 17500 (17400 ∷ 17000 ∷ 18900 ∷ []) panda suggested

abbrev proposal : ProposedAction
proposal = record {
  kind = markdown_price;
  listing_id = "lot1";
  params = ("newPriceCents", num (whole (pos 17500))) ∷ [];
  dedupe_key = "markdown:lot1:v7";
}

three_ask : markdown_for room "lot1" ("ann" ∷ "bo" ∷ "cy" ∷ []) ≡ some proposal
unfolding get markdown_for markdown_to median round_to cap_floor
three_ask = refl

markdown_for-IsMarkdown_example :
    (l : Listing) × (n : ℕ) × (get "lot1" room.listings ≡ some l)
    × (3 ≤ 3)
    × (proposal.params ≡ ("newPriceCents", num (whole (pos n))) ∷ [])
    × ((n ≤ l.cost_cents) ⊎ IsMarkdown 200000 l n)
markdown_for-IsMarkdown_example =
    markdown_for-IsMarkdown room "lot1" ("ann" ∷ "bo" ∷ "cy" ∷ []) proposal three_ask

posting_in_lem_example :
    (posting_in "r/shoes" (
      run_rooms
        (saves 1 "r/shoes" (record { posting = some true; disclosure = none })
          ∷ saves 2 "r/shoes" (record { posting = none; disclosure = some "a copilot" })
          ∷ [])
        [])).enabled
    ≡ true
posting_in_lem_example = posting_in_lem "r/shoes" (
    saves 1 "r/shoes" (record { posting = some true; disclosure = none })
    ∷ saves 2 "r/shoes" (record { posting = none; disclosure = some "a copilot" })
    ∷ [])
