-- ===== src/Autonomy/Ladder.antt =====
-- src/autonomy/ladder.ts. A confidence is an integer number of hundredths, the two decimals that
-- `confidenceOf` rounds to; the explanations that go with a decision are not modelled.
pub mod Laws
use sidestage_copilot.Prelude.{
  ℕ, Bool, true, false, not, ◌||◌, Option, none, some, List, [], ◌∷◌, if◌then◌else◌, ltb, leb,
}
use sidestage_copilot.Domain.{
  AutonomyLevel, l0_observe, l1_suggest, l2_one_tap, l3_auto_reply, l4_auto_act, ChatIntent,
  shipping, returns, sizing, authenticity, availability, Verdict, allow, revise, block,
  ReplyDelivery, api, human, ActionKind, adjust_stock, markdown_price, includes,
}

-- `AUTO_REPLY_INTENTS.has(intent)`
unfoldable pub auto_reply_intent : ChatIntent → Bool
auto_reply_intent shipping = true
auto_reply_intent returns = true
auto_reply_intent sizing = true
auto_reply_intent authenticity = true
auto_reply_intent availability = true
auto_reply_intent _ = false

abbrev pub auto_act_kinds : List ActionKind
auto_act_kinds = adjust_stock ∷ markdown_price ∷ []

-- 0.8
abbrev pub auto_confidence_floor : ℕ
auto_confidence_floor = 80

abbrev pub ladder : List AutonomyLevel
ladder = l0_observe ∷ l1_suggest ∷ l2_one_tap ∷ l3_auto_reply ∷ l4_auto_act ∷ []

-- `LADDER.indexOf(l)`
abbrev pub rung : AutonomyLevel → ℕ
rung l0_observe = 0
rung l1_suggest = 1
rung l2_one_tap = 2
rung l3_auto_reply = 3
rung l4_auto_act = 4

pub data ReplyDisposition : Type 0 where
  drop suggest needs_review blocked auto_send : ReplyDisposition

pub record ReplyDecisionInput : Type 0 where
  pub level : AutonomyLevel
  pub intent : Option ChatIntent
  pub verdict : Verdict
  pub confidence : ℕ
  pub abstained : Bool
  pub delivery : ReplyDelivery

abbrev observes : AutonomyLevel → Bool
observes l0_observe = true
observes _ = false

abbrev is_block : Verdict → Bool
is_block block = true
is_block _ = false

abbrev is_revise : Verdict → Bool
is_revise revise = true
is_revise _ = false

abbrev delivered_by_us : ReplyDelivery → Bool
delivered_by_us api = true
delivered_by_us human = false

abbrev allow_listed : Option ChatIntent → Bool
allow_listed none = false
allow_listed (some i) = auto_reply_intent i

unfoldable pub decide_reply : ReplyDecisionInput → ReplyDisposition
unfolding auto_reply_intent
decide_reply i =
    if observes i.level
    then drop
    else if is_block i.verdict
    then blocked
    else if i.abstained
    then needs_review
    else if is_revise i.verdict
    then needs_review
    else if leb (rung l3_auto_reply) (rung i.level)
    then (if not (delivered_by_us i.delivery)
        then suggest
        else if not (allow_listed i.intent)
        then needs_review
        else if ltb i.confidence auto_confidence_floor
        then needs_review
        else auto_send)
    else suggest

pub data ActionDisposition : Type 0 where
  propose_only auto_commit : ActionDisposition

unfoldable pub decide_action : AutonomyLevel → ActionKind → Bool → ActionDisposition
decide_action level kind preflight_ok =
    if not preflight_ok
    then propose_only
    else if ltb (rung level) (rung l4_auto_act)
    then propose_only
    else if not (includes auto_act_kinds kind)
    then propose_only
    else auto_commit
