-- ===== src/Autonomy/Ladder/Laws.antt =====
-- What the ladder lets act on its own: the three rules that hold at every rung.
use sidestage_copilot.Prelude.{
  ◌≤◌, ◌≡◌, refl, ◌↔◌, ◌⊎◌, Bool, true, false, Option, none, some, arith,
}
use sidestage_copilot.Domain.{
  AutonomyLevel, l3_auto_reply, l4_auto_act, ChatIntent, allow, ActionKind, adjust_stock,
  markdown_price, api,
}
use sidestage_copilot.Autonomy.Ladder.{
  auto_reply_intent, auto_confidence_floor, rung, auto_send, ReplyDecisionInput, decide_reply,
  auto_commit, decide_action,
}

-- The conditions under which the code may act with nobody watching.
pub record MaySend (i : ReplyDecisionInput) : Type 0 where
  pub high_rung : rung l3_auto_reply ≤ rung i.level
  pub allowed : i.verdict ≡ allow
  pub grounded : i.abstained ≡ false
  pub delivered : i.delivery ≡ api
  pub intent : ChatIntent
  pub asked : i.intent ≡ some intent
  pub listed : auto_reply_intent intent ≡ true
  pub confident : auto_confidence_floor ≤ i.confidence

auto_send-MaySend :
    (i : ReplyDecisionInput) (o : Option ChatIntent)
    → i.intent ≡ o
    → decide_reply i ≡ auto_send
    → MaySend i
unfolding decide_reply
auto_send-MaySend i none e h = absurd (ground arith)
auto_send-MaySend i (some t) e h = record {
  high_rung = ground arith;
  allowed = ground arith;
  grounded = ground arith;
  delivered = ground arith;
  intent = t;
  asked = e;
  listed = ground arith;
  confident = ground arith;
}

MaySend-auto_send : (i : ReplyDecisionInput) → MaySend i → decide_reply i ≡ auto_send
unfolding decide_reply
MaySend-auto_send i m = ground arith

-- A reply sends itself exactly when the rung is L3 or above, the guards allowed the draft,
-- retrieval did not abstain, the surface delivers by API, the intent is on the allow list and the
-- confidence is at or above the floor.
pub decide_reply-auto_send_iff : (i : ReplyDecisionInput) → (decide_reply i ≡ auto_send) ↔ MaySend i
decide_reply-auto_send_iff i = (auto_send-MaySend i i.intent refl, MaySend-auto_send i)

-- An action commits itself exactly at L4, for a kind on the list, after a passed preflight.
pub decide_action-auto_commit_iff :
    (level : AutonomyLevel) (kind : ActionKind) (ok : Bool)
    → (decide_action level kind ok ≡ auto_commit)
      ↔ ((ok ≡ true) × (level ≡ l4_auto_act) × ((kind ≡ adjust_stock) ⊎ (kind ≡ markdown_price)))
unfolding decide_action
decide_action-auto_commit_iff level kind ok = ground arith
