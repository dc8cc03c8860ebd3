-- ===== src/Pipeline/Evict.antt =====
-- `evict` of src/pipeline/pipeline.ts: settled replies beyond the newest 400 are dropped.
pub mod Laws
use sidestage_copilot.Prelude.{
  ℕ, zero, suc, ◌-◌, String, Bool, true, false, List, [], ◌∷◌, if◌then◌else◌, ltb, leb, length,
  take,
}
use sidestage_copilot.Dict.{Dict, remove, size}
use sidestage_copilot.Pipeline.State.{
  Pipe, ReplyProposal, Grounding, ProposalStatus, sent, auto_sent, dismissed,
}

abbrev pub most_proposals : ℕ
most_proposals = 400

abbrev pub most_keys : ℕ
most_keys = 2000

abbrev kept_keys : ℕ
kept_keys = 1000

abbrev pub is_settled : ProposalStatus → Bool
is_settled sent = true
is_settled auto_sent = true
is_settled dismissed = true
is_settled ProposalStatus.blocked = true
is_settled _ = false

abbrev pub settled_of : Dict ReplyProposal → List ReplyProposal
settled_of [] = []
settled_of ((k, p) ∷ d) = let rest = settled_of d in if is_settled p.status then p ∷ rest else rest

abbrev insert_by_age : ReplyProposal → List ReplyProposal → List ReplyProposal
insert_by_age p [] = p ∷ []
insert_by_age p (q ∷ qs) =
    let rest = insert_by_age p qs in if leb p.created_at q.created_at then p ∷ q ∷ qs else q ∷ rest

-- The oldest first, those of one moment in their order.
abbrev pub by_age : List ReplyProposal → List ReplyProposal
by_age [] = []
by_age (p ∷ ps) = insert_by_age p (by_age ps)

unfoldable pub forget {ℓ} : {V : Type ℓ} → List ReplyProposal → Dict V → Dict V
forget [] d = d
forget (p ∷ ps) d = forget ps (remove p.id d)

abbrev drop_first : ℕ → List String → List String
drop_first zero xs = xs
drop_first (suc n) [] = []
drop_first (suc n) (x ∷ xs) = drop_first n xs

-- `[...keys].slice(-1000)`
abbrev newest_keys : List String → List String
newest_keys ks = if ltb most_keys (length ks) then drop_first (length ks - kept_keys) ks else ks

abbrev pub victims : Pipe → List ReplyProposal
victims w = take (size w.proposals - most_proposals) (by_age (settled_of w.proposals))

unfoldable pub evict : Pipe → Pipe
unfolding forget
evict w = if leb (size w.proposals) most_proposals then w else record w {
  proposals = forget (victims w) w.proposals;
  grounding = forget (victims w) w.grounding;
  seen_action_keys = newest_keys w.seen_action_keys;
}
