-- ===== src/Pipeline/Evict/Laws.antt =====
-- What eviction leaves.
use sidestage_copilot.Prelude.{◌≡◌, refl, ◌⊎◌, inr, String, none, List, [], ◌∷◌, All, arith}
use sidestage_copilot.Dict.{Dict, get, remove}
use sidestage_copilot.Dict.Laws.{get-remove}
use sidestage_copilot.Pipeline.State.{Pipe, ReplyProposal}
use sidestage_copilot.Pipeline.Evict.{victims, forget, evict}

-- Each text of the map stands under the id of its proposal.
abbrev pub IsKeyed : Dict ReplyProposal → Type 0
IsKeyed d = All (λ x. x.0 ≡ x.1.id) d

module _ {V : Type 0} where
  forget-old :
      (ps : List ReplyProposal) (k : String) (d : Dict V)
      → (get k (forget ps d) ≡ none) ⊎ (get k (forget ps d) ≡ get k d)
  unfolding forget
  forget-old [] k d = inr refl
  forget-old (p ∷ ps) k d = ground (arith, forget-old ps k (remove p.id d), get-remove p.id k d)

-- An entry is dropped or as it was.
pub evict-old :
    (k : String) (w : Pipe)
    → (get k (evict w).proposals ≡ none) ⊎ (get k (evict w).proposals ≡ get k w.proposals)
unfolding evict
evict-old k w = ground (arith, forget-old (victims w) k w.proposals)
