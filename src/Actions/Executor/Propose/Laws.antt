-- ===== src/Actions/Executor/Propose/Laws.antt =====
-- A proposal is made once for each intent against a version of a listing.
use sidestage_copilot.Prelude.{true, String, str_refl, ◌≡◌, ◌≢◌, none, some, [], ◌∷◌, arith}
use sidestage_copilot.Domain.{ActionKind, committed, rolled_back}
use sidestage_copilot.Dict.{Dict, get, put}
use sidestage_copilot.Actions.Port.{Params}
use sidestage_copilot.Actions.Preflight.{PreflightResult}
use sidestage_copilot.Actions.Preflight.Keys.{idempotency_key}
use sidestage_copilot.Actions.Store.{Action, by_idempotency_key, committed_this_show}
use sidestage_copilot.Actions.Executor.State.{World, Env, version_of}
use sidestage_copilot.Actions.Executor.Propose.{new_action, pre_of, checked, propose}

by_idempotency_key-put :
    (id : String) (a : Action) (d : Dict Action)
    → get id d ≡ none
    → by_idempotency_key a.idempotency_key d ≡ none
    → by_idempotency_key a.idempotency_key (put id a d) ≡ some a
unfolding get put by_idempotency_key
by_idempotency_key-put id a [] free new = ground (arith, str_refl a.idempotency_key)
by_idempotency_key-put id a ((j, b) ∷ d) free new = ground (arith, by_idempotency_key-put id a d)

committed_this_show-put :
    (id : String) (a : Action) (d : Dict Action)
    → get id d ≡ none
    → a.status ≢ committed
    → a.status ≢ rolled_back
    → committed_this_show (put id a d) ≡ committed_this_show d
unfolding get put committed_this_show
committed_this_show-put id a [] free c r = ground arith
committed_this_show-put id a ((j, b) ∷ d) free c r = ground (arith, committed_this_show-put id a d)

module _ {S : Type 0} (e : Env) (id id' : String) (kind : ActionKind) (listing_id : String)
    (params : Params) (w : World S) (free : get id w.actions ≡ none) (writes : e.marks ≡ true)
    (notes : e.audit_up ≡ true) where
  -- A proposal counts for nothing in the budget of the show, so its preflight stays what it was.
  pre_of-checked :
      (pre : PreflightResult)
      → pre_of e kind listing_id params (checked e id kind listing_id params pre w).1
        ≡ pre_of e kind listing_id params w
  unfolding pre_of checked
  pre_of-checked pre =
      let a =
        new_action id kind listing_id params pre
          (idempotency_key e.runtime kind listing_id (version_of pre.before) params) in
      ground (arith, committed_this_show-put id a w.actions free)

  checked_again :
      (pre : PreflightResult)
      → checked e id' kind listing_id params pre (checked e id kind listing_id params pre w).1
        ≡ checked e id kind listing_id params pre w
  unfolding checked
  checked_again pre =
      let a =
        new_action id kind listing_id params pre
          (idempotency_key e.runtime kind listing_id (version_of pre.before) params) in
      ground (arith, by_idempotency_key-put id a w.actions free)

-- While the database takes the writes, a proposal is made at most once: to propose the same intent again, at once and under another
-- identifier, returns the action that the first call returned and changes nothing.
pub propose_again :
    {S : Type 0} (e : Env) (id id' : String) (kind : ActionKind) (listing_id : String)
    (params : Params) (w : World S)
    → get id w.actions ≡ none
    → e.marks ≡ true
    → e.audit_up ≡ true
    → let (r, w') = propose e id kind listing_id params w in
      propose e id' kind listing_id params w' ≡ (r, w')
unfolding propose
propose_again e id id' kind listing_id params w free writes notes =
    let pre = pre_of e kind listing_id params w in
    rw (pre_of-checked e id id' kind listing_id params w free writes notes pre)
      (checked_again e id id' kind listing_id params w free writes notes pre)
