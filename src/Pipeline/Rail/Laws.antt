-- ===== src/Pipeline/Rail/Laws.antt =====
-- What the action rail does without being asked.
use sidestage_copilot.Prelude.{
  ℕ, suc, ◌≡◌, refl, sym, ap, ◌∙◌, false, ◌⊎◌, inl, inr, String, str_refl, Bool-cases, true, List,
  [], ◌∷◌, ◌++◌, has, All, arith,
}
use mathlib.Core.Path.{subst}
use sidestage_copilot.Domain.{AutonomyLevel, l4_auto_act, ActionKind, adjust_stock, markdown_price}
use sidestage_copilot.Autonomy.Ladder.{ActionDisposition, auto_commit, propose_only, decide_action}
use sidestage_copilot.Autonomy.Ladder.Laws.{decide_action-auto_commit_iff}
use sidestage_copilot.Actions.Port.{MarketplaceAdapter, Params}
use sidestage_copilot.Actions.Store.{Action}
use sidestage_copilot.Actions.Proposer.{ProposedAction}
use sidestage_copilot.Actions.Executor.State.{
  Env, World, Reply, returned, not_found, transaction_threw, statement_threw,
}
use sidestage_copilot.Actions.Executor.Propose.{propose}
use sidestage_copilot.Actions.Executor.Approve.{approve}
use sidestage_copilot.Pipeline.Rail.{is_new, on_reply, goes_on, act, evaluate_actions}

has-append : (xs : List String) (x k : String) → has xs k ≡ true → has (xs ++ (x ∷ [])) k ≡ true
has-append [] x k h = absurd (ground arith)
has-append (y ∷ xs) x k h = ground (arith, has-append xs x k)

has-last : (xs : List String) (x : String) → has (xs ++ (x ∷ [])) x ≡ true
has-last [] x = ground (arith, str_refl x)
has-last (y ∷ xs) x = ground (arith, has-last xs x)

-- What a proposal may change of the show.
pub record IsUntouched {S : Type 0} (v w : World S) : Type 0 where
  pub listings : v.listings ≡ w.listings
  pub commits : v.commits ≡ w.commits
  pub remote : v.remote ≡ w.remote

propose-IsUntouched :
    {S : Type 0} (e : Env) (id : String) (kind : ActionKind) (l : String) (ps : Params)
    (w : World S)
    → IsUntouched (propose e id kind l ps w).1 w
unfolding propose
propose-IsUntouched e id kind l ps w = record {
  listings = ground arith;
  commits = ground arith;
  remote = ground arith;
}

module _ (m : MarketplaceAdapter) (e : Env) (level : AutonomyLevel) (p : ProposedAction) where
  disposed :
      (a : Action) (w : World m.State) (d : ActionDisposition)
      → is_new a.status ≡ true
      → decide_action level p.kind a.preflight_ok ≡ d
      → (on_reply m e level p (returned a, w) ≡ w)
        ⊎ ((level ≡ l4_auto_act)
            × ((p.kind ≡ adjust_stock) ⊎ (p.kind ≡ markdown_price))
            × ((b : Action) × (returned a ≡ returned b)
                × (b.preflight_ok ≡ true)
                × (on_reply m e level p (returned a, w) ≡ (approve m e "copilot" b.id w).1)))
  disposed a w propose_only n h = inl (ground arith)
  disposed a w auto_commit n h =
      let (passed, top, listed) = (decide_action-auto_commit_iff level p.kind a.preflight_ok).0 h in
      inr (top, listed, (a, refl, passed, ground arith))

  -- What follows the executor's answer to a proposal.
  on_reply-cases :
      (r : Reply) (w : World m.State)
      → (on_reply m e level p (r, w) ≡ w)
        ⊎ ((level ≡ l4_auto_act)
            × ((p.kind ≡ adjust_stock) ⊎ (p.kind ≡ markdown_price))
            × ((a : Action) × (r ≡ returned a)
                × (a.preflight_ok ≡ true)
                × (on_reply m e level p (r, w) ≡ (approve m e "copilot" a.id w).1)))
  on_reply-cases (returned a) w = elim (Bool-cases (is_new a.status)) [
    | inr n ↦ inl (ground arith)
    | inl n ↦ disposed a w (decide_action level p.kind a.preflight_ok) n refl
  ]
  on_reply-cases not_found w = inl refl
  on_reply-cases transaction_threw w = inl refl
  on_reply-cases statement_threw w = inl refl

module _ (m : MarketplaceAdapter) (e : Env) (level : AutonomyLevel) where
  -- One turn of the rail leaves the listings, the ledger and the marketplace as they were; or the rung is
  -- L4, the kind is a stock fix or a markdown, the executor returned an action whose preflight
  -- passed, and the turn is then exactly the approval of that action.
  pub act-cases :
      (id : String) (p : ProposedAction) (w : World m.State)
      → IsUntouched (act m e level id p w) w
        ⊎ ((level ≡ l4_auto_act)
            × ((p.kind ≡ adjust_stock) ⊎ (p.kind ≡ markdown_price))
            × ((a : Action) × ((propose e id p.kind p.listing_id p.params w).0 ≡ returned a)
                × (a.preflight_ok ≡ true)
                × (act m e level id p w
                    ≡ (approve m e "copilot" a.id
                        (propose e id p.kind p.listing_id p.params w).1).1)))
  unfolding act
  act-cases id p w =
      let made = propose e id p.kind p.listing_id p.params w in
      elim (on_reply-cases m e level p made.0 made.1) [
        | inl same ↦ inl (
            subst (λ v. IsUntouched v w) (sym same)
              (propose-IsUntouched e id p.kind p.listing_id p.params w))
        | inr found ↦ inr found
      ]

  -- What a turn adds to the keys, and how the evaluation goes on from there.
  evaluate_actions-cases :
      (ids : ℕ → String) (n : ℕ) (p : ProposedAction) (ps : List ProposedAction)
      (seen : List String) (w : World m.State)
      → ((has seen p.dedupe_key ≡ true)
          × (evaluate_actions m e level ids n (p ∷ ps) (seen, w)
              ≡ evaluate_actions m e level ids (suc n) ps (seen, w)))
        ⊎ (evaluate_actions m e level ids n (p ∷ ps) (seen, w)
            ≡ evaluate_actions m e level ids
                (suc n)
                ps
                (seen ++ (p.dedupe_key ∷ []), act m e level (ids n) p w))
        ⊎ (evaluate_actions m e level ids n (p ∷ ps) (seen, w)
            ≡ (false, seen ++ (p.dedupe_key ∷ []), act m e level (ids n) p w))
  unfolding evaluate_actions
  evaluate_actions-cases ids n p ps seen w = elim (Bool-cases (has seen p.dedupe_key)) [
    | inl s ↦ inl (s, ground arith)
    | inr s ↦ elim (Bool-cases (goes_on m e level (ids n) p w)) [
      | inl g ↦ inr (inl (ground arith))
      | inr g ↦ inr (inr (ground arith))
    ]
  ]

  evaluate_actions-seen :
      (ids : ℕ → String) (n : ℕ) (ps : List ProposedAction) (seen : List String) (w : World m.State)
      (k : String)
      → has seen k ≡ true
      → has (evaluate_actions m e level ids n ps (seen, w)).1 k ≡ true
  unfolding evaluate_actions
  evaluate_actions-seen ids n [] seen w k h = h
  evaluate_actions-seen ids n (p ∷ ps) seen w k h =
      let after = has-append seen p.dedupe_key k h in
      elim (evaluate_actions-cases ids n p ps seen w) [
        | inl (s, same) ↦ ap (λ r. has r.1 k) same ∙ evaluate_actions-seen ids (suc n) ps seen w k h
        | inr (inl same) ↦
            ap (λ r. has r.1 k) same
            ∙ evaluate_actions-seen ids (suc n) ps (seen ++ (p.dedupe_key ∷ []))
                (act m e level (ids n) p w) k after
        | inr (inr same) ↦ ap (λ r. has r.1 k) same ∙ after
      ]

  -- An evaluation that came to its end has seen every key.
  every_key_seen :
      (ids : ℕ → String) (n : ℕ) (ps : List ProposedAction) (seen : List String) (w : World m.State)
      → (evaluate_actions m e level ids n ps (seen, w)).0 ≡ true
      → All (λ p. has (evaluate_actions m e level ids n ps (seen, w)).1 p.dedupe_key ≡ true) ps
  every_key_seen ids n [] seen w h = tt
  every_key_seen ids n (p ∷ ps) seen w h = elim (evaluate_actions-cases ids n p ps seen w) [
    | inl (s, same) ↦
        subst (λ r. All (λ p. has r.1 p.dedupe_key ≡ true) (p ∷ ps)) (sym same)
          (
            evaluate_actions-seen ids (suc n) ps seen w p.dedupe_key s,
            every_key_seen ids (suc n) ps seen w (ap (λ r. r.0) (sym same) ∙ h),
          )
    | inr (inl same) ↦
        let later = seen ++ (p.dedupe_key ∷ []) in
        subst (λ r. All (λ p. has r.1 p.dedupe_key ≡ true) (p ∷ ps)) (sym same)
          (
            evaluate_actions-seen ids (suc n) ps later (act m e level (ids n) p w) p.dedupe_key
                (has-last seen p.dedupe_key),
            every_key_seen ids (suc n) ps later (act m e level (ids n) p w)
                (ap (λ r. r.0) (sym same) ∙ h),
          )
    | inr (inr same) ↦ absurd (ground arith)
  ]

  idle_when_seen :
      (ids : ℕ → String) (n : ℕ) (ps : List ProposedAction) (seen : List String) (w : World m.State)
      → All (λ p. has seen p.dedupe_key ≡ true) ps
      → evaluate_actions m e level ids n ps (seen, w) ≡ (true, seen, w)
  unfolding evaluate_actions
  idle_when_seen ids n [] seen w h = refl
  idle_when_seen ids n (p ∷ ps) seen w h = rw h.0 (idle_when_seen ids (suc n) ps seen w h.1)

  -- After an evaluation that came to its end, evaluating the same proposals again at once, whatever
  -- fresh ids there are, adds no key, proposes nothing and approves nothing.
  pub evaluate_actions-once :
      (ids later : ℕ → String) (n k : ℕ) (ps : List ProposedAction) (seen : List String)
      (w : World m.State)
      → (evaluate_actions m e level ids n ps (seen, w)).0 ≡ true
      → evaluate_actions m e level later k ps (
        (evaluate_actions m e level ids n ps (seen, w)).1,
        (evaluate_actions m e level ids n ps (seen, w)).2,
      )
        ≡ evaluate_actions m e level ids n ps (seen, w)
  evaluate_actions-once ids later n k ps seen w h =
      idle_when_seen later k ps (evaluate_actions m e level ids n ps (seen, w)).1
        (evaluate_actions m e level ids n ps (seen, w)).2 (every_key_seen ids n ps seen w h)
      ∙ ground arith
