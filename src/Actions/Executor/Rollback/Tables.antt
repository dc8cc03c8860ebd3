-- ===== src/Actions/Executor/Rollback/Tables.antt =====
-- What a rollback leaves in the listings and in the ledger, whatever throws.
use mathlib.Core.Path.{subst}
use sidestage_copilot.Prelude.{
  String, ◌≡◌, ◌≢◌, refl, sym, ap, ◌∙◌, ◌⊎◌, inl, inr, Bool-cases, Option-cases, false, none, some,
  arith,
}
use sidestage_copilot.Domain.{committed, rolled_back, is_committed, is_committed_iff}
use sidestage_copilot.Dict.{Dict, get, put}
use sidestage_copilot.Catalog.{Listing}
use sidestage_copilot.Actions.Port.{RemoteListing, Outcome, ok, threw, MarketplaceAdapter}
use sidestage_copilot.Actions.Store.{
  Action, Commit, Failure, not_committed, window_closed, rollback_refused, restored_to,
}
use sidestage_copilot.Actions.Executor.State.{
  World, Env, Reply, statement_threw, fail, before_remote,
}
use sidestage_copilot.Actions.Executor.Approve.Phases.{SameTables, status_of}
use sidestage_copilot.Actions.Executor.Rollback.{
  rollback_key, rollback_reservation, restore_local, record_rollback, window_over, closing_time,
  undone, after_compensation, rollback_found, rollback,
}

-- The prior state is in the listings and the row of the rollback in the ledger.
pub record IsUndone (e : Env) (a : Action) (d d' : Dict Listing) (c c' : Dict Commit) : Type 0 where
  pub effect : restore_local e a d ≡ some d'
  pub row : Commit
  pub ledger : c' ≡ put (rollback_key a) row c
  pub about : row.action_id ≡ a.id

-- Nothing is undone and nothing reported, or both tables are written, where that may throw afterwards.
abbrev pub UndoneOrNot : {S : Type 0} → Env → Action → World S → Reply × World S → Type 0
UndoneOrNot e a w (r, w') =
    (SameTables w w' × (status_of r ≢ some rolled_back))
    ⊎ (IsUndone e a w.listings w'.listings w.commits w'.commits
        × (a.status ≡ committed)
        × (window_over e.now a.undoable_until ≡ false)
        × ((status_of r ≡ some rolled_back) ⊎ (r ≡ statement_threw)))

fail-UndoneOrNot :
    {S : Type 0} (e : Env) (a : Action) (why : Failure) (v w : World S)
    → SameTables v w
    → UndoneOrNot e a v (fail e a why w)
unfolding fail
fail-UndoneOrNot e a why v w h = inl (ground arith, λ q. ground arith)

record_rollback-cases :
    {S : Type 0} (e : Env) (a : Action) (w : World S)
    → (record_rollback e a w ≡ none)
      ⊎ ((t : Dict Listing × Dict Commit) × (record_rollback e a w ≡ some t)
          × IsUndone e a w.listings t.0 w.commits t.1)
unfolding record_rollback
record_rollback-cases e a w = elim (Bool-cases e.tx_fails) [
  | inl off ↦ inl (ground arith)
  | inr on ↦ elim (Option-cases (restore_local e a w.listings)) [
    | inl bad ↦ inl (ground arith)
    | inr (d, good) ↦
        let c : Commit = record {
          action_id = a.id;
          committed_at = e.now;
          result = restored_to a.before;
        } in
        inr (
          (d, put (rollback_key a) c w.commits),
          ground arith,
          record { effect = good; row = c; ledger = refl; about = refl },
        )
  ]
]

module _ (m : MarketplaceAdapter) (e : Env) (actor : String) (a : Action)
    (was : a.status ≡ committed) (open_ : window_over e.now a.undoable_until ≡ false) where
  undone-tables :
      (t : Dict Listing × Dict Commit) (v : World m.State)
      → ((undone m e actor a (some t) v).1.listings ≡ t.0)
        × ((undone m e actor a (some t) v).1.commits ≡ t.1)
        × ((status_of (undone m e actor a (some t) v).0 ≡ some rolled_back)
            ⊎ ((undone m e actor a (some t) v).0 ≡ statement_threw))
  unfolding undone
  undone-tables t v = ground arith

  undone-UndoneOrNot :
      (w v : World m.State)
      → SameTables w v
      → UndoneOrNot e a w (undone m e actor a (record_rollback e a w) v)
  unfolding undone
  undone-UndoneOrNot w v h = elim (record_rollback-cases e a w) [
    | inl missed ↦ rw missed (inl (h, λ q. ground arith))
    | inr (t, made, u) ↦
        let (here, there, ends) = undone-tables t v in
        subst (λ o. UndoneOrNot e a w (undone m e actor a o v)) (sym made)
          (inr (
            record {
              effect = u.effect ∙ ap some (sym here);
              row = u.row;
              ledger = there ∙ u.ledger;
              about = u.about;
            },
            was,
            open_,
            ends,
          ))
  ]

  compensated-UndoneOrNot :
      (o : Outcome RemoteListing × m.State) (w : World m.State)
      → UndoneOrNot e a w (after_compensation m e actor a o w)
  unfolding after_compensation
  compensated-UndoneOrNot (threw err, s) w =
      fail-UndoneOrNot e a (rollback_refused err) w (record w { remote = s }) (refl, refl)
  compensated-UndoneOrNot (ok r, s) w = undone-UndoneOrNot w (record w { remote = s }) (refl, refl)

rollback_found-UndoneOrNot :
    (m : MarketplaceAdapter) (e : Env) (actor : String) (a : Action) (w : World m.State)
    → UndoneOrNot e a w (rollback_found m e actor a w)
unfolding rollback_found
rollback_found-UndoneOrNot m e actor a w = elim (Bool-cases (is_committed a.status)) [
  | inr not_yet ↦
      let why = not_committed a.status in
      let same : rollback_found m e actor a w ≡ fail e a why w = ground arith in
      subst (UndoneOrNot e a w) (sym same) (fail-UndoneOrNot e a why w w (refl, refl))
  | inl done ↦ elim (Bool-cases (window_over e.now a.undoable_until)) [
    | inl late ↦
        let why = window_closed (closing_time a.undoable_until) in
        let same : rollback_found m e actor a w ≡ fail e a why w = ground arith in
        subst (UndoneOrNot e a w) (sym same) (fail-UndoneOrNot e a why w w (refl, refl))
    | inr early ↦
        let answer =
          m.compensate (rollback_reservation a (get a.listing_id w.listings))
            (before_remote a.before) w.remote in
        let same : rollback_found m e actor a w ≡ after_compensation m e actor a answer w =
          ground arith in
        subst (UndoneOrNot e a w) (sym same) (
          compensated-UndoneOrNot m e actor a (ground (arith, is_committed_iff a.status)) early
            answer w)
  ]
]

-- Whatever the marketplace does, and whichever writes to the database throw, a rollback ends in one of
-- two ways. Either the listings and the ledger are as they were, and it is not reported as rolled
-- back. Or the action was committed and its undo window open, and both tables are written: the
-- listings with the captured state, the ledger with a row of the rollback; then it is reported as
-- rolled back, or a later statement throws.
pub rollback-UndoneOrNot :
    (m : MarketplaceAdapter) (e : Env) (actor id : String) (a : Action) (w : World m.State)
    → get id w.actions ≡ some a
    → UndoneOrNot e a w (rollback m e actor id w)
unfolding rollback
rollback-UndoneOrNot m e actor id a w found =
    rw (found, rollback) (rollback_found-UndoneOrNot m e actor a w)
