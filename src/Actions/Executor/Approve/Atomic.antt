-- ===== src/Actions/Executor/Approve/Atomic.antt =====
-- The two-phase commit: what an approval leaves in the listings, in the ledger and in the action.
use sidestage_copilot.Prelude.{
  String, ◌≡◌, refl, sym, ◌≢◌, ◌⊎◌, inl, inr, true, false, none, some, arith, is_some, str_refl,
  Bool-cases,
}
use mathlib.Core.Path.{subst}
use sidestage_copilot.Domain.{committing, committed, ne_committed}
use sidestage_copilot.Dict.{get}
use sidestage_copilot.Dict.Laws.{get-put}
use sidestage_copilot.Actions.Port.{MarketplaceAdapter}
use sidestage_copilot.Actions.Store.{Action, patched_action}
use sidestage_copilot.Actions.Executor.State.{
  World, Env, statement_threw, apply_local, fail, patch_row, set_status, emit, changed,
}
use sidestage_copilot.Actions.Executor.Approve.Phases.{
  SameTables, status_of, BothOrNeither, reserved-BothOrNeither,
}
use sidestage_copilot.Actions.Executor.Approve.{
  reserved, commit_action, settled, approve_found, approve, clear_error, intent_of,
}

module _ (m : MarketplaceAdapter) (e : Env) (actor : String) (a : Action) (w : World m.State) where
  pub commit_action-marked :
      e.marks ≡ true
      → let p = clear_error (set_status committing) in
        commit_action m e actor a w
        ≡ reserved m e actor
            (patched_action p a)
            (m.reserve (intent_of (patched_action p a)) w.remote)
            (emit (changed (patched_action p a)) (patch_row a p w))
  unfolding commit_action
  commit_action-marked up = ground arith

  pub commit_action-unmarked : e.marks ≡ false → commit_action m e actor a w ≡ (statement_threw, w)
  unfolding commit_action
  commit_action-unmarked down = ground arith

  marked-BothOrNeither :
      let p = clear_error (set_status committing) in
      BothOrNeither e a w (
        reserved m e actor
          (patched_action p a)
          (m.reserve (intent_of (patched_action p a)) w.remote)
          (emit (changed (patched_action p a)) (patch_row a p w)))
  unfolding apply_local
  marked-BothOrNeither =
      elim (reserved-BothOrNeither m e actor a' (m.reserve (intent_of a') w.remote) w') [
        | inl same ↦ inl same
        | inr (r, done) ↦ inr (
          record {
            runs = r.runs;
            effect = r.effect;
            fresh = r.fresh;
            row = r.row;
            ledger = r.ledger;
            about = r.about;
          },
          done,
        )
      ]
    where
      a' : Action
      a' = patched_action (clear_error (set_status committing)) a

      w' : World m.State
      w' = emit (changed a') (patch_row a (clear_error (set_status committing)) w)

  commit_action-BothOrNeither : BothOrNeither e a w (commit_action m e actor a w)
  commit_action-BothOrNeither = elim (Bool-cases e.marks) [
    | inl up ↦ subst (BothOrNeither e a w) (sym (commit_action-marked up)) marked-BothOrNeither
    | inr down ↦
        subst (BothOrNeither e a w) (sym (commit_action-unmarked down))
          (inl ((refl, refl), inr refl))
  ]

  approve_found-eq-commit_action :
      a.status ≢ committed
      → a.preflight_ok ≡ true
      → get a.idempotency_key w.commits ≡ none
      → approve_found m e actor a w ≡ commit_action m e actor a w
  unfolding approve_found
  approve_found-eq-commit_action h ok_ free = ground (arith, ne_committed a.status h)

  -- Nothing that is committed, refused by its preflight or in the ledger is written.
  approve_found-writes_nothing :
      (a.status ≡ committed)
        ⊎ (a.preflight_ok ≡ false)
        ⊎ (is_some (get a.idempotency_key w.commits) ≡ true)
      → SameTables w (approve_found m e actor a w).1
        × ((approve_found m e actor a w).1.remote ≡ w.remote)
  unfolding approve_found settled fail
  approve_found-writes_nothing h = ground arith

pub approve-eq-commit_action :
    (m : MarketplaceAdapter) (e : Env) (actor id : String) (a : Action) (w : World m.State)
    → get id w.actions ≡ some a
    → a.status ≢ committed
    → a.preflight_ok ≡ true
    → get a.idempotency_key w.commits ≡ none
    → approve m e actor id w ≡ commit_action m e actor a w
unfolding approve
approve-eq-commit_action m e actor id a w found h ok_ free =
    rw (found, approve) (approve_found-eq-commit_action m e actor a w h ok_ free)

-- Whatever the marketplace does, and whichever of its writes to the database throw, an approval of an
-- action that is not committed, has passed its preflight and is not in the ledger ends in one of two
-- ways: the listings and the ledger are as they were, or both hold its write. In the first case it
-- returns the action as failed, or throws; in the second as committed, or throws.
pub approve-BothOrNeither :
    (m : MarketplaceAdapter) (e : Env) (actor id : String) (a : Action) (w : World m.State)
    → get id w.actions ≡ some a
    → a.status ≢ committed
    → a.preflight_ok ≡ true
    → get a.idempotency_key w.commits ≡ none
    → BothOrNeither e a w (approve m e actor id w)
approve-BothOrNeither m e actor id a w found h ok_ free =
    rw (approve-eq-commit_action m e actor id a w found h ok_ free)
      (commit_action-BothOrNeither m e actor a w)

-- An approval of an action whose intent is in the ledger, or that is committed, or that failed its
-- preflight, writes to no listing, no ledger row and nothing on the marketplace.
pub approve_writes_nothing :
    (m : MarketplaceAdapter) (e : Env) (actor id : String) (a : Action) (w : World m.State)
    → get id w.actions ≡ some a
    → (a.status ≡ committed)
      ⊎ (a.preflight_ok ≡ false)
      ⊎ (is_some (get a.idempotency_key w.commits) ≡ true)
    → SameTables w (approve m e actor id w).1 × ((approve m e actor id w).1.remote ≡ w.remote)
unfolding approve
approve_writes_nothing m e actor id a w found h =
    rw (found, approve) (approve_found-writes_nothing m e actor a w h)

-- A write happens at most once: after an approval that was committed, an approval of any action
-- with the same intent, at any later time, writes nothing anywhere.
pub approve_again_writes_nothing :
    (m : MarketplaceAdapter) (e e' : Env) (actor actor' id id' : String) (a a' : Action)
    (w : World m.State)
    → get id w.actions ≡ some a
    → a.status ≢ committed
    → a.preflight_ok ≡ true
    → get a.idempotency_key w.commits ≡ none
    → status_of (approve m e actor id w).0 ≡ some committed
    → get id' (approve m e actor id w).1.actions ≡ some a'
    → a'.idempotency_key ≡ a.idempotency_key
    → let w' = (approve m e actor id w).1 in
      let w'' = (approve m e' actor' id' w').1 in SameTables w' w'' × (w''.remote ≡ w'.remote)
approve_again_writes_nothing m e e' actor actor' id id' a a' w found h ok_ free done found' same =
    elim (approve-BothOrNeither m e actor id a w found h ok_ free) [
      | inl (_, inl failed') ↦ absurd (cc)
      | inl (_, inr thrown) ↦ absurd (ground arith)
      | inr (r, _) ↦
          approve_writes_nothing m e' actor' id' a' (approve m e actor id w).1 found'
            (inr (inr (rw (same, r.ledger, get-put, str_refl) refl)))
    ]
