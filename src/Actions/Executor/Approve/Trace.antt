-- ===== src/Actions/Executor/Approve/Trace.antt =====
-- What happened at the marketplace when an approval reports a commit.
use sidestage_copilot.Prelude.{
  sym, ◌∙◌, Bool-cases, Option-cases, is_some, false, ◌⊎◌, inl, inr, arith, String, ◌≡◌, refl, ◌≢◌,
  true, Option, none, some,
}
use mathlib.Core.Path.{subst}
use sidestage_copilot.Domain.{committing, committed, is_committed, is_committed_iff, ne_committed}
use sidestage_copilot.Dict.{Dict, get}
use sidestage_copilot.Catalog.{Listing}
use sidestage_copilot.Actions.Port.{
  ActionIntent, Reservation, RemoteListing, Outcome, ok, threw, MarketplaceAdapter,
}
use sidestage_copilot.Actions.Store.{
  Action, Commit, patched_action, local_failed_and_compensated, local_failed_not_compensated,
  apply_refused, reserve_refused, preflight_not_passed,
}
use sidestage_copilot.Actions.Executor.State.{World, Env, set_status, patch_row, emit, changed}
use sidestage_copilot.Actions.Executor.Approve.{
  record_locally, approve_found, compensated, confirmed, recorded, applied, reserved, approve,
  clear_error, intent_of,
}
use sidestage_copilot.Actions.Executor.Approve.Phases.{status_of, SameTables, fail-ne-committed}
use sidestage_copilot.Actions.Executor.Approve.Atomic.{
  approve_writes_nothing, commit_action-marked, commit_action-unmarked, approve-eq-commit_action,
}

-- The marketplace took the reservation and the write, and nothing was compensated.
pub record Trace (m : MarketplaceAdapter) (i : ActionIntent) (s s' : m.State) : Type 0 where
  pub res : Reservation
  pub held : m.State
  pub listing : RemoteListing
  pub after : m.State
  pub reserves : m.reserve i s ≡ (ok res, held)
  pub applies : m.apply res held ≡ (ok listing, after)
  pub confirms : s' ≡ m.confirm res after

module _ (m : MarketplaceAdapter) (e : Env) (actor : String) (a : Action) where
  compensated-ne-committed :
      (o : Outcome RemoteListing × m.State) (w : World m.State)
      → status_of (compensated m e actor a o w).0 ≢ some committed
  unfolding compensated
  compensated-ne-committed (ok r, s) w =
      fail-ne-committed e a local_failed_and_compensated (record w { remote = s })
  compensated-ne-committed (threw err, s) w =
      fail-ne-committed e a (local_failed_not_compensated err) (record w { remote = s })

  recorded-remote :
      (res : Reservation) (o : Option (Dict Listing × Dict Commit)) (w : World m.State)
      → status_of (recorded m e actor a res o w).0 ≡ some committed
      → (recorded m e actor a res o w).1.remote ≡ m.confirm res w.remote
  unfolding recorded confirmed
  recorded-remote res none w h = absurd (compensated-ne-committed _ w h)
  recorded-remote res (some t) w h = ground arith

  applied-Trace :
      (i : ActionIntent) (s : m.State) (res : Reservation) (held : m.State)
      (o : Outcome RemoteListing × m.State) (w : World m.State)
      → m.reserve i s ≡ (ok res, held)
      → m.apply res held ≡ o
      → status_of (applied m e actor a res o w).0 ≡ some committed
      → Trace m i s (applied m e actor a res o w).1.remote
  unfolding applied
  applied-Trace i s res held (threw err, t) w p q h =
      absurd (fail-ne-committed e a (apply_refused err) (record w { remote = m.cancel res t }) h)
  applied-Trace i s res held (ok r, t) w p q h = record {
    res = res;
    held = held;
    listing = r;
    after = t;
    reserves = p;
    applies = q;
    confirms = recorded-remote res (record_locally e a r w) (record w { remote = t }) h;
  }

  reserved-Trace :
      (i : ActionIntent) (s : m.State) (o : Outcome Reservation × m.State) (w : World m.State)
      → m.reserve i s ≡ o
      → status_of (reserved m e actor a o w).0 ≡ some committed
      → Trace m i s (reserved m e actor a o w).1.remote
  unfolding reserved
  reserved-Trace i s (threw err, t) w p h =
      absurd (fail-ne-committed e a (reserve_refused err) (record w { remote = t }) h)
  reserved-Trace i s (ok res, t) w p h =
      applied-Trace i s res t (m.apply res t) (record w { remote = t }) p refl h

-- A commit of an action that is open, checked and new to the ledger.
pub approve-committed :
    (m : MarketplaceAdapter) (e : Env) (actor id : String) (a : Action) (w : World m.State)
    → get id w.actions ≡ some a
    → a.status ≢ committed
    → a.preflight_ok ≡ true
    → get a.idempotency_key w.commits ≡ none
    → status_of (approve m e actor id w).0 ≡ some committed
    → Trace m (intent_of a) w.remote (approve m e actor id w).1.remote
approve-committed m e actor id a w found h ok_ free done =
    let same = approve-eq-commit_action m e actor id a w found h ok_ free in
    elim (Bool-cases e.marks) [
      | inr down ↦
          let ends = same ∙ commit_action-unmarked m e actor a w down in absurd (ground arith)
      | inl up ↦
          let runs = same ∙ commit_action-marked m e actor a w up in
          subst (λ x. Trace m (intent_of a) w.remote x.1.remote) (sym runs)
            (reserved-Trace m e actor a' (intent_of a) w.remote (m.reserve (intent_of a) w.remote)
              w' refl (subst (λ x. status_of x.0 ≡ some committed) runs done))
    ]
  where
    a' : Action
    a' = patched_action (clear_error (set_status committing)) a

    w' : World m.State
    w' = emit (changed a') (patch_row a (clear_error (set_status committing)) w)

approve-not_checked :
    (m : MarketplaceAdapter) (e : Env) (actor id : String) (a : Action) (w : World m.State)
    → get id w.actions ≡ some a
    → a.status ≢ committed
    → a.preflight_ok ≡ false
    → status_of (approve m e actor id w).0 ≢ some committed
unfolding approve approve_found
approve-not_checked m e actor id a w found h bad done =
    ground (arith, ne_committed a.status h, fail-ne-committed e a preflight_not_passed w)

-- Whenever an approval reports an action as committed, one of three things is so. The marketplace
-- took its reservation, then its write, and then the confirmation, in that order and with nothing
-- else between. Or the action was committed before, or its intent was in the ledger: then the
-- approval writes to no listing, no ledger row and nothing at the marketplace.
pub approve-Trace :
    (m : MarketplaceAdapter) (e : Env) (actor id : String) (a : Action) (w : World m.State)
    → get id w.actions ≡ some a
    → status_of (approve m e actor id w).0 ≡ some committed
    → Trace m (intent_of a) w.remote (approve m e actor id w).1.remote
      ⊎ (((a.status ≡ committed) ⊎ (is_some (get a.idempotency_key w.commits) ≡ true))
          × SameTables w (approve m e actor id w).1
          × ((approve m e actor id w).1.remote ≡ w.remote))
approve-Trace m e actor id a w found done = elim (Bool-cases (is_committed a.status)) [
  | inl was ↦
      let is_so : a.status ≡ committed = ground (arith, is_committed_iff a.status) in
      let (tables, remote) = approve_writes_nothing m e actor id a w found (inl is_so) in
      inr (inl is_so, tables, remote)
  | inr open_ ↦
      let not_so : a.status ≢ committed = λ h. ground (arith, is_committed_iff a.status) in
      elim (Option-cases (get a.idempotency_key w.commits)) [
        | inr (c, held) ↦
            let there : is_some (get a.idempotency_key w.commits) ≡ true = ground arith in
            let (tables, remote) =
              approve_writes_nothing m e actor id a w found (inr (inr there)) in
            inr (inr there, tables, remote)
        | inl free ↦ elim (Bool-cases a.preflight_ok) [
          | inl good ↦ inl (approve-committed m e actor id a w found not_so good free done)
          | inr bad ↦ absurd (approve-not_checked m e actor id a w found not_so bad done)
        ]
      ]
]
