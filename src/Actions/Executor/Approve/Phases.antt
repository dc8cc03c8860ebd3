-- ===== src/Actions/Executor/Approve/Phases.antt =====
-- The phases of the two-phase commit: what each leaves in the listings, in the ledger and in the
-- action.
use sidestage_copilot.Prelude.{
  String, ◌≡◌, refl, sym, ap, ◌∙◌, ◌≢◌, ◌⊎◌, inl, inr, false, Option, none, some, arith, Bool-cases,
  Option-cases,
}
use sidestage_copilot.Domain.{ActionStatus, committed, failed}
use sidestage_copilot.Dict.{Dict, get, put}
use sidestage_copilot.Catalog.{Listing}
use sidestage_copilot.Actions.Port.{
  Reservation, RemoteListing, Outcome, ok, threw, MarketplaceAdapter,
}
use sidestage_copilot.Actions.Store.{
  Action, Commit, Failure, local_failed_and_compensated, local_failed_not_compensated,
  apply_refused, reserve_refused,
}
use sidestage_copilot.Actions.Executor.State.{
  World, Env, Reply, returned, statement_threw, apply_local, insert_commit, fail,
}
use sidestage_copilot.Actions.Executor.Approve.{
  ledger_row, record_locally, compensated, confirmed, recorded, applied, reserved,
}

-- Neither the listings nor the ledger have changed.
abbrev pub SameTables : {S : Type 0} → World S → World S → Type 0
SameTables w w' = (w'.listings ≡ w.listings) × (w'.commits ≡ w.commits)

-- The write of `a` takes the listings from `d` to `d'` and the ledger from `c` to `c'`.
pub record IsRecorded (e : Env) (a : Action) (d d' : Dict Listing) (c c' : Dict Commit)
    : Type 0 where
  pub runs : e.tx_fails ≡ false
  pub effect : apply_local e a d ≡ some d'
  pub fresh : get a.idempotency_key c ≡ none
  pub row : Commit
  pub ledger : c' ≡ put a.idempotency_key row c
  pub about : row.action_id ≡ a.id

abbrev pub status_of : Reply → Option ActionStatus
status_of (returned a) = some a.status
status_of _ = none

-- The tables are as they were and the action fails, or its write is in both and it is committed. In
-- either case the statement that says so, or one before the first phase, may have thrown.
abbrev pub BothOrNeither : {S : Type 0} → Env → Action → World S → Reply × World S → Type 0
BothOrNeither e a w (r, w') =
    (SameTables w w' × ((status_of r ≡ some failed) ⊎ (r ≡ statement_threw)))
    ⊎ (IsRecorded e a w.listings w'.listings w.commits w'.commits
        × ((status_of r ≡ some committed) ⊎ (r ≡ statement_threw)))

module _ {S : Type 0} (e : Env) (a : Action) (r : RemoteListing) (w : World S) where
  record_locally_cases :
      (record_locally e a r w ≡ none)
      ⊎ ((t : Dict Listing × Dict Commit) × (record_locally e a r w ≡ some t)
          × IsRecorded e a w.listings t.0 w.commits t.1)
  unfolding record_locally insert_commit
  record_locally_cases = elim (Bool-cases e.tx_fails) [
    | inl off ↦ inl (ground arith)
    | inr on ↦ elim (Option-cases (apply_local e a w.listings)) [
      | inl bad ↦ inl (ground arith)
      | inr (d, good) ↦ elim (Option-cases (get a.idempotency_key w.commits)) [
        | inl free ↦ inr (
          (d, put a.idempotency_key (ledger_row e a r) w.commits),
          ground arith,
          record {
            runs = on;
            effect = good;
            fresh = free;
            row = ledger_row e a r;
            ledger = refl;
            about = refl;
          },
        )
        | inr (c, held) ↦ inl (ground arith)
      ]
    ]
  ]

fail-SameTables :
    {S : Type 0} (e : Env) (a : Action) (why : Failure) (w : World S)
    → SameTables w (fail e a why w).1
      × ((status_of (fail e a why w).0 ≡ some failed) ⊎ ((fail e a why w).0 ≡ statement_threw))
      × ((fail e a why w).1.remote ≡ w.remote)
unfolding fail
fail-SameTables e a why w = ground arith

pub fail-ne-committed :
    {S : Type 0} (e : Env) (a : Action) (why : Failure) (w : World S)
    → status_of (fail e a why w).0 ≢ some committed
unfolding fail
fail-ne-committed e a why w h = ground arith

module _ (m : MarketplaceAdapter) (e : Env) (actor : String) (a : Action) where
  compensated-SameTables :
      (o : Outcome RemoteListing × m.State) (w : World m.State)
      → SameTables w (compensated m e actor a o w).1
        × ((status_of (compensated m e actor a o w).0 ≡ some failed)
            ⊎ ((compensated m e actor a o w).0 ≡ statement_threw))
  unfolding compensated
  compensated-SameTables (ok r, s) w =
      let (same, ends, remote) =
        fail-SameTables e a local_failed_and_compensated (record w { remote = s }) in
      (same, ends)
  compensated-SameTables (threw err, s) w =
      let (same, ends, remote) =
        fail-SameTables e a (local_failed_not_compensated err) (record w { remote = s }) in
      (same, ends)

  -- After the transaction both tables stand, whatever the rest does.
  confirmed-tables :
      (res : Reservation) (t : Dict Listing × Dict Commit) (w : World m.State)
      → ((confirmed m e actor a res t w).1.listings ≡ t.0)
        × ((confirmed m e actor a res t w).1.commits ≡ t.1)
        × ((status_of (confirmed m e actor a res t w).0 ≡ some committed)
            ⊎ ((confirmed m e actor a res t w).0 ≡ statement_threw))
  unfolding confirmed
  confirmed-tables res t w = ground arith

  confirmed-IsRecorded :
      (res : Reservation) (t : Dict Listing × Dict Commit) (v w : World m.State)
      → IsRecorded e a v.listings t.0 v.commits t.1
      → BothOrNeither e a v (confirmed m e actor a res t w)
  confirmed-IsRecorded res t v w r =
      let (here, there, ends) = confirmed-tables res t w in
      inr (
        record {
          runs = r.runs;
          effect = r.effect ∙ ap some (sym here);
          fresh = r.fresh;
          row = r.row;
          ledger = there ∙ r.ledger;
          about = r.about;
        },
        ends,
      )

  applied-BothOrNeither :
      (res : Reservation) (o : Outcome RemoteListing × m.State) (w : World m.State)
      → BothOrNeither e a w (applied m e actor a res o w)
  unfolding applied recorded
  applied-BothOrNeither res (threw err, s) w =
      let (same, ends, remote) =
        fail-SameTables e a (apply_refused err) (record w { remote = m.cancel res s }) in
      inl (same, ends)
  applied-BothOrNeither res (ok r, s) w = elim (record_locally_cases e a r w) [
    | inl missed ↦ rw (missed, recorded) (inl (compensated-SameTables _ (record w { remote = s })))
    | inr (t, done, rec) ↦
        rw (done, recorded) (confirmed-IsRecorded res t w (record w { remote = s }) rec)
  ]

  pub reserved-BothOrNeither :
      (o : Outcome Reservation × m.State) (w : World m.State)
      → BothOrNeither e a w (reserved m e actor a o w)
  unfolding reserved
  reserved-BothOrNeither (threw err, s) w =
      let (same, ends, remote) =
        fail-SameTables e a (reserve_refused err) (record w { remote = s }) in
      inl (same, ends)
  reserved-BothOrNeither (ok res, s) w =
      applied-BothOrNeither res (m.apply res s) (record w { remote = s })
