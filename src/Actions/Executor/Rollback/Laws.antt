-- ===== src/Actions/Executor/Rollback/Laws.antt =====
-- What a rollback restores.
use sidestage_copilot.Prelude.{
  ◌+◌, String, ◌≡◌, refl, sym, ap, ◌∙◌, inl, inr, Option, none, some, arith, Option-cases,
}
use sidestage_copilot.Domain.{rolled_back}
use sidestage_copilot.Js.{whole}
use sidestage_copilot.Prelude.Int.{pos}
use sidestage_copilot.Dict.{Dict, get}
use sidestage_copilot.Catalog.{Listing, patched, mutate_listing}
use sidestage_copilot.Catalog.Laws.{mutate_listing-row, column-whole}
use sidestage_copilot.Actions.Port.{RemoteListing, Outcome, ok, threw, MarketplaceAdapter}
use sidestage_copilot.Actions.Preflight.{Snapshot}
use sidestage_copilot.Actions.Store.{Action, Commit}
use sidestage_copilot.Actions.Executor.State.{World, Env, fail, before_remote}
use sidestage_copilot.Actions.Executor.Approve.Phases.{status_of}
use sidestage_copilot.Actions.Executor.Rollback.{
  rollback_reservation, restoring, restore_local, record_rollback, undone, after_compensation,
  rollback_found, rollback,
}

-- The four fields of a listing are those of the snapshot.
pub record IsRestored (b : Snapshot) (old new : Listing) : Type 0 where
  pub price_cents : new.price_cents ≡ b.price_cents
  pub qty : new.qty ≡ b.qty
  pub state : new.state ≡ b.state
  pub pinned : new.pinned ≡ b.pinned
  pub version : new.version ≡ old.version + 1

module _ (e : Env) (a : Action) (b : Snapshot) (captured : a.before ≡ some b) where
  restore_local-IsRestored :
      (d d' : Dict Listing) (l : Listing)
      → restore_local e a d ≡ some d'
      → get a.listing_id d ≡ some l
      → (l' : Listing) × (get a.listing_id d' ≡ some l') × IsRestored b l l'
  unfolding restore_local patched
  restore_local-IsRestored d d' l h row =
      let wrote : mutate_listing a.listing_id (restoring b) e.now d ≡ some d' = ground arith in
      let (new, valid) =
        mutate_listing-row a.listing_id (restoring b) e.now d d' l wrote refl row in
      let price = column-whole (whole (pos b.price_cents)) l.price_cents (ground arith) in
      let qty = column-whole (whole (pos b.qty)) l.qty (ground arith) in
      (patched (restoring b) e.now l, new, ground arith)

record_rollback-listings :
    {S : Type 0} (e : Env) (a : Action) (w : World S) (t : Dict Listing × Dict Commit)
    → record_rollback e a w ≡ some t
    → restore_local e a w.listings ≡ some t.0
unfolding record_rollback
record_rollback-listings e a w t h = elim (Option-cases (restore_local e a w.listings)) [
  | inl missing ↦ absurd (ground arith)
  | inr (d, found) ↦ ground arith
]

-- What the phases of a rollback have written, when the last of them reports it.
module _ (m : MarketplaceAdapter) (e : Env) (actor : String) (a : Action) where
  undone-listings :
      (o : Option (Dict Listing × Dict Commit)) (w : World m.State)
      → status_of (undone m e actor a o w).0 ≡ some rolled_back
      → (t : Dict Listing × Dict Commit) × (o ≡ some t)
        × ((undone m e actor a o w).1.listings ≡ t.0)
  unfolding undone
  undone-listings none w h = absurd (cc)
  undone-listings (some t) w h = (t, refl, ground arith)

  after_compensation-listings :
      (o : Outcome RemoteListing × m.State) (w : World m.State)
      → status_of (after_compensation m e actor a o w).0 ≡ some rolled_back
      → restore_local e a w.listings ≡ some (after_compensation m e actor a o w).1.listings
  unfolding after_compensation fail
  after_compensation-listings (threw err, s) w h = absurd (ground arith)
  after_compensation-listings (ok r, s) w h =
      let (t, made, same) = undone-listings (record_rollback e a w) (record w { remote = s }) h in
      record_rollback-listings e a w t made ∙ ap some (sym same)

  rollback_found-listings :
      (w : World m.State)
      → status_of (rollback_found m e actor a w).0 ≡ some rolled_back
      → restore_local e a w.listings ≡ some (rollback_found m e actor a w).1.listings
  unfolding rollback_found fail
  rollback_found-listings w h = ground (
    arith,
    after_compensation-listings
        (m.compensate (rollback_reservation a (get a.listing_id w.listings))
          (before_remote a.before) w.remote)
        w,
  )

-- A rollback that is reported has given the listing its captured price, stock, state and pin back,
-- as a new version of it and not as its old one.
pub rollback-IsRestored :
    (m : MarketplaceAdapter) (e : Env) (actor id : String) (a : Action) (b : Snapshot)
    (w : World m.State) (l : Listing)
    → get id w.actions ≡ some a
    → a.before ≡ some b
    → get a.listing_id w.listings ≡ some l
    → status_of (rollback m e actor id w).0 ≡ some rolled_back
    → (l' : Listing) × (get a.listing_id (rollback m e actor id w).1.listings ≡ some l')
      × IsRestored b l l'
unfolding rollback
rollback-IsRestored m e actor id a b w l found captured row done =
    restore_local-IsRestored e a b captured w.listings _ l
      (rw (found, rollback) (rollback_found-listings m e actor a w (rw (found, rollback) at done)))
      row
