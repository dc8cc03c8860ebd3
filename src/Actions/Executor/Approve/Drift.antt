-- ===== src/Actions/Executor/Approve/Drift.antt =====
-- Where our versions and the shipped marketplace's part: the swap of the pin.
use sidestage_copilot.Prelude.{◌+◌, String, ◌≡◌, ◌≢◌, refl, sym, ◌∙◌, true, none, some, arith}
use sidestage_copilot.Domain.{swap_pinned, committed}
use sidestage_copilot.Dict.{get}
use sidestage_copilot.Catalog.{Listing}
use sidestage_copilot.Actions.Port.{ActionIntent, RemoteListing, threw, conflict}
use sidestage_copilot.Actions.Mock.{Mock, mock_adapter, reserve}
use sidestage_copilot.Actions.Store.{Action}
use sidestage_copilot.Actions.Executor.State.{World, Env, version_of}
use sidestage_copilot.Actions.Executor.Approve.{approve}
use sidestage_copilot.Actions.Executor.Approve.Phases.{status_of}
use sidestage_copilot.Actions.Executor.Approve.Sync.{SameFields, approve-InStep}

reserve-conflict :
    (i : ActionIntent) (m : Mock) (r : RemoteListing)
    → get i.listing_id m.remote ≡ some r
    → r.version ≢ i.expected_version
    → (reserve i m).0 ≡ threw (conflict i.expected_version r.version)
unfolding reserve
reserve-conflict i m r there differs = ground arith

-- After a committed swap of the pin, planned at our current version, the listing can not be written
-- any more: an intent planned against the version that our row then has is refused as a conflict.
-- Our row moves two versions, the marketplace's one.
pub swap_then_conflict :
    (e : Env) (actor id : String) (a : Action) (w : World Mock) (l : Listing) (r : RemoteListing)
    (l' : Listing) (i : ActionIntent)
    → get id w.actions ≡ some a
    → a.status ≢ committed
    → a.preflight_ok ≡ true
    → get a.idempotency_key w.commits ≡ none
    → a.kind ≡ swap_pinned
    → get a.listing_id w.listings ≡ some l
    → get a.listing_id w.remote.remote ≡ some r
    → SameFields l r
    → version_of a.before ≡ l.version
    → status_of (approve (mock_adapter e.runtime) e actor id w).0 ≡ some committed
    → get a.listing_id (approve (mock_adapter e.runtime) e actor id w).1.listings ≡ some l'
    → i.listing_id ≡ a.listing_id
    → i.expected_version ≡ l'.version
    → (reserve i (approve (mock_adapter e.runtime) e actor id w).1.remote).0
      ≡ threw (conflict (l.version + 2) (l.version + 1))
swap_then_conflict e actor id a w l r l' i found open_ ok_ free swap ours theirs same planned done
      row at_listing at_version =
    let step =
      approve-InStep e actor id a w l r found open_ ok_ free (rw swap refl) ours theirs same done in
    let here : some step.listing ≡ some l' = sym step.here ∙ row in
    let ours_now : l'.version ≡ l.version + 2 = ground arith in
    let theirs_now : step.remote.version ≡ l.version + 1 = omega arith in
    let refused =
      reserve-conflict i (approve (mock_adapter e.runtime) e actor id w).1.remote step.remote
        (rw at_listing step.there) (omega arith) in
    cc
