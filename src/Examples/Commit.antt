-- ===== src/Examples/Commit.antt =====
-- Approvals and rollbacks on the show.
use sidestage_copilot.Prelude.{is_some, true, ◌⊎◌, some, ◌≡◌, refl, arith, ◌≢◌}
use sidestage_copilot.Domain.{committed, rolled_back, proposed, live}
use sidestage_copilot.Dict.{get, put, update, update_all, remove}
use sidestage_copilot.Catalog.{Listing, mutate_listing, patched, set_pinned, repinned}
use sidestage_copilot.Js.{to_column}
use sidestage_copilot.Actions.Port.{threw, conflict}
use sidestage_copilot.Actions.Mock.{
  Mock, mock_adapter, reserve, apply, apply_remote, mutation_for, number_param, release, compensate,
}
use sidestage_copilot.Actions.Store.{Action, patch}
use sidestage_copilot.Actions.Preflight.{snapshot}
use sidestage_copilot.Actions.Executor.State.{World, apply_local, local_effect, insert_commit, fail}
use sidestage_copilot.Actions.Executor.Approve.{approve, intent_of, record_locally}
use sidestage_copilot.Actions.Executor.Approve.Phases.{SameTables, BothOrNeither, status_of}
use sidestage_copilot.Actions.Executor.Approve.Atomic.{
  approve-BothOrNeither, approve_again_writes_nothing,
}
use sidestage_copilot.Actions.Executor.Approve.Trace.{Trace, approve-Trace}
use sidestage_copilot.Actions.Executor.Approve.Sync.{InStep, approve-InStep}
use sidestage_copilot.Actions.Executor.Approve.Drift.{swap_then_conflict}
use sidestage_copilot.Actions.Executor.Rollback.{rollback, record_rollback, restore_local}
use sidestage_copilot.Actions.Executor.Rollback.Laws.{IsRestored, rollback-IsRestored}
use sidestage_copilot.Actions.Executor.Rollback.Tables.{UndoneOrNot, rollback-UndoneOrNot}
use sidestage_copilot.Examples.Show.{remote_of, node, panda, chicago, markdown, swap, evening, env}

abbrev sold : World Mock
sold = (approve (mock_adapter node) env "seller" "act_1" evening).1

abbrev swapped : World Mock
swapped = (approve (mock_adapter node) env "seller" "act_2" evening).1

sold_committed :
    status_of (approve (mock_adapter node) env "seller" "act_1" evening).0 ≡ some committed
unfolding approve patch record_locally apply_local local_effect insert_commit fail mutate_listing
    patched to_column get put update update_all remove reserve apply apply_remote mutation_for
    number_param release set_pinned repinned
sold_committed = refl

swapped_committed :
    status_of (approve (mock_adapter node) env "seller" "act_2" evening).0 ≡ some committed
unfolding approve patch record_locally apply_local local_effect insert_commit fail mutate_listing
    patched to_column get put update update_all remove reserve apply apply_remote mutation_for
    number_param release set_pinned repinned
swapped_committed = refl

-- Once committed, the action carries the end of its undo window.
abbrev done : Action
done = record markdown { status = committed; undoable_until = some 31000 }

found_sold : get "act_1" sold.actions ≡ some done
unfolding approve patch record_locally apply_local local_effect insert_commit fail mutate_listing
    patched to_column get put update update_all remove reserve apply apply_remote mutation_for
    number_param release set_pinned repinned
found_sold = refl

-- The pin moves, the state is live, and two versions have gone by.
abbrev moved : Listing
moved = record chicago { pinned = true; state = live; version = 4; updated_at = 1000 }

found_moved : get "lot2" swapped.listings ≡ some moved
unfolding approve patch record_locally apply_local local_effect insert_commit fail mutate_listing
    patched to_column get put update update_all remove reserve apply apply_remote mutation_for
    number_param release set_pinned repinned
found_moved = refl

open_markdown : proposed ≢ committed
open_markdown = ground arith

undone_status :
    status_of (rollback (mock_adapter node) env "seller" "act_1" sold).0 ≡ some rolled_back
unfolding approve rollback patch record_rollback restore_local compensate record_locally apply_local
    local_effect insert_commit fail mutate_listing patched to_column get put update update_all
    remove reserve apply apply_remote mutation_for number_param release set_pinned repinned
undone_status = refl

approve-BothOrNeither_example :
    BothOrNeither env markdown evening (approve (mock_adapter node) env "seller" "act_1" evening)
unfolding get
approve-BothOrNeither_example =
    approve-BothOrNeither (mock_adapter node) env "seller" "act_1" markdown evening refl
      open_markdown refl refl

approve-Trace_example :
    Trace (mock_adapter node) (intent_of markdown) evening.remote sold.remote
    ⊎ (((proposed ≡ committed) ⊎ (is_some (get "act_1" evening.commits) ≡ true))
        × SameTables evening sold
        × (sold.remote ≡ evening.remote))
unfolding get
approve-Trace_example =
    approve-Trace (mock_adapter node) env "seller" "act_1" markdown evening refl sold_committed

approve_again_writes_nothing_example :
    SameTables sold (approve (mock_adapter node) env "seller" "act_1" sold).1
    × ((approve (mock_adapter node) env "seller" "act_1" sold).1.remote ≡ sold.remote)
unfolding get
approve_again_writes_nothing_example =
    approve_again_writes_nothing (mock_adapter node) env env "seller" "seller" "act_1" "act_1"
      markdown done evening refl open_markdown refl refl sold_committed found_sold refl

approve-InStep_example : InStep 5 5 (get "lot1" sold.listings) (get "lot1" sold.remote.remote)
unfolding get
approve-InStep_example =
    approve-InStep env "seller" "act_1" markdown evening panda (remote_of panda) refl open_markdown
      refl refl refl refl refl (refl, refl, refl, refl) sold_committed

swap_then_conflict_example :
    (reserve (record (intent_of swap) { expected_version = 4 }) swapped.remote).0
    ≡ threw (conflict 4 3)
unfolding get
swap_then_conflict_example =
    swap_then_conflict env "seller" "act_2" swap evening chicago (remote_of chicago) moved
      (record (intent_of swap) { expected_version = 4 }) refl open_markdown refl refl refl refl refl
      (refl, refl, refl, refl) refl swapped_committed found_moved refl refl

abbrev cut : Listing
cut = record panda { price_cents = 18000; version = 5; updated_at = 1000 }

found_cut : get "lot1" sold.listings ≡ some cut
unfolding approve patch record_locally apply_local local_effect insert_commit fail mutate_listing
    patched to_column get put update update_all remove reserve apply apply_remote mutation_for
    number_param release set_pinned repinned
found_cut = refl

rollback-IsRestored_example :
    (l' : Listing) × (get "lot1" (rollback (mock_adapter node) env "seller" "act_1" sold).1.listings
      ≡ some l')
    × IsRestored (snapshot panda) cut l'
rollback-IsRestored_example =
    rollback-IsRestored (mock_adapter node) env "seller" "act_1" done (snapshot panda) sold cut
      found_sold refl found_cut undone_status

rollback-UndoneOrNot_example :
    UndoneOrNot env done sold (rollback (mock_adapter node) env "seller" "act_1" sold)
rollback-UndoneOrNot_example =
    rollback-UndoneOrNot (mock_adapter node) env "seller" "act_1" done sold found_sold
