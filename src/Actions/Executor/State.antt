-- ===== src/Actions/Executor/State.antt =====
-- The state that the executor works on, the local write, and the four operations.
use sidestage_copilot.Prelude.{
  ℕ, String, Bool, false, Option, none, some, List, [], ◌∷◌, ◌++◌, if◌then◌else◌, is_some,
}
use sidestage_copilot.Prelude.Int.{pos}
use sidestage_copilot.Domain.{
  ActionKind, push_listing, swap_pinned, markdown_price, adjust_stock, end_listing, ActionStatus,
  failed, live, ended, SurfaceId,
}
use sidestage_copilot.Js.{whole, Runtime}
use sidestage_copilot.Dict.{Dict, get, put}
use sidestage_copilot.Catalog.{Listing, ListingPatch, no_patch, mutate_listing, set_pinned}
use sidestage_copilot.Actions.Port.{Params, RemoteFields}
use sidestage_copilot.Actions.Mock.{number_param}
use sidestage_copilot.Actions.Preflight.{Posting, Snapshot}
use sidestage_copilot.Actions.Store.{Failure, Action, Commit, ActionPatch, patched_action, patch}

pub data AuditKind : Type 0 where
  action_proposed action_preflight_failed action_committed : AuditKind
  action_failed action_rolled_back : AuditKind

pub record AuditNote : Type 0 where
  pub kind : AuditKind
  pub actor : String
  pub action_id : String

-- The two callbacks: `onChange` with the row, `onListingWrite` with the listing.
pub data Event : Type 0 where
  changed : Action → Event
  listing_written : String → Event

pub record World (S : Type 0) : Type 0 where
  pub listings : Dict Listing
  pub actions : Dict Action
  pub commits : Dict Commit
  pub audit : List AuditNote
  pub events : List Event
  pub remote : S

-- What an operation reads of its surroundings, and which statements of the database succeed: the
-- transaction of a commit or a rollback, the write of a row that opens an operation (an insert, or
-- the patch to `committing`), the patch of a row that ends it, and the append to the audit log.
pub record Env : Type 0 where
  pub runtime : Runtime
  pub now : ℕ
  pub tx_fails : Bool
  pub marks : Bool
  pub settles : Bool
  pub audit_up : Bool
  pub undo_window_s : ℕ
  pub discount_cap : ℕ
  pub action_budget : ℕ
  pub rate_per_minute : ℕ
  pub source : Option SurfaceId
  pub read_only : Bool
  pub posting_for : Option Posting

-- An operation returns a row or throws: no row, a transaction, or another statement.
pub data Reply : Type 0 where
  returned : Action → Reply
  not_found : Reply
  transaction_threw : Reply
  statement_threw : Reply

infixl 5 ◌>>=◌
abbrev pub ◌>>=◌ {ℓ κ} : {A : Type ℓ} {B : Type κ} → Option A → (A → Option B) → Option B
none >>= f = none
some a >>= f = f a

abbrev pub new_price : Runtime → Params → ListingPatch
new_price rt p = record no_patch { price_cents = some (number_param rt "newPriceCents" p) }

abbrev pub new_qty : Runtime → Params → ListingPatch
new_qty rt p = record no_patch { qty = some (number_param rt "newQty" p) }

abbrev pub going_live : ListingPatch
going_live = record no_patch { state = some live }

abbrev pub ending : ListingPatch
ending = record no_patch { state = some ended; pinned = some false }

unfoldable pub local_effect :
    Env → ActionKind → String → Params → Dict Listing → Option (Dict Listing)
local_effect e markdown_price id p d = mutate_listing id (new_price e.runtime p) e.now d
local_effect e adjust_stock id p d = mutate_listing id (new_qty e.runtime p) e.now d
local_effect e swap_pinned id p d = do
  d' ← set_pinned id e.now d
  mutate_listing id going_live e.now d'
local_effect e push_listing id p d = mutate_listing id going_live e.now d
local_effect e end_listing id p d = mutate_listing id ending e.now d
local_effect e _ id p d = some d

-- `applyLocal`: the action's effect on our own listing row.
unfoldable pub apply_local : Env → Action → Dict Listing → Option (Dict Listing)
unfolding local_effect
apply_local e a d = local_effect e a.kind a.listing_id a.params d

-- `INSERT INTO action_commits`, which throws on a key that is there.
unfoldable pub insert_commit : String → Commit → Dict Commit → Option (Dict Commit)
insert_commit key c d = if is_some (get key d) then none else some (put key c d)

-- `beforeRemote`: four fields, each `undefined` where no state was captured.
abbrev pub before_remote : Option Snapshot → RemoteFields
before_remote none = record { price_cents = none; qty = none; state = none; pinned = none }
before_remote (some b) = record {
  price_cents = some (whole (pos b.price_cents));
  qty = some (whole (pos b.qty));
  state = some b.state;
  pinned = some b.pinned;
}

-- `Number(before.version ?? 0)`
abbrev pub version_of : Option Snapshot → ℕ
version_of none = 0
version_of (some b) = b.version

abbrev pub set_status : ActionStatus → ActionPatch
set_status s = record { status = some s; undoable_until = none; error = none }

module _ {S : Type 0} where
  abbrev pub note : AuditKind → String → String → World S → World S
  note kind actor id w = record w {
    audit = w.audit ++ record { kind = kind; actor = actor; action_id = id } ∷ [];
  }

  abbrev pub emit : Event → World S → World S
  emit ev w = record w { events = w.events ++ ev ∷ [] }

  -- `store.patch` on a row that is there, and the row that it returns.
  abbrev pub patch_row : Action → ActionPatch → World S → World S
  patch_row a p w = record w { actions = patch a.id p w.actions }

  -- The note of an operation and the callback after it; the row is written by then.
  abbrev pub announced : Env → AuditKind → String → Action → World S → Reply × World S
  announced e kind actor a w =
      if e.audit_up
      then (returned a, emit (changed a) (note kind actor a.id w))
      else (statement_threw, w)

  -- `fail`
  unfoldable pub fail : Env → Action → Failure → World S → Reply × World S
  fail e a why w =
      let p : ActionPatch = record (set_status failed) { error = some (some why) } in
      if e.settles
      then announced e action_failed "system" (patched_action p a) (patch_row a p w)
      else (statement_threw, w)
