-- ===== src/Actions/Executor/Approve/Sync.antt =====
-- Our catalog and the shipped marketplace side by side: what a commit leaves on both.
use sidestage_copilot.Prelude.{
  ℕ, ◌+◌, String, ◌≡◌, refl, ap, ◌∙◌, ◌≢◌, inl, inr, Bool, true, false, Option, none, some, arith,
  Option-cases,
}
use sidestage_copilot.Prelude.Int.{pos}
use sidestage_copilot.Domain.{
  ActionKind, swap_pinned, markdown_price, adjust_stock, push_listing, end_listing, committed,
}
use sidestage_copilot.Js.{whole, Runtime}
use sidestage_copilot.Dict.{Dict, get}
use sidestage_copilot.Catalog.{Listing, patched, set_pinned}
use sidestage_copilot.Catalog.Laws.{mutate_listing-row, column-whole, set_pinned-row}
use sidestage_copilot.Actions.Port.{Params, ActionIntent, RemoteListing, MarketplaceAdapter}
use sidestage_copilot.Actions.Mock.{
  Mock, mock_adapter, mutation_for, number_param, apply_remote, release,
}
use sidestage_copilot.Actions.Mock.Laws.{reserve-Reserved, apply-remote, get-apply_remote}
use sidestage_copilot.Actions.Store.{Action}
use sidestage_copilot.Actions.Executor.State.{
  World, Env, apply_local, local_effect, new_price, new_qty, version_of, going_live, ending,
}
use sidestage_copilot.Actions.Executor.Approve.{approve, intent_of}
use sidestage_copilot.Actions.Executor.Approve.Phases.{status_of}
use sidestage_copilot.Actions.Executor.Approve.Atomic.{approve-BothOrNeither}
use sidestage_copilot.Actions.Executor.Approve.Trace.{Trace, approve-committed}

-- The four fields that both sides hold.
abbrev pub SameFields : Listing → RemoteListing → Type 0
SameFields l r =
    (r.price_cents ≡ some (whole (pos l.price_cents)))
    × (r.qty ≡ some (whole (pos l.qty)))
    × (r.state ≡ some l.state)
    × (r.pinned ≡ some l.pinned)

-- How many versions a local write of this kind takes; a remote write takes one.
abbrev pub local_steps : ActionKind → ℕ
local_steps swap_pinned = 2
local_steps _ = 1

abbrev writes_listing : ActionKind → Bool
writes_listing swap_pinned = true
writes_listing markdown_price = true
writes_listing adjust_stock = true
writes_listing push_listing = true
writes_listing end_listing = true
writes_listing _ = false

-- What a local write leaves in the row of its listing, against what a remote one writes.
abbrev Written : Env → ActionKind → Params → Listing → RemoteListing → Option Listing → Type 0
Written e kind p l r o =
    (l' : Listing) × (o ≡ some l')
    × SameFields l' (mutation_for e.runtime kind p r)
    × (l'.version ≡ l.version + local_steps kind)

module _ (e : Env) (id : String) (p : Params) (d d' : Dict Listing) (l : Listing)
    (r : RemoteListing) (found : get id d ≡ some l) (same : SameFields l r) where
  markdown-Written :
      local_effect e markdown_price id p d ≡ some d' → Written e markdown_price p l r (get id d')
  unfolding local_effect mutation_for patched
  markdown-Written h =
      let (row, valid) = mutate_listing-row id (new_price e.runtime p) e.now d d' l h refl found in
      let exact =
        column-whole (number_param e.runtime "newPriceCents" p) l.price_cents (ground arith) in
      (patched (new_price e.runtime p) e.now l, row, ground arith, refl)

  stock-Written :
      local_effect e adjust_stock id p d ≡ some d' → Written e adjust_stock p l r (get id d')
  unfolding local_effect mutation_for patched
  stock-Written h =
      let (row, valid) = mutate_listing-row id (new_qty e.runtime p) e.now d d' l h refl found in
      let exact = column-whole (number_param e.runtime "newQty" p) l.qty (ground arith) in
      (patched (new_qty e.runtime p) e.now l, row, ground arith, refl)

  push-Written :
      local_effect e push_listing id p d ≡ some d' → Written e push_listing p l r (get id d')
  unfolding local_effect mutation_for patched
  push-Written h = (
    patched going_live e.now l,
    (mutate_listing-row id going_live e.now d d' l h refl found).0,
    ground arith,
    refl,
  )

  end-Written :
      local_effect e end_listing id p d ≡ some d' → Written e end_listing p l r (get id d')
  unfolding local_effect mutation_for patched
  end-Written h = (
    patched ending e.now l,
    (mutate_listing-row id ending e.now d d' l h refl found).0,
    ground arith,
    refl,
  )

  swap-Written :
      local_effect e swap_pinned id p d ≡ some d' → Written e swap_pinned p l r (get id d')
  unfolding local_effect mutation_for patched
  swap-Written h = elim (Option-cases (set_pinned id e.now d)) [
    | inl missing ↦ absurd (ground arith)
    | inr (d1, pins) ↦
        let pinned : Listing = record l {
          pinned = true;
          version = l.version + 1;
          updated_at = e.now;
        } in
        let (row, valid) =
          mutate_listing-row id going_live e.now d1 d' pinned (ground arith) refl
            (set_pinned-row id e.now d d1 l pins found) in
        (patched going_live e.now pinned, row, ground arith, omega arith)
  ]

  local_effect-Written :
      (kind : ActionKind)
      → writes_listing kind ≡ true
      → local_effect e kind id p d ≡ some d'
      → Written e kind p l r (get id d')
  local_effect-Written markdown_price k h = markdown-Written h
  local_effect-Written adjust_stock k h = stock-Written h
  local_effect-Written swap_pinned k h = swap-Written h
  local_effect-Written push_listing k h = push-Written h
  local_effect-Written end_listing k h = end-Written h
  local_effect-Written _ k h = absurd (cc)

-- The listing at the marketplace after a reserved, applied and confirmed write.
mock-Trace-row :
    (rt : Runtime) (i : ActionIntent) (m m' : Mock) (r : RemoteListing)
    → Trace (mock_adapter rt) i m m'
    → get i.listing_id m.remote ≡ some r
    → (get i.listing_id m'.remote
        ≡ some (record (mutation_for rt i.kind i.params r) { version = r.version + 1 }))
      × (r.version ≡ i.expected_version)
unfolding release
mock-Trace-row rt i m m' r t theirs =
    let held = reserve-Reserved i m t.held t.res t.reserves in
    let remote : m'.remote ≡ apply_remote rt t.res m.remote =
      ap (λ (x : Mock). x.remote) t.confirms
      ∙ (apply-remote rt t.res t.held t.after t.listing t.applies).0
      ∙ ap (apply_remote rt t.res) held.untouched in
    let row = get-apply_remote rt t.res m.remote r (rw held.listing_id theirs) in
    (cc (remote, row, held.listing_id, held.intent), ground (arith, held.there))

-- Both sides of a listing, fields and versions.
pub record InStep (ours theirs : ℕ) (l : Option Listing) (r : Option RemoteListing) : Type 0 where
  pub listing : Listing
  pub remote : RemoteListing
  pub here : l ≡ some listing
  pub there : r ≡ some remote
  pub fields : SameFields listing remote
  pub our_version : listing.version ≡ ours
  pub their_version : remote.version ≡ theirs

-- Over the shipped marketplace, a commit of a listing action leaves our row and the marketplace's
-- with the same price, stock, state and pin, where they had them before. The marketplace's version
-- is then one further than the version that the action was planned against; ours is one further
-- than it was, and two for a swap of the pin.
pub approve-InStep :
    (e : Env) (actor id : String) (a : Action) (w : World Mock) (l : Listing) (r : RemoteListing)
    → get id w.actions ≡ some a
    → a.status ≢ committed
    → a.preflight_ok ≡ true
    → get a.idempotency_key w.commits ≡ none
    → writes_listing a.kind ≡ true
    → get a.listing_id w.listings ≡ some l
    → get a.listing_id w.remote.remote ≡ some r
    → SameFields l r
    → status_of (approve (mock_adapter e.runtime) e actor id w).0 ≡ some committed
    → let w' = (approve (mock_adapter e.runtime) e actor id w).1 in
      InStep
        (l.version + local_steps a.kind)
        (version_of a.before + 1)
        (get a.listing_id w'.listings)
        (get a.listing_id w'.remote.remote)
approve-InStep e actor id a w l r found open_ ok_ free k ours theirs same done =
    elim (approve-BothOrNeither m e actor id a w found open_ ok_ free) [
      | inl (_, inl failed_) ↦ absurd (cc)
      | inl (_, inr thrown) ↦ absurd (ground arith)
      | inr (rec, _) ↦
          let (l', row, fields, version) =
            local_effect-Written e a.listing_id a.params w.listings w'.listings l r ours same a.kind
              k (unfold apply_local in rec.effect) in
          record {
            listing = l';
            remote = record (mutation_for e.runtime a.kind a.params r) { version = r.version + 1 };
            here = row;
            there = (mock-Trace-row e.runtime (intent_of a) w.remote w'.remote r t theirs).0;
            fields = fields;
            our_version = version;
            their_version =
                ap (λ (n : ℕ). n + 1)
                  (mock-Trace-row e.runtime (intent_of a) w.remote w'.remote r t theirs).1;
          }
    ]
  where
    m : MarketplaceAdapter
    m = mock_adapter e.runtime

    w' : World Mock
    w' = (approve m e actor id w).1

    t : Trace m (intent_of a) w.remote w'.remote
    t = approve-committed m e actor id a w found open_ ok_ free done
