-- ===== src/Actions/Preflight/Laws.antt =====
-- What a passed preflight guarantees, kind by kind, and that it asks for no more.
use sidestage_copilot.Prelude.{
  ℕ, ◌+◌, ◌*◌, ◌≤◌, ◌<◌, ◌≡◌, refl, ◌≢◌, ◌↔◌, ◌⊎◌, true, false, Option, none, some, arith,
}
use sidestage_copilot.Prelude.Int.{pos, negsuc}
use sidestage_copilot.Domain.{
  ActionKind, push_listing, swap_pinned, markdown_price, adjust_stock, end_listing, includes, ended,
  queued, draft, by_api,
}
use sidestage_copilot.Js.{Num, whole, nan, infinite, Runtime}
use sidestage_copilot.Catalog.{Listing}
use sidestage_copilot.Actions.Port.{Params}
use sidestage_copilot.Actions.Mock.{number_param}
use sidestage_copilot.Actions.Preflight.{
  is_post_reply, PreflightContext, posting_enabled, markdown_checks, stock_checks, kind_checks,
  global_checks, preflight, all_passed, listing_kinds,
}

-- A markdown that keeps every limit of the seller.
pub record IsMarkdown (cap : ℕ) (l : Listing) (next : ℕ) : Type 0 where
  pub positive : 0 < next
  pub below_price : next < l.price_cents
  pub above_floor : l.floor_price_cents ≤ next
  pub above_cost : l.cost_cents < next
  pub capped : l.price_cents * 1000000 ≤ next * 1000000 + (cap + 1) * l.price_cents
  pub active : l.state ≢ ended

-- A change of the stock that is no slip of the finger.
pub record IsRestock (l : Listing) (next : ℕ) : Type 0 where
  pub changes : next ≢ l.qty
  pub up : next ≤ l.qty + 10
  pub down : l.qty ≤ next + 10

-- The limits of each kind of action, read off the rules and not off the code.
abbrev pub MayWrite : Runtime → ℕ → ActionKind → Listing → Params → Type 0
MayWrite rt cap markdown_price l p =
    (n : ℕ) × (number_param rt "newPriceCents" p ≡ whole (pos n)) × IsMarkdown cap l n
MayWrite rt cap adjust_stock l p =
    (n : ℕ) × (number_param rt "newQty" p ≡ whole (pos n)) × IsRestock l n
MayWrite rt cap swap_pinned l p = (l.pinned ≡ false) × (l.state ≢ ended) × (0 < l.qty)
MayWrite rt cap push_listing l p =
    ((l.state ≡ queued) ⊎ (l.state ≡ draft)) × (0 < l.qty) × (l.floor_price_cents ≤ l.price_cents)
MayWrite rt cap end_listing l p = (l.state ≢ ended) × (l.pinned ≡ false)
MayWrite rt cap _ l p = Unit

module _ (cap : ℕ) (l : Listing) where
  markdown_checks_iff :
      (x : Num)
      → (all_passed (markdown_checks cap l x) ≡ true)
        ↔ ((n : ℕ) × (x ≡ whole (pos n)) × IsMarkdown cap l n)
  unfolding markdown_checks
  markdown_checks_iff nan = (λ h. cc, λ (n, e, m). cc)
  markdown_checks_iff infinite = (λ h. cc, λ (n, e, m). cc)
  markdown_checks_iff (whole (negsuc k)) = (λ h. cc, λ (n, e, m). cc)
  markdown_checks_iff (whole (pos k)) = (λ h. (k, refl, ground arith), λ (n, e, m). ground arith)

stock_checks_iff :
    (l : Listing) (x : Num)
    → (all_passed (stock_checks l x) ≡ true) ↔ ((n : ℕ) × (x ≡ whole (pos n)) × IsRestock l n)
unfolding stock_checks
stock_checks_iff l nan = (λ h. cc, λ (n, e, m). cc)
stock_checks_iff l infinite = (λ h. cc, λ (n, e, m). cc)
stock_checks_iff l (whole (negsuc k)) = (λ h. ground arith, λ (n, e, m). cc)
stock_checks_iff l (whole (pos k)) = (λ h. (k, refl, ground arith), λ (n, e, m). ground arith)

kind_checks_iff :
    (rt : Runtime) (cap : ℕ) (kind : ActionKind) (l : Listing) (p : Params)
    → (all_passed (kind_checks rt cap kind l p) ≡ true) ↔ MayWrite rt cap kind l p
unfolding kind_checks
kind_checks_iff rt cap markdown_price l p =
    markdown_checks_iff cap l (number_param rt "newPriceCents" p)
kind_checks_iff rt cap adjust_stock l p = stock_checks_iff l (number_param rt "newQty" p)
kind_checks_iff rt cap swap_pinned l p = ground arith
kind_checks_iff rt cap push_listing l p = ground arith
kind_checks_iff rt cap end_listing l p = ground arith
kind_checks_iff rt cap _ l p = ground arith

abbrev IsListed : Runtime → ℕ → ActionKind → Option Listing → Params → Type 0
IsListed rt cap kind none p = includes listing_kinds kind ≡ false
IsListed rt cap kind (some l) p = MayWrite rt cap kind l p

-- The whole of what a write needs: the surface, the switch of the room, the ownership of the show,
-- its budget and rate, and the limits of the kind.
pub record MayPropose (rt : Runtime) (cap : ℕ) (kind : ActionKind) (o : Option Listing) (p : Params)
    (ctx : PreflightContext) : Type 0 where
  pub supported : includes ctx.surface.actions kind ≡ true
  pub speaks :
      (is_post_reply kind ≡ false)
      ⊎ ((ctx.surface.delivery ≡ by_api) × (posting_enabled ctx.posting ≡ true))
  pub ours : ctx.read_only_show ≡ false
  pub in_budget : ctx.committed_this_show < ctx.action_budget
  pub in_rate : ctx.committed_last_minute < ctx.rate_per_minute
  pub in_limits : IsListed rt cap kind o p

-- A preflight passes exactly when the write is allowed by every rule.
pub preflight-passed_iff :
    (rt : Runtime) (cap : ℕ) (kind : ActionKind) (o : Option Listing) (p : Params)
    (ctx : PreflightContext)
    → ((preflight rt cap kind o p ctx).passed ≡ true) ↔ MayPropose rt cap kind o p ctx
unfolding preflight global_checks
preflight-passed_iff rt cap kind none p ctx = ground arith
preflight-passed_iff rt cap kind (some l) p ctx = ground (arith, kind_checks_iff rt cap kind l p)
