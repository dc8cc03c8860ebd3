-- ===== src/Actions/Preflight.antt =====
-- src/actions/preflight.ts. A check keeps its name and whether it passed; the sentence that a
-- console shows with it is left out. The discount cap is a number of ten-thousandths of a per
-- cent, so that the code's `maxDiscountPct + 0.0001` is exact; the code's floats are not.
pub mod Laws
pub mod Keys
use sidestage_copilot.Prelude.{
  ℕ, ◌+◌, ◌-◌, ◌*◌, String, Bool, true, false, not, ◌&&◌, ◌||◌, Option, none, some, List, [], ◌∷◌,
  ◌++◌, if◌then◌else◌, is_some, ltb, leb, ◌==◌, every,
}
use sidestage_copilot.Prelude.Int.{ℤ, pos, pos_part, neg_part, ltb_ℤ, leb_ℤ}
use sidestage_copilot.Domain.{
  ActionKind, push_listing, swap_pinned, markdown_price, adjust_stock, end_listing, post_reply,
  includes, ListingState, draft, queued, is_ended, SurfaceCapabilities, delivers, SurfaceId,
  capabilities_of,
}
use sidestage_copilot.Js.{Num, nan, infinite, whole, Runtime}
use sidestage_copilot.Catalog.{Listing}
use sidestage_copilot.Actions.Port.{Params}
use sidestage_copilot.Actions.Mock.{number_param}

pub record Posting : Type 0 where
  pub room : String
  pub enabled : Bool

pub record PreflightContext : Type 0 where
  pub surface : SurfaceCapabilities
  pub posting : Option Posting
  pub read_only_show : Bool
  pub committed_this_show : ℕ
  pub action_budget : ℕ
  pub committed_last_minute : ℕ
  pub rate_per_minute : ℕ

pub record PreflightCheck : Type 0 where
  pub name : String
  pub passed : Bool

-- The prior state of a listing, the only input of a rollback.
pub record Snapshot : Type 0 where
  pub price_cents : ℕ
  pub qty : ℕ
  pub state : ListingState
  pub pinned : Bool
  pub version : ℕ

-- `before` is `none` for the empty object.
pub record PreflightResult : Type 0 where
  pub passed : Bool
  pub checks : List PreflightCheck
  pub before : Option Snapshot

abbrev pub check : String → Bool → PreflightCheck
check name b = record { name = name; passed = b }

abbrev pub listing_kinds : List ActionKind
listing_kinds = push_listing ∷ swap_pinned ∷ markdown_price ∷ adjust_stock ∷ end_listing ∷ []

abbrev pub is_post_reply : ActionKind → Bool
is_post_reply post_reply = true
is_post_reply _ = false

abbrev pub posting_enabled : Option Posting → Bool
posting_enabled none = false
posting_enabled (some p) = p.enabled

abbrev pub snapshot : Listing → Snapshot
snapshot l = record {
  price_cents = l.price_cents;
  qty = l.qty;
  state = l.state;
  pinned = l.pinned;
  version = l.version;
}

abbrev refused : String → PreflightResult
refused name = record { passed = false; checks = check name false ∷ []; before = none }

-- ((price - next) / price) * 100 <= maxDiscountPct + 0.0001, for a price of at least 0 and a next
-- price above 0: at a price of 0 the quotient is minus infinity.
abbrev pub within_discount : ℕ → ℕ → ℕ → Bool
within_discount cap price next = leb (price * 1000000) (next * 1000000 + (cap + 1) * price)

pub markdown_checks : ℕ → Listing → Num → List PreflightCheck
markdown_checks cap l (whole (pos next)) =
    if next == 0
    then check "valid price" false ∷ []
    else check "is a markdown" (ltb next l.price_cents)
      ∷ check "above floor price" (leb l.floor_price_cents next)
      ∷ check "within max discount" (within_discount cap l.price_cents next)
      ∷ check "above cost basis" (ltb l.cost_cents next)
      ∷ check "listing is active" (not (is_ended l.state))
      ∷ []
markdown_checks cap l _ = check "valid price" false ∷ []

-- `Math.abs(next - qty) <= 10`
abbrev pub plausible : ℤ → ℕ → Bool
plausible next qty =
    leb (pos_part next) (neg_part next + qty + 10) && leb (neg_part next + qty) (pos_part next + 10)

pub stock_checks : Listing → Num → List PreflightCheck
stock_checks l (whole next) =
    check "non-negative stock" (leb_ℤ (pos 0) next)
    ∷ check "changes stock" (ltb_ℤ next (pos l.qty) || ltb_ℤ (pos l.qty) next)
    ∷ check "plausible adjustment" (plausible next l.qty)
    ∷ []
stock_checks l _ = check "valid quantity" false ∷ []

abbrev pub is_waiting : ListingState → Bool
is_waiting queued = true
is_waiting draft = true
is_waiting _ = false

-- The `switch` on the kind, for an action with a listing.
unfoldable pub kind_checks : Runtime → ℕ → ActionKind → Listing → Params → List PreflightCheck
unfolding markdown_checks stock_checks
kind_checks rt cap markdown_price l p = markdown_checks cap l (number_param rt "newPriceCents" p)
kind_checks rt cap adjust_stock l p = stock_checks l (number_param rt "newQty" p)
kind_checks rt cap swap_pinned l p =
    check "not already pinned" (not l.pinned)
    ∷ check "listing is active" (not (is_ended l.state))
    ∷ check "has stock" (ltb 0 l.qty)
    ∷ []
kind_checks rt cap push_listing l p =
    check "is queued" (is_waiting l.state)
    ∷ check "has stock" (ltb 0 l.qty)
    ∷ check "priced above floor" (leb l.floor_price_cents l.price_cents)
    ∷ []
kind_checks rt cap end_listing l p =
    check "not already ended" (not (is_ended l.state))
    ∷ check "not the pinned lot" (not l.pinned)
    ∷ []
kind_checks rt cap _ l p = []

unfoldable pub global_checks : PreflightContext → List PreflightCheck
global_checks ctx =
    (if ctx.read_only_show then check "show is yours to edit" false ∷ [] else [])
    ++ (check "show action budget" (ltb ctx.committed_this_show ctx.action_budget)
        ∷ check "write rate" (ltb ctx.committed_last_minute ctx.rate_per_minute)
        ∷ [])

abbrev pub all_passed : List PreflightCheck → Bool
all_passed = every (λ c. c.passed)

abbrev listing_checks : Runtime → ℕ → ActionKind → Option Listing → Params → List PreflightCheck
listing_checks rt cap kind none p = []
listing_checks rt cap kind (some l) p = kind_checks rt cap kind l p

abbrev pub before_of : Option Listing → Option Snapshot
before_of none = none
before_of (some l) = some (snapshot l)

measured : Runtime → ℕ → ActionKind → Option Listing → Params → PreflightContext → PreflightResult
measured rt cap kind o p ctx =
    let checks = global_checks ctx ++ listing_checks rt cap kind o p in
    record { passed = all_passed checks; checks = checks; before = before_of o }

-- The checks on the surface come first, and each of them ends the preflight where it fails.
unfoldable pub preflight :
    Runtime → ℕ → ActionKind → Option Listing → Params → PreflightContext → PreflightResult
unfolding measured
preflight rt cap kind listing params ctx =
    if not (includes ctx.surface.actions kind)
    then refused (
        if is_post_reply kind && not (delivers ctx.surface.delivery)
        then "the surface delivers replies"
        else "this surface supports the action")
    else if is_post_reply kind && not (delivers ctx.surface.delivery)
    then refused "the surface delivers replies"
    else if is_post_reply kind && not (posting_enabled ctx.posting)
    then refused "posting is on for this room"
    else if not (is_some listing) && includes listing_kinds kind
    then refused "listing exists"
    else measured rt cap kind listing params ctx

-- `showBudgetContext`, over the show's surface and whether it is read-only.
unfoldable pub show_budget_context :
    Option SurfaceId → Bool → ℕ → ℕ → ℕ → ℕ → Option Posting → PreflightContext
show_budget_context source read_only budget rate this_show last_minute posting = record {
  surface = capabilities_of source;
  posting = posting;
  read_only_show = read_only;
  committed_this_show = this_show;
  action_budget = budget;
  committed_last_minute = last_minute;
  rate_per_minute = rate;
}
