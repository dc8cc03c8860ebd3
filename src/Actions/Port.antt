-- ===== src/Actions/Port.antt =====
-- src/actions/marketplace/port.ts: the marketplace behind its two-phase protocol. An operation of
-- an adapter returns the marketplace's next state also where it throws.
use sidestage_copilot.Prelude.{ℕ, String, Bool, Option, List}
use sidestage_copilot.Domain.{ActionKind, ListingState}
use sidestage_copilot.Js.{Num, Value}

-- `Record<string, unknown>`
abbrev pub Params : Type 0
Params = List (String × Value)

pub record ActionIntent : Type 0 where
  pub kind : ActionKind
  pub listing_id : String
  pub expected_version : ℕ
  pub params : Params
  pub idempotency_key : String

pub record Reservation : Type 0 where
  pub token : String
  pub listing_id : String
  pub expected_version : ℕ
  pub intent : ActionIntent

-- A field that is `none` is `undefined`.
pub record RemoteListing : Type 0 where
  pub price_cents : Option Num
  pub qty : Option Num
  pub state : Option ListingState
  pub pinned : Option Bool
  pub version : ℕ

-- `Partial<RemoteListing>` of a captured prior state, every field named: to spread it over a
-- listing writes all four, `undefined` too.
pub record RemoteFields : Type 0 where
  pub price_cents : Option Num
  pub qty : Option Num
  pub state : Option ListingState
  pub pinned : Option Bool

pub data MarketplaceError : Type 0 where
  conflict : ℕ → ℕ → MarketplaceError
  apply_error : MarketplaceError

pub data Outcome {ℓ} (A : Type ℓ) : Type ℓ where
  ok : A → Outcome A
  threw : MarketplaceError → Outcome A

-- The callers of `confirm` and `cancel` ignore what they throw.
pub record MarketplaceAdapter : Type 1 where
  pub State : Type 0
  pub reserve : ActionIntent → State → Outcome Reservation × State
  pub apply : Reservation → State → Outcome RemoteListing × State
  pub confirm : Reservation → State → State
  pub cancel : Reservation → State → State
  pub compensate : Reservation → RemoteFields → State → Outcome RemoteListing × State
