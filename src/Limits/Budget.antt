-- ===== src/Limits/Budget.antt =====
-- src/llm/billing.ts, `SpendWindow`, and src/llm/budget.ts, `BudgetWatch`: what a show has cost, by
-- the difference of two balances, and the latch that stops drafting at the cap. Money is in
-- ten-thousandths of a dollar, to which `since` rounds; times of reading are left out, and the timer
-- that calls `poll` is the caller.
pub mod Laws
use sidestage_copilot.Prelude.{
  ℕ, zero, suc, ◌-◌, String, Bool, true, false, Option, none, some, List, [], ◌∷◌, ◌++◌,
  if◌then◌else◌, leb, ltb, is_some, str_eq,
}
use sidestage_copilot.Prelude.Int.{ℤ, pos, negsuc}
use sidestage_copilot.Dict.{Dict, get, put, remove}

pub record SpendWindow : Type 0 where
  pub opened : Dict ℕ
  pub last_spend : Dict ℕ

abbrev pub new_window : SpendWindow
new_window = record { opened = []; last_spend = [] }

abbrev open_at : String → Bool → ℕ → SpendWindow → SpendWindow
open_at key true balance s = s
open_at key false balance s = record s { opened = put key balance s.opened }

-- `SpendWindow.open`
unfoldable pub open_window : String → Option ℕ → SpendWindow → SpendWindow
open_window key none s = s
open_window key (some balance) s = open_at key (is_some (get key s.opened)) balance s

unfoldable pub close_window : String → SpendWindow → SpendWindow
close_window key s = record s { opened = remove key s.opened }

-- `SpendWindow.lastKnown`
abbrev pub last_known : String → SpendWindow → Option ℕ
last_known key s = get key s.last_spend

-- `Math.max(0, v.balanceUsd - balanceUsd)` for each window in turn
unfoldable remember : Dict ℕ → ℕ → Dict ℕ → Dict ℕ
remember [] balance last = last
remember ((k, opening) ∷ d) balance last = remember d balance (put k (opening - balance) last)

-- `SpendWindow.since`; its result is read by the cost page only.
unfoldable pub since : Option ℕ → SpendWindow → SpendWindow
unfolding remember
since none s = s
since (some balance) s = record s { last_spend = remember s.opened balance s.last_spend }

-- `billing.wallet()`: a balance, or null where the answer has none; `unread` is an answer with an
-- error.
pub data Reading : Type 0 where
  wallet : Option ℕ → Reading
  unread : String → Reading

pub record Budget : Type 0 where
  pub spend : SpendWindow
  pub balance : Option ℕ
  pub error : Option String
  pub capped : List String
  -- the calls of `onCapped`, in their order
  pub told : List String

abbrev pub new_budget : Budget
new_budget = record { spend = new_window; balance = none; error = none; capped = []; told = [] }

abbrev pub holds : String → List String → Bool
holds k [] = false
holds k (x ∷ xs) = if str_eq x k then true else holds k xs

abbrev drop_all : String → List String → List String
drop_all k [] = []
drop_all k (x ∷ xs) = let rest = drop_all k xs in if str_eq x k then rest else x ∷ rest

abbrev reached : ℕ → Option ℕ → Bool
reached cap none = false
reached cap (some spent) = leb cap spent

abbrev latch : String → Budget → Budget
latch show_id b = record b { capped = b.capped ++ (show_id ∷ []); told = b.told ++ (show_id ∷ []) }

abbrev check_show : ℕ → String → Budget → Budget
check_show cap show_id b =
    if reached cap (last_known show_id b.spend)
    then (if holds show_id b.capped then b else latch show_id b)
    else b

unfoldable check_shows : ℕ → List String → Budget → Budget
check_shows cap [] b = b
check_shows cap (s ∷ ss) b = check_shows cap ss (check_show cap s b)

abbrev against : Option ℕ → List String → Budget → Budget
against none shows b = b
against (some cap) shows b = check_shows cap shows b

abbrev reading_of : Option ℕ → List String → Reading → Budget → Budget
reading_of cap shows (unread e) b = record b { error = some e }
reading_of cap shows (wallet balance) b =
    against cap shows (record b { error = none; balance = balance; spend = since balance b.spend })

-- With no live show the wallet is not read.
unfoldable pub poll : Option ℕ → List String → Reading → Budget → Budget
unfolding check_shows since
poll cap [] reading b = b
poll cap (s ∷ ss) reading b = reading_of cap (s ∷ ss) reading b

-- `BudgetWatch.release`
unfoldable pub release_show : String → Budget → Budget
release_show show_id b = record b { capped = drop_all show_id b.capped }

abbrev pub is_capped : String → Budget → Bool
is_capped show_id b = holds show_id b.capped

-- `isOverBudget` over the module's handle `current`
abbrev pub is_over_budget : Option Budget → String → Bool
is_over_budget none show_id = false
is_over_budget (some b) show_id = is_capped show_id b

pub record BudgetState : Type 0 where
  pub spent : Option ℕ
  pub cap : Option ℕ
  pub capped : Bool
  pub balance : Option ℕ
  pub low_balance : Bool
  pub error : Option String

abbrev pub blank : BudgetState
blank = record {
  spent = none;
  cap = none;
  capped = false;
  balance = none;
  low_balance = false;
  error = none;
}

-- The limits of the seller, `limits()`.
pub record SpendLimits : Type 0 where
  pub per_show_cap : Option ℕ
  pub warn_balance : ℕ

abbrev is_low : ℕ → Option ℕ → Bool
is_low warn none = false
is_low warn (some n) = ltb n warn

-- `BudgetWatch.state`
unfoldable pub state_of : SpendLimits → String → Budget → BudgetState
state_of limits show_id b = record {
  spent = last_known show_id b.spend;
  cap = limits.per_show_cap;
  capped = is_capped show_id b;
  balance = b.balance;
  low_balance = is_low limits.warn_balance b.balance;
  error = b.error;
}

-- `budgetState`
abbrev pub budget_state : SpendLimits → Option Budget → String → BudgetState
budget_state limits none show_id = blank
budget_state limits (some b) show_id = state_of limits show_id b
