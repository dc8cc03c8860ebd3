-- ===== src/Limits/Browser.antt =====
-- src/surfaces/browserBudget.ts: the count of open browsers, by purpose too, and who may open one. A
-- lease is the number of its `takeBrowser`, and the variable `released` of its closure is a member
-- of the state.
pub mod Laws
use sidestage_copilot.Prelude.{
  ℕ, zero, suc, ◌+◌, ◌-◌, String, Bool, true, false, Option, none, some, List, [], ◌∷◌, ◌++◌,
  if◌then◌else◌, ltb, leb, ◌==◌, length,
}
use sidestage_copilot.Prelude.Int.{ℤ, pos, negsuc}
use sidestage_copilot.Dict.{Dict, get, put, remove}

pub record BrowserLease : Type 0 where
  pub purpose : String
  pub released : Bool

pub record BrowserBudget : Type 0 where
  pub held : Dict ℕ
  pub open_count : ℕ
  pub leases : List BrowserLease

abbrev pub reset_browser_budget : BrowserBudget
reset_browser_budget = record { held = []; open_count = 0; leases = [] }

abbrev pub or_zero : Option ℕ → ℕ
or_zero none = 0
or_zero (some n) = n

abbrev set_held : String → ℕ → Dict ℕ → Dict ℕ
set_held purpose zero held = remove purpose held
set_held purpose (suc n) held = put purpose (suc n) held

-- A sum that is negative deletes the purpose, as 0 does.
unfoldable pub bump : String → ℤ → Dict ℕ → Dict ℕ
bump purpose (pos k) held = set_held purpose (or_zero (get purpose held) + k) held
bump purpose (negsuc k) held = set_held purpose (or_zero (get purpose held) - suc k) held

-- `none` is the exception `NoBrowserBudget`; the lease is its place among the leases.
unfoldable pub take_browser : ℕ → String → BrowserBudget → Option (ℕ × BrowserBudget)
take_browser max_browsers purpose b =
    if leb max_browsers b.open_count
    then none
    else some (
      length b.leases,
      record {
        held = bump purpose (pos 1) b.held;
        open_count = b.open_count + 1;
        leases = b.leases ++ (record { purpose = purpose; released = false } ∷ []);
      },
    )

abbrev lease_at : ℕ → List BrowserLease → Option BrowserLease
lease_at i [] = none
lease_at zero (l ∷ ls) = some l
lease_at (suc i) (l ∷ ls) = lease_at i ls

abbrev set_released : ℕ → List BrowserLease → List BrowserLease
set_released i [] = []
set_released zero (l ∷ ls) = record l { released = true } ∷ ls
set_released (suc i) (l ∷ ls) = l ∷ set_released i ls

-- A count below 0 is set to 0, which the difference of natural numbers does.
abbrev closing : ℕ → BrowserLease → BrowserBudget → BrowserBudget
closing i l b = record {
  held = bump l.purpose (negsuc 0) b.held;
  open_count = b.open_count - 1;
  leases = set_released i b.leases;
}

abbrev give_back : ℕ → BrowserLease → BrowserBudget → BrowserBudget
give_back i l b = if l.released then b else closing i l b

abbrev give_back_found : ℕ → Option BrowserLease → BrowserBudget → BrowserBudget
give_back_found i none b = b
give_back_found i (some l) b = give_back i l b

-- `lease.release()`
unfoldable pub release_lease : ℕ → BrowserBudget → BrowserBudget
release_lease i b = give_back_found i (lease_at i b.leases) b
