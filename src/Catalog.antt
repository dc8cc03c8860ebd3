-- ===== src/Catalog.antt =====
-- src/domain/repo.ts: the listings of one show, a table by listing id, and its write paths. The
-- statement's `WHERE show_id = …` is the choice of the table. Descriptive text is left out. `none`
-- is a statement or a check that throws, which leaves the table as it was.
pub mod Laws
pub mod Observed
use sidestage_copilot.Prelude.{
  ℕ, ◌+◌, String, str_eq, Bool, true, false, ◌||◌, ◌&&◌, not, Option, none, some, if◌then◌else◌,
  is_some,
}
use mathlib.Core.Option
use sidestage_copilot.Dict.{Dict, get, update, update_all}
use sidestage_copilot.Domain.{ListingState}
use sidestage_copilot.Js.{Num, to_column}

pub record Listing : Type 0 where
  pub title : String
  pub price_cents : ℕ
  pub floor_price_cents : ℕ
  pub cost_cents : ℕ
  pub qty : ℕ
  pub sold_this_show : ℕ
  pub views : ℕ
  pub state : ListingState
  pub pinned : Bool
  pub version : ℕ
  pub authenticated : Bool
  pub cert_id : Option String
  pub updated_at : ℕ

-- A field that is `none` is `undefined`, and not written.
pub record ListingPatch : Type 0 where
  pub price_cents : Option Num
  pub qty : Option Num
  pub state : Option ListingState
  pub pinned : Option Bool
  pub sold_this_show : Option Num
  pub views : Option Num

abbrev pub no_patch : ListingPatch
no_patch = record {
  price_cents = none;
  qty = none;
  state = none;
  pinned = none;
  sold_this_show = none;
  views = none;
}

-- `!sets.length`
abbrev pub is_empty : ListingPatch → Bool
is_empty p = not (
    is_some p.price_cents
    || is_some p.qty
    || is_some p.state
    || is_some p.pinned
    || is_some p.sold_this_show
    || is_some p.views)

-- Whether the database takes the value, and the column after the write.
abbrev pub accepts : Option Num → Bool
accepts none = true
accepts (some n) = is_some (to_column n)

abbrev pub column : Option Num → ℕ → ℕ
column none old = old
column (some n) old = elim (to_column n) [ none ↦ old | some v ↦ v ]

abbrev or_old {ℓ} : {A : Type ℓ} → Option A → A → A
or_old none old = old
or_old (some a) old = a

abbrev pub valid_patch : ListingPatch → Bool
valid_patch p =
    accepts p.price_cents && accepts p.qty && accepts p.sold_this_show && accepts p.views

-- The row after `UPDATE listings SET …, version = version + 1`.
unfoldable pub patched : ListingPatch → ℕ → Listing → Listing
patched p now l = record l {
  price_cents = column p.price_cents l.price_cents;
  qty = column p.qty l.qty;
  state = or_old p.state l.state;
  pinned = or_old p.pinned l.pinned;
  sold_this_show = column p.sold_this_show l.sold_this_show;
  views = column p.views l.views;
  version = l.version + 1;
  updated_at = now;
}

unfoldable pub mutate_listing : String → ListingPatch → ℕ → Dict Listing → Option (Dict Listing)
mutate_listing id p now d =
    if not (is_some (get id d))
    then none
    else if is_empty p
    then some d
    else if not (valid_patch p)
    then none
    else some (update id (patched p now) d)

-- `SET pinned = (id = $3), version = version + 1 WHERE pinned OR id = $3`
unfoldable pub repinned : String → ℕ → String → Listing → Listing
repinned id now k l =
    if l.pinned || str_eq k id
    then record l { pinned = str_eq k id; version = l.version + 1; updated_at = now }
    else l

unfoldable pub set_pinned : String → ℕ → Dict Listing → Option (Dict Listing)
set_pinned id now d = if is_some (get id d) then some (update_all (repinned id now) d) else none
