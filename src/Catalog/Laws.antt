-- ===== src/Catalog/Laws.antt =====
-- The write paths of the listings: every write is a version change, and what else stays.
use sidestage_copilot.Prelude.{
  ℕ, ◌+◌, ◌≤◌, String, str_eq, str_refl, ◌≡◌, true, false, some, arith, if◌then◌else◌,
}
use mathlib.Core.Option
use sidestage_copilot.Prelude.Int.{pos, negsuc}
use sidestage_copilot.Js.{Num, nan, infinite, whole, to_column}
use sidestage_copilot.Dict.{Dict, get}
use sidestage_copilot.Dict.Laws.{get-update, get-update_all}
use sidestage_copilot.Catalog.{
  Listing, ListingPatch, is_empty, valid_patch, accepts, column, patched, mutate_listing, repinned,
  set_pinned,
}

-- A write that succeeds changes the row it names, by the patch and one version up, and no other;
-- a patch with no field changes nothing.
pub get-mutate_listing :
    (id j : String) (p : ListingPatch) (now : ℕ) (d d' : Dict Listing)
    → mutate_listing id p now d ≡ some d'
    → get j d' ≡ (
        if is_empty p
        then get j d
        else if str_eq id j
        then Option.map (patched p now) (get j d)
        else get j d)
unfolding mutate_listing
get-mutate_listing id j p now d d' h = ground (arith, get-update id j (patched p now) d)

-- Exactly the listing that is pinned is pinned afterwards, and each row whose pin or identity was
-- concerned is a version further.
pub get-set_pinned :
    (id j : String) (now : ℕ) (d d' : Dict Listing) (l : Listing)
    → set_pinned id now d ≡ some d'
    → get j d ≡ some l
    → (l' : Listing) × (get j d' ≡ some l')
      × (l'.pinned ≡ (str_eq j id))
      × (l'.price_cents ≡ l.price_cents)
      × (l'.qty ≡ l.qty)
      × (l'.state ≡ l.state)
      × (l.version ≤ l'.version)
unfolding set_pinned repinned
get-set_pinned id j now d d' l h e = (
  repinned id now j l,
  ground (arith, get-update_all j (repinned id now) d),
  ground arith,
  ground arith,
  ground arith,
  ground arith,
  ground arith,
)

-- The row that a write names, and what the database has made sure of.
pub mutate_listing-row :
    (id : String) (p : ListingPatch) (now : ℕ) (d d' : Dict Listing) (l : Listing)
    → mutate_listing id p now d ≡ some d'
    → is_empty p ≡ false
    → get id d ≡ some l
    → (get id d' ≡ some (patched p now l)) × (valid_patch p ≡ true)
unfolding mutate_listing
mutate_listing-row id p now d d' l h some_field found =
    (ground (arith, get-update id id (patched p now) d, str_refl id), ground arith)

-- What an INTEGER column holds after a write is the number that was written.
pub column-whole :
    (x : Num) (old : ℕ) → accepts (some x) ≡ true → x ≡ whole (pos (column (some x) old))
unfolding to_column
column-whole nan old h = absurd (ground arith)
column-whole infinite old h = absurd (ground arith)
column-whole (whole (negsuc n)) old h = absurd (ground arith)
column-whole (whole (pos n)) old h = ground arith

-- The row that is pinned: one version further, pinned, and otherwise as it was.
pub set_pinned-row :
    (id : String) (now : ℕ) (d d' : Dict Listing) (l : Listing)
    → set_pinned id now d ≡ some d'
    → get id d ≡ some l
    → get id d' ≡ some (record l { pinned = true; version = l.version + 1; updated_at = now })
unfolding set_pinned repinned
set_pinned-row id now d d' l h found =
    ground (arith, get-update_all id (repinned id now) d, str_refl id)
