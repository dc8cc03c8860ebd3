-- ===== src/Guardrails/Guards/Listings.antt =====
-- The listings that a reply is about, read at their current state: `groundedListings` and
-- `firstResolvedListing` of src/guardrails/guards.ts.
use sidestage_copilot.Prelude.{String, Option, none, some, List, [], ◌∷◌, if◌then◌else◌, has}
use sidestage_copilot.Dict.{Dict, get}
use sidestage_copilot.Catalog.{Listing}
use sidestage_copilot.Guardrails.Input.{Fact, GuardInput}

-- `[...new Set(ids)]`: each text where it stands first.
abbrev distinct_from : List String → List String → List String
distinct_from seen [] = []
distinct_from seen (x ∷ xs) =
    if has seen x then distinct_from seen xs else x ∷ distinct_from (x ∷ seen) xs

abbrev pub distinct : List String → List String
distinct xs = distinct_from [] xs

abbrev prepend : Option Listing → List Listing → List Listing
prepend none ls = ls
prepend (some l) ls = l ∷ ls

abbrev pub resolve : Dict Listing → List String → List Listing
resolve d [] = []
resolve d (id ∷ ids) = prepend (get id d) (resolve d ids)

abbrev fact_listings : List Fact → List String
fact_listings [] = []
fact_listings (f ∷ fs) = elim f.listing_id [
  | none ↦ fact_listings fs
  | some id ↦ id ∷ fact_listings fs
]

abbrev or_else : List Listing → List Listing → List Listing
or_else [] ms = ms
or_else (l ∷ ls) ms = l ∷ ls

unfoldable pub grounded_listings : GuardInput → List Listing
grounded_listings i =
    or_else (resolve i.current_listings (distinct i.slot_ids))
      (resolve i.current_listings (distinct (fact_listings i.facts)))

abbrev pub first : List Listing → Option Listing
first [] = none
first (l ∷ ls) = some l

abbrev or_first : Option Listing → Option Listing → Option Listing
or_first none o = o
or_first (some l) o = some l

unfoldable pub first_resolved_listing : GuardInput → Option Listing
first_resolved_listing i =
    or_first (first (resolve i.current_listings i.slot_ids)) (first (grounded_listings i))
