-- ===== src/Actions/Proposer/Laws.antt =====
-- What stands behind a proposal: distinct askers, a lot that can still be sold, a price that
-- preflight takes.
use sidestage_copilot.Prelude.{
  ℕ, ◌≤◌, String, str_eq, str_iff, ◌≡◌, refl, inl, inr, Bool, true, false, ◌&&◌, ◌||◌, Option, none,
  some, List, [], ◌∷◌, ◌++◌, if◌then◌else◌, length, Option-cases, Bool-cases, leb, ◌≢◌, ◌⊎◌, any,
  arith,
}
use sidestage_copilot.Prelude.Int.{pos}
use sidestage_copilot.Dict.{Dict, get}
use sidestage_copilot.Dict.Laws.{get-put}
use sidestage_copilot.Domain.{ended}
use sidestage_copilot.Catalog.{Listing}
use sidestage_copilot.Js.{whole, num}
use sidestage_copilot.Actions.Preflight.Laws.{IsMarkdown}
use sidestage_copilot.Actions.Proposer.Pricing.{markdown_to}
use sidestage_copilot.Actions.Proposer.Pricing.Laws.{markdown_to-IsMarkdown}
use sidestage_copilot.Actions.Proposer.{
  Signal, ProposedAction, Room, mentions, add_author, authors, group_one, group_from,
  group_distinct_authors, markdown_for,
}

-- No author twice.
abbrev pub IsDistinct : List String → Type 0
IsDistinct [] = Unit
IsDistinct (x ∷ xs) = (mentions x xs ≡ false) × IsDistinct xs

mentions-append :
    (a : String) (xs ys : List String) → mentions a (xs ++ ys) ≡ (mentions a xs || mentions a ys)
mentions-append a [] ys = refl
mentions-append a (x ∷ xs) ys = ground (arith, mentions-append a xs ys)

snoc-IsDistinct :
    (a : String) (xs : List String)
    → mentions a xs ≡ false
    → IsDistinct xs
    → IsDistinct (xs ++ (a ∷ []))
snoc-IsDistinct a [] h d = (refl, tt)
snoc-IsDistinct a (x ∷ xs) h d =
    ground (arith, str_iff x a, str_iff a x, mentions-append x xs (a ∷ []), snoc-IsDistinct a xs)

add_author-IsDistinct :
    (a : String) (xs : List String) → IsDistinct xs → IsDistinct (add_author a xs)
add_author-IsDistinct a xs d = ground (arith, snoc-IsDistinct a xs)

mentions-add_author :
    (a b : String) (xs : List String) → mentions b (add_author a xs) ≡ (str_eq a b || mentions b xs)
mentions-add_author a b xs = ground (arith, str_iff a b, mentions-append b xs (a ∷ []))

chosen :
    (c : Bool) (i b l : String) (m : Dict (List String))
    → ((j : String) → IsDistinct (authors (get j m)))
    → IsDistinct (authors (if c then some (add_author b (authors (get i m))) else get l m))
chosen true i b l m d = add_author-IsDistinct b (authors (get i m)) (d i)
chosen false i b l m d = d l

-- The signal is about the listing, and comes from the author.
abbrev pub about_by : String → String → Signal → Bool
about_by l a s = elim s.listing_id [ none ↦ false | some i ↦ str_eq i l && str_eq s.author a ]

abbrev names : String → String → Option String → String → Bool
names l a none b = false
names l a (some i) b = str_eq i l && str_eq b a

group_one-mentions :
    (l a : String) (o : Option String) (b : String) (m : Dict (List String))
    → mentions a (authors (get l (group_one o b m)))
      ≡ (mentions a (authors (get l m)) || names l a o b)
group_one-mentions l a none b m = ground arith
group_one-mentions l a (some i) b m = ground (
  arith,
  str_iff i l,
  str_iff b a,
  get-put i l (add_author b (authors (get i m))) m,
  mentions-add_author b a (authors (get i m)),
)

group_one-IsDistinct :
    (l : String) (o : Option String) (b : String) (m : Dict (List String))
    → ((j : String) → IsDistinct (authors (get j m)))
    → IsDistinct (authors (get l (group_one o b m)))
group_one-IsDistinct l none b m d = d l
group_one-IsDistinct l (some i) b m d =
    rw (get-put i l (add_author b (authors (get i m))) m) (chosen (str_eq i l) i b l m d)

group_from-mentions :
    (l a : String) (ss : List Signal) (m : Dict (List String))
    → mentions a (authors (get l (group_from ss m)))
      ≡ (mentions a (authors (get l m)) || any (about_by l a) ss)
unfolding group_from
group_from-mentions l a [] m = ground arith
group_from-mentions l a (s ∷ ss) m = ground (
  arith,
  group_one-mentions l a s.listing_id s.author m,
  group_from-mentions l a ss (group_one s.listing_id s.author m),
)

group_from-IsDistinct :
    (l : String) (ss : List Signal) (m : Dict (List String))
    → ((j : String) → IsDistinct (authors (get j m)))
    → IsDistinct (authors (get l (group_from ss m)))
unfolding group_from
group_from-IsDistinct l [] m d = d l
group_from-IsDistinct l (s ∷ ss) m d =
    group_from-IsDistinct l ss (group_one s.listing_id s.author m)
      (λ j. group_one-IsDistinct j s.listing_id s.author m d)

-- The askers of a listing are the authors of the signals about it, each counted once.
pub group_distinct_authors_lem :
    (l : String) (ss : List Signal)
    → IsDistinct (authors (get l (group_distinct_authors ss)))
      × ((a : String)
          → mentions a (authors (get l (group_distinct_authors ss))) ≡ any (about_by l a) ss)
unfolding get
group_distinct_authors_lem l ss =
    (group_from-IsDistinct l ss [] (λ j. tt), λ a. group_from-mentions l a ss [])

above_or_not :
    (e : Room) (id : String) (l : Listing) (n : ℕ)
    → markdown_to e.discount_cap (e.comps id) l ≡ some n
    → l.state ≢ ended
    → (n ≤ l.cost_cents) ⊎ IsMarkdown e.discount_cap l n
above_or_not e id l n h active = elim (Bool-cases (leb n l.cost_cents)) [
  | inl c ↦ inl (ground arith)
  | inr c ↦ inr (markdown_to-IsMarkdown e.discount_cap n (e.comps id) l h (ground arith) active)
]

-- A proposed markdown is of a listing of the show, has at least the threshold of askers behind it,
-- and names a price that preflight takes, unless it is not above the listing's cost.
pub markdown_for-IsMarkdown :
    (e : Room) (id : String) (askers : List String) (p : ProposedAction)
    → markdown_for e id askers ≡ some p
    → (l : Listing) × (n : ℕ) × (get id e.listings ≡ some l)
      × (e.discount_threshold ≤ length askers)
      × (p.params ≡ ("newPriceCents", num (whole (pos n))) ∷ [])
      × ((n ≤ l.cost_cents) ⊎ IsMarkdown e.discount_cap l n)
unfolding markdown_for
markdown_for-IsMarkdown e id askers p h = elim (Option-cases (get id e.listings)) [
  | inl q ↦ absurd (ground arith)
  | inr (l, q) ↦ elim (Option-cases (markdown_to e.discount_cap (e.comps id) l)) [
    | inl r ↦ absurd (ground arith)
    | inr (n, r) ↦ (l, n, q, ground arith, ground arith, above_or_not e id l n r (ground arith))
  ]
]
