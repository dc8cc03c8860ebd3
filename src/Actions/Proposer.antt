-- ===== src/Actions/Proposer.antt =====
-- src/actions/proposer.ts: the rules that turn counted questions into proposals. Prices of
-- comparable sales are a parameter (`repo.comps`), by listing; summaries and rationales are left
-- out. Quotients are exact here, where the source's are binary fractions.
pub mod Pricing
pub mod Laws
use sidestage_copilot.Prelude.{
  ℕ, zero, suc, ◌+◌, ◌-◌, String, Bool, true, false, not, ◌&&◌, ◌||◌, Option, none, some, List, [],
  ◌∷◌, ◌++◌, if◌then◌else◌, ltb, leb, ◌==◌, str_eq, length, keep, str_append, is_some,
}
use sidestage_copilot.Prelude.Int.{ℤ, pos}
use sidestage_copilot.Dict.{Dict, get, put}
use sidestage_copilot.Domain.{
  ChatIntent, discount_request, availability, hype, ActionKind, push_listing, swap_pinned,
  markdown_price, end_listing, ListingState, queued, is_ended,
}
use sidestage_copilot.Catalog.{Listing}
use sidestage_copilot.Js.{Num, whole, Value, num, Runtime}
use sidestage_copilot.Actions.Port.{Params}
use sidestage_copilot.Actions.Proposer.Pricing.{markdown_to}

pub record Signal : Type 0 where
  pub at : ℕ
  pub intent : ChatIntent
  pub listing_id : Option String
  pub author : String

pub record ProposedAction : Type 0 where
  pub kind : ActionKind
  pub listing_id : String
  pub params : Params
  pub dedupe_key : String

-- The options, the seller's discount cap, and what the rules read of the show.
pub record Room : Type 0 where
  pub runtime : Runtime
  pub window_ms : ℕ
  pub discount_threshold : ℕ
  pub swap_threshold : ℕ
  pub discount_cap : ℕ
  pub listings : Dict Listing
  pub comps : String → List ℕ
  pub lot_queue : List String

abbrev drop_old : ℕ → List Signal → List Signal
drop_old cutoff [] = []
drop_old cutoff (s ∷ ss) = let rest = drop_old cutoff ss in if ltb s.at cutoff then rest else s ∷ ss

-- `record`; a cutoff before the beginning of time drops nothing.
unfoldable pub record_signal : ℕ → ℕ → Signal → List Signal → List Signal
record_signal window_ms now s signals = drop_old (now - window_ms) (signals ++ (s ∷ []))

abbrev pub recent : ℕ → ℕ → List Signal → List Signal
recent window_ms now signals = keep (λ s. leb now (s.at + window_ms)) signals

abbrev pub mentions : String → List String → Bool
mentions a [] = false
mentions a (x ∷ xs) = if str_eq x a then true else mentions a xs

-- `set.add(author)`
abbrev add_author : String → List String → List String
add_author a xs = if mentions a xs then xs else xs ++ (a ∷ [])

abbrev pub authors : Option (List String) → List String
authors none = []
authors (some xs) = xs

abbrev group_one : Option String → String → Dict (List String) → Dict (List String)
group_one none a m = m
group_one (some l) a m = put l (add_author a (authors (get l m))) m

unfoldable pub group_from : List Signal → Dict (List String) → Dict (List String)
group_from [] m = m
group_from (s ∷ ss) m = group_from ss (group_one s.listing_id s.author m)

abbrev pub group_distinct_authors : List Signal → Dict (List String)
group_distinct_authors ss = group_from ss []

abbrev key_for : Runtime → String → String → Listing → String
key_for rt rule id l = str_append rule (str_append id (str_append ":v" (rt.digits l.version)))

abbrev plain : Runtime → ActionKind → String → String → Listing → ProposedAction
plain rt kind rule id l = record {
  kind = kind;
  listing_id = id;
  params = [];
  dedupe_key = key_for rt rule id l;
}

abbrev one_or_none : Option ProposedAction → List ProposedAction
one_or_none none = []
one_or_none (some p) = p ∷ []

abbrev markdown_proposal : Room → String → Listing → Option ℕ → Option ProposedAction
markdown_proposal e id l none = none
markdown_proposal e id l (some n) = some (record {
  kind = markdown_price;
  listing_id = id;
  params = ("newPriceCents", num (whole (pos n))) ∷ [];
  dedupe_key = key_for e.runtime "markdown:" id l;
})

abbrev markdown_found : Room → String → Option Listing → Option ProposedAction
markdown_found e id none = none
markdown_found e id (some l) =
    if is_ended l.state || (l.qty == 0)
    then none
    else markdown_proposal e id l (markdown_to e.discount_cap (e.comps id) l)

unfoldable pub markdown_for : Room → String → List String → Option ProposedAction
markdown_for e id askers =
    if ltb (length askers) e.discount_threshold
    then none
    else markdown_found e id (get id e.listings)

abbrev sold_out_found : Room → String → List String → Option Listing → Option ProposedAction
sold_out_found e id askers none = none
sold_out_found e id askers (some l) =
    if ltb 0 l.qty || is_ended l.state || ltb (length askers) 2
    then none
    else some (plain e.runtime end_listing "end:" id l)

unfoldable pub sold_out_for : Room → String → List String → Option ProposedAction
sold_out_for e id askers = sold_out_found e id askers (get id e.listings)

abbrev swap_found : Room → String → Option Listing → Option ProposedAction
swap_found e id none = none
swap_found e id (some l) =
    if l.pinned || is_ended l.state || (l.qty == 0)
    then none
    else some (plain e.runtime swap_pinned "swap:" id l)

unfoldable pub swap_for : Room → String → List String → Option ProposedAction
swap_for e id askers =
    if ltb (length askers) e.swap_threshold then none else swap_found e id (get id e.listings)

abbrev for_each :
    (String → List String → Option ProposedAction) → Dict (List String) → List ProposedAction
for_each rule [] = []
for_each rule ((id, askers) ∷ d) = one_or_none (rule id askers) ++ for_each rule d

abbrev asks_discount : Signal → Bool
asks_discount s = elim s.intent [ discount_request ↦ true | _ ↦ false ]

abbrev asks_stock : Signal → Bool
asks_stock s = elim s.intent [ availability ↦ true | _ ↦ false ]

-- `repo.pinned()`
abbrev pub pinned_one : Dict Listing → Option (String × Listing)
pinned_one [] = none
pinned_one ((id, l) ∷ d) = if l.pinned then some (id, l) else pinned_one d

abbrev other_than : Option (String × Listing) → String → Bool
other_than none id = true
other_than (some (p, l)) id = not (str_eq p id)

-- `s.listingId && s.listingId !== pinned?.id`
abbrev elsewhere : Option (String × Listing) → Option String → Bool
elsewhere p none = false
elsewhere p (some id) = other_than p id

abbrev interested : Option (String × Listing) → Signal → Bool
interested p s = not (elim s.intent [ hype ↦ true | _ ↦ false ]) && elsewhere p s.listing_id

abbrev waits : Option Listing → Bool
waits none = false
waits (some l) = elim l.state [ queued ↦ ltb 0 l.qty | _ ↦ false ]

abbrev push_listed : Room → String → Option Listing → List ProposedAction
push_listed e id none = []
push_listed e id (some l) = plain e.runtime push_listing "push:" id l ∷ []

-- The first of the queue that is queued and in stock.
abbrev push_from : Room → List String → List ProposedAction
push_from e [] = []
push_from e (id ∷ ids) =
    let rest = push_from e ids in
    if waits (get id e.listings) then push_listed e id (get id e.listings) else rest

abbrev push_after : Room → Option (String × Listing) → List ProposedAction
push_after e none = push_from e e.lot_queue
push_after e (some (id, l)) =
    if ltb 0 l.qty && not (is_ended l.state) then [] else push_from e e.lot_queue

-- The four rules over the signals of the window.
unfoldable pub evaluate : Room → ℕ → List Signal → List ProposedAction
evaluate e now signals =
    let seen = recent e.window_ms now signals in
    for_each (markdown_for e) (group_distinct_authors (keep asks_discount seen))
    ++ for_each (sold_out_for e) (group_distinct_authors (keep asks_stock seen))
    ++ for_each (swap_for e)
        (group_distinct_authors (keep (interested (pinned_one e.listings)) seen))
    ++ push_after e (pinned_one e.listings)
