-- ===== src/Catalog/Observed/Laws.antt =====
-- What an observation of a lot writes.
use sidestage_copilot.Prelude.{
  ℕ, String, str_refl, ◌≡◌, refl, ◌∙◌, Option-cases, ◌⊎◌, inl, inr, Bool-cases, true, false, not,
  ◌&&◌, Option, none, some, List, arith,
}
use sidestage_copilot.Js.{to_column}
use sidestage_copilot.Dict.{Dict, get, put, update}
use sidestage_copilot.Dict.Laws.{get-put, get-update}
use sidestage_copilot.Domain.{ended}
use sidestage_copilot.Catalog.{Listing, patched, mutate_listing, set_pinned}
use sidestage_copilot.Catalog.Laws.{mutate_listing-row, get-set_pinned}
use sidestage_copilot.Catalog.Observed.{
  ObservedLot, Sale, Stall, Hashes, Observation, quantity, state_of, with_floor, new_lot, patch_of,
  has_changed, hammered, sale_of, record_sale, create_lot, move_lot, upsert_observed_lot,
}

-- The row says what was observed.
pub record Shows (lot : ObservedLot) (l : Listing) : Type 0 where
  pub price : l.price_cents ≡ lot.price_cents
  pub count : l.qty ≡ quantity lot
  pub phase : l.state ≡ state_of lot
  pub on_screen : (lot.sold_out ≡ true) ⊎ (l.pinned ≡ true)

Shows-unchanged : (lot : ObservedLot) (l : Listing) → Shows lot l → has_changed lot l ≡ false
Shows-unchanged lot l h = ground arith

unchanged-Shows : (lot : ObservedLot) (l : Listing) → has_changed lot l ≡ false → Shows lot l
unchanged-Shows lot l h = record {
  price = ground arith;
  count = ground arith;
  phase = ground arith;
  on_screen = ground arith;
}

-- The row that a change leaves, before and after it takes the pin.
mutated-Shows :
    (lot : ObservedLot) (l : Listing) (id : String) (now : ℕ) (d d' : Dict Listing)
    → mutate_listing id (patch_of lot) now d ≡ some d'
    → get id d ≡ some l
    → (l' : Listing) × (get id d' ≡ some l')
      × (l'.price_cents ≡ lot.price_cents)
      × (l'.qty ≡ quantity lot)
      × (l'.state ≡ state_of lot)
      × (l'.pinned ≡ l.pinned)
unfolding patched to_column
mutated-Shows lot l id now d d' h g =
    let (there, valid) = mutate_listing-row id (patch_of lot) now d d' l h refl g in
    (patched (patch_of lot) now l, there, ground arith, ground arith, ground arith, ground arith)

pinned-Shows :
    (lot : ObservedLot) (l : Listing) (id : String) (now : ℕ) (d d' : Dict Listing)
    → set_pinned id now d ≡ some d'
    → get id d ≡ some l
    → l.price_cents ≡ lot.price_cents
    → l.qty ≡ quantity lot
    → l.state ≡ state_of lot
    → (l' : Listing) × (get id d' ≡ some l') × Shows lot l' × (l'.pinned ≡ true)
pinned-Shows lot l id now d d' h g p q s =
    let (l', there, pin, price, qty, state, newer) = get-set_pinned id id now d d' l h g in
    (
      l',
      there,
      record {
        price = price ∙ p;
        count = qty ∙ q;
        phase = state ∙ s;
        on_screen = inr (pin ∙ str_refl id);
      },
      pin ∙ str_refl id,
    )

create_lot-Shows :
    (h : Hashes) (lot : ObservedLot) (now : ℕ) (s s' : Stall)
    → create_lot h lot now s ≡ some s'
    → (l : Listing) × (get (h.ref_of lot.title) s'.refs ≡ some (h.id_of (h.ref_of lot.title)))
      × (get (h.id_of (h.ref_of lot.title)) s'.listings ≡ some l)
      × Shows lot l
      × (l.pinned ≡ true)
      × (s'.sales ≡ s.sales)
unfolding create_lot
create_lot-Shows h lot now s s' e =
    let id = h.id_of (h.ref_of lot.title) in
    elim (Option-cases (set_pinned id now (put id (new_lot lot now) s.listings))) [
      | inl n ↦ absurd (ground arith)
      | inr (d, p) ↦
          let (l, there, shows, pin) =
            pinned-Shows lot (new_lot lot now) id now (put id (new_lot lot now) s.listings) d p
              (ground (arith, get-put id id (new_lot lot now) s.listings, str_refl id)) refl refl
              refl in
          (
            l,
            ground (
              arith,
              get-put (h.ref_of lot.title) (h.ref_of lot.title) id s.refs,
              str_refl (h.ref_of lot.title),
            ),
            ground arith,
            shows,
            pin,
            ground arith,
          )
    ]

-- What a change books: one sale, when a lot that was not ended is seen sold out.
abbrev Booked : ObservedLot → Listing → String → ℕ → List Sale → List Sale → Type 0
Booked lot l id now before after =
    ((hammered lot l ≡ true) × (after ≡ record_sale (sale_of id lot now) before))
    ⊎ ((hammered lot l ≡ false) × (after ≡ before))

move_lot-Shows :
    (lot : ObservedLot) (l : Listing) (id : String) (now : ℕ) (s s' : Stall)
    → move_lot lot l id now s ≡ some s'
    → get id s.listings ≡ some l
    → ((l' : Listing) × (get id s'.listings ≡ some l') × Shows lot l')
      × (s'.refs ≡ s.refs)
      × Booked lot l id now s.sales s'.sales
unfolding move_lot
move_lot-Shows lot l id now s s' e g =
    let floored = update id (with_floor lot) s.listings in
    let at : get id floored ≡ some (with_floor lot l) =
      ground (arith, get-update id id (with_floor lot) s.listings, str_refl id) in
    elim (Option-cases (mutate_listing id (patch_of lot) now floored)) [
      | inl n ↦ absurd (ground arith)
      | inr (d, m) ↦
          let (k, there, price, qty, state, pin) =
            mutated-Shows lot (with_floor lot l) id now floored d m at in
          elim (Bool-cases (not lot.sold_out && not l.pinned)) [
            | inr stays ↦ (
              (
                k,
                ground arith,
                record { price = price; count = qty; phase = state; on_screen = ground arith },
              ),
              ground arith,
              ground arith,
            )
            | inl takes ↦ elim (Option-cases (set_pinned id now d)) [
              | inl n ↦ absurd (ground arith)
              | inr (d', p) ↦
                  let (l', found, shows, up) =
                    pinned-Shows lot k id now d d' p there price qty state in
                  ((l', ground arith, shows), ground arith, ground arith)
            ]
          ]
    ]

-- The lot's row, and that it says what was observed.
abbrev pub IsOnRecord : Hashes → ObservedLot → Stall → Type 0
IsOnRecord h lot s =
    (id : String) × (l : Listing) × (get (h.ref_of lot.title) s.refs ≡ some id)
    × (get id s.listings ≡ some l)
    × Shows lot l

upsert-found :
    (h : Hashes) (lot : ObservedLot) (now : ℕ) (s s' : Stall) (o : Observation) (id : String)
    (x : Option Listing)
    → upsert_observed_lot h lot now s ≡ some (o, s')
    → get (h.ref_of lot.title) s.refs ≡ some id
    → get id s.listings ≡ x
    → IsOnRecord h lot s'
unfolding upsert_observed_lot
upsert-found h lot now s s' o id none e r g = absurd (ground arith)
upsert-found h lot now s s' o id (some l) e r g = elim (Bool-cases (has_changed lot l)) [
  | inr c ↦ (id, l, ground arith, ground arith, unchanged-Shows lot l c)
  | inl c ↦ elim (Option-cases (move_lot lot l id now s)) [
    | inl n ↦ absurd (ground arith)
    | inr (t, m) ↦
        let ((l', there, shows), refs, booked) = move_lot-Shows lot l id now s t m g in
        (id, l', ground arith, ground arith, shows)
  ]
]

-- An observation that does not throw leaves the lot's row as it was observed: its price, whether it
-- is to be had, its phase, and the pin for a lot that is still sold.
pub upsert_observed_lot-IsOnRecord :
    (h : Hashes) (lot : ObservedLot) (now : ℕ) (s s' : Stall) (o : Observation)
    → upsert_observed_lot h lot now s ≡ some (o, s')
    → IsOnRecord h lot s'
unfolding upsert_observed_lot
upsert_observed_lot-IsOnRecord h lot now s s' o e =
    elim (Option-cases (get (h.ref_of lot.title) s.refs)) [
      | inr (id, r) ↦ upsert-found h lot now s s' o id (get id s.listings) e r refl
      | inl n ↦ elim (Option-cases (create_lot h lot now s)) [
        | inl none_made ↦ absurd (ground arith)
        | inr (t, m) ↦
            let (l, ref, there, shows, pin, sales) = create_lot-Shows h lot now s t m in
            (h.id_of (h.ref_of lot.title), l, ground arith, ground arith, shows)
      ]
    ]

on_record-idle :
    (h : Hashes) (lot : ObservedLot) (now : ℕ) (s : Stall)
    → IsOnRecord h lot s
    → (t : Stall) × (upsert_observed_lot h lot now s
        ≡ some (record { changed = false; created = false }, t))
      × (t.listings ≡ s.listings)
      × (t.sales ≡ s.sales)
unfolding upsert_observed_lot
on_record-idle h lot now s (id, l, r, g, shows) =
    let same = Shows-unchanged lot l shows in
    (record s { observed_at = put id now s.observed_at }, ground arith, refl, refl)

-- Whatever an observation writes, the next observation of the same lot writes nothing but its time:
-- no listing moves, no version with it, and no sale is booked a second time.
pub upsert_observed_lot-twice :
    (h : Hashes) (lot : ObservedLot) (now later : ℕ) (s s' : Stall) (o : Observation)
    → upsert_observed_lot h lot now s ≡ some (o, s')
    → (t : Stall) × (upsert_observed_lot h lot later s'
        ≡ some (record { changed = false; created = false }, t))
      × (t.listings ≡ s'.listings)
      × (t.sales ≡ s'.sales)
upsert_observed_lot-twice h lot now later s s' o e =
    on_record-idle h lot later s' (upsert_observed_lot-IsOnRecord h lot now s s' o e)

-- A lot that is first seen when it is sold out is pinned all the same.
pub create_lot-pins :
    (h : Hashes) (lot : ObservedLot) (now : ℕ) (s s' : Stall)
    → create_lot h lot now s ≡ some s'
    → lot.sold_out ≡ true
    → (l : Listing) × (get (h.id_of (h.ref_of lot.title)) s'.listings ≡ some l)
      × (l.state ≡ ended)
      × (l.pinned ≡ true)
create_lot-pins h lot now s s' e sold =
    let (l, ref, there, shows, pin, sales) = create_lot-Shows h lot now s s' e in
    (l, there, shows.phase ∙ ground arith, pin)
