-- ===== src/Surfaces/FollowUps/Laws.antt =====
-- What happens to a follow-up over any number of operations.
use sidestage_copilot.Prelude.{
  ℕ, ◌≡◌, ◌≢◌, refl, ◌∙◌, ◌⊎◌, inl, inr, String, str_eq, str_iff, Bool-cases, Option-cases, none,
  some, arith,
}
use sidestage_copilot.Dict.{Dict, get, update}
use sidestage_copilot.Dict.Laws.{get-put, get-update}
use sidestage_copilot.Surfaces.FollowUps.{
  draft, dismissed, FollowUpRow, FollowUp, row_of, new_row, resaved, marked_sent, marked_dismissed,
  save, mark_sent, dismiss,
}

-- One operation on the inbox, by whichever account.
pub data Step : Dict FollowUpRow → Dict FollowUpRow → Type 0 where
  saved : {d d' : Dict FollowUpRow} (f : FollowUp) (now : ℕ) → save f now d ≡ some d' → Step d d'
  marked :
      {d : Dict FollowUpRow} (account id : String) (now : ℕ) → Step d (mark_sent account id now d)
  put_away :
      {d : Dict FollowUpRow} (account id : String) (now : ℕ) → Step d (dismiss account id now d)

pub data Steps : Dict FollowUpRow → Dict FollowUpRow → Type 0 where
  done : {d : Dict FollowUpRow} → Steps d d
  step : {d e f : Dict FollowUpRow} → Step d e → Steps e f → Steps d f

-- What a row keeps: its owner, its show and its buyer; once it has left the drafts its text; and that
-- it was dismissed.
pub record IsKept (r q : FollowUpRow) : Type 0 where
  pub owner : q.account_id ≡ r.account_id
  pub show : q.show_id ≡ r.show_id
  pub buyer : q.buyer ≡ r.buyer
  pub text : (r.status ≡ draft) ⊎ ((q.text ≡ r.text) × (q.status ≢ draft))
  pub gone : (r.status ≢ dismissed) ⊎ (q.status ≡ dismissed)
  pub first_sent : (r.sent_at ≡ none) ⊎ (q.sent_at ≡ r.sent_at)

IsKept-refl : (r : FollowUpRow) → IsKept r r
IsKept-refl r = record {
  owner = refl;
  show = refl;
  buyer = refl;
  text = ground arith;
  gone = ground arith;
  first_sent = inr refl;
}

IsKept-trans : (r q s : FollowUpRow) → IsKept r q → IsKept q s → IsKept r s
IsKept-trans r q s h k = record {
  owner = k.owner ∙ h.owner;
  show = k.show ∙ h.show;
  buyer = k.buyer ∙ h.buyer;
  text = ground arith;
  gone = ground arith;
  first_sent = ground arith;
}

resaved-IsKept : (f : FollowUp) (r : FollowUpRow) → IsKept r (resaved f r)
resaved-IsKept f r = record {
  owner = refl;
  show = refl;
  buyer = refl;
  text = ground arith;
  gone = ground arith;
  first_sent = inr refl;
}

marked_sent-IsKept : (a : String) (now : ℕ) (r : FollowUpRow) → IsKept r (marked_sent a now r)
marked_sent-IsKept a now r = record {
  owner = ground arith;
  show = ground arith;
  buyer = ground arith;
  text = ground arith;
  gone = ground arith;
  first_sent = ground arith;
}

marked_dismissed-IsKept :
    (a : String) (now : ℕ) (r : FollowUpRow) → IsKept r (marked_dismissed a now r)
marked_dismissed-IsKept a now r = record {
  owner = ground arith;
  show = ground arith;
  buyer = ground arith;
  text = ground arith;
  gone = ground arith;
  first_sent = ground arith;
}

-- The row of an id is there, and kept.
abbrev pub Stays : String → FollowUpRow → Dict FollowUpRow → Type 0
Stays id r d = (q : FollowUpRow) × (get id d ≡ some q) × IsKept r q

update-Stays :
    (id k : String) (r : FollowUpRow) (f : FollowUpRow → FollowUpRow) (d : Dict FollowUpRow)
    → get id d ≡ some r
    → IsKept r (f r)
    → Stays id r (update k f d)
update-Stays id k r f d h kept = elim (Bool-cases (str_eq k id)) [
  | inl e ↦ (f r, ground (arith, get-update k id f d), kept)
  | inr e ↦ (r, ground (arith, get-update k id f d), IsKept-refl r)
]

save-Stays :
    (id : String) (r : FollowUpRow) (f : FollowUp) (now : ℕ) (d d' : Dict FollowUpRow)
    → save f now d ≡ some d'
    → get id d ≡ some r
    → Stays id r d'
unfolding save
save-Stays id r f now d d' s h = elim (Option-cases (row_of f.show_id f.buyer d)) [
  | inr (k, e) ↦
      let (q, there, kept) = update-Stays id k r (resaved f) d h (resaved-IsKept f r) in
      (q, ground arith, kept)
  | inl e ↦ (r, ground (arith, get-put f.id id (new_row f now) d, str_iff f.id id), IsKept-refl r)
]

Step-Stays :
    (id : String) (r : FollowUpRow) (d d' : Dict FollowUpRow)
    → Step d d'
    → get id d ≡ some r
    → Stays id r d'
unfolding mark_sent dismiss
Step-Stays id r d d' (saved f now s) h = save-Stays id r f now d d' s h
Step-Stays id r d _ (marked a k now) h =
    update-Stays id k r (marked_sent a now) d h (marked_sent-IsKept a now r)
Step-Stays id r d _ (put_away a k now) h =
    update-Stays id k r (marked_dismissed a now) d h (marked_dismissed-IsKept a now r)

-- Over any number of operations of any accounts a follow-up stays in the inbox of its owner, for its
-- show and its buyer. Once it has left the drafts it does not come back to them and its text does not
-- change; once it is dismissed it stays dismissed; and the time of its first sending stays.
pub Steps-Stays :
    (id : String) (r : FollowUpRow) (d d' : Dict FollowUpRow)
    → Steps d d'
    → get id d ≡ some r
    → Stays id r d'
Steps-Stays id r _ _ done h = (r, h, IsKept-refl r)
Steps-Stays id r _ d' (step {d} {e} s ss) h =
    let (q, there, kept) = Step-Stays id r d e s h in
    let (p, found, later) = Steps-Stays id q e d' ss there in
    (p, found, IsKept-trans r q p kept later)

-- An operation of one account leaves every row of the other accounts as it was.
pub mark_sent-others :
    (id k account : String) (now : ℕ) (r : FollowUpRow) (d : Dict FollowUpRow)
    → get id d ≡ some r
    → r.account_id ≢ account
    → (get id (mark_sent account k now d) ≡ some r) × (get id (dismiss account k now d) ≡ some r)
unfolding mark_sent dismiss
mark_sent-others id k account now r d h n = ground (
  arith,
  get-update k id (marked_sent account now) d,
  get-update k id (marked_dismissed account now) d,
  str_iff r.account_id account,
)
