-- ===== src/Actions/Audit/Laws.antt =====
-- What the chain shows: appends keep it intact, an edit or a removal inside it is reported at the
-- row, and neither a new spelling of a stored detail nor a removal at its end is.
use sidestage_copilot.Prelude.{
  ℕ, ◌+◌, String, str_iff, ◌≡◌, refl, ◌≢◌, ◌↔◌, inl, inr, ap, ◌∙◌, some, List, [], ◌∷◌, ◌++◌, arith,
  length, length-append, Option-cases,
}
use sidestage_copilot.Actions.Audit.{
  Platform, Row, intact, broken_link, broken_content, genesis, hash_entry, head_seq, head_hash,
  append, walk, verify,
}

module _ (p : Platform) where
  -- A row that continues the chain behind `prev`.
  pub record Links (prev : String) (r : Row) : Type 0 where
    pub prev_hash : r.prev_hash ≡ prev
    pub detail : p.Detail
    pub parses : p.parse r.detail ≡ some detail
    pub hash : hash_entry p prev r.seq r.at r.kind r.actor_type r.summary detail ≡ r.hash

  abbrev pub IsChain : String → List Row → Type 0
  IsChain prev [] = Unit
  IsChain prev (r ∷ rows) = Links prev r × IsChain r.hash rows

  walk-IsChain :
      (n k : ℕ) (prev : String) (rows : List Row)
      → walk p n prev rows ≡ intact k
      → IsChain prev rows
  unfolding walk
  walk-IsChain n k prev [] h = tt
  walk-IsChain n k prev (r ∷ rows) h = elim (Option-cases (p.parse r.detail)) [
    | inl bad ↦ absurd (ground (arith, str_iff r.prev_hash prev))
    | inr (d, good) ↦ (
      record {
        prev_hash = ground (arith, str_iff r.prev_hash prev);
        detail = d;
        parses = good;
        hash =
            ground (
              arith,
              str_iff (hash_entry p prev r.seq r.at r.kind r.actor_type r.summary d) r.hash,
            );
      },
      walk-IsChain n k r.hash rows (ground arith),
    )
  ]

  IsChain-walk :
      (n : ℕ) (prev : String) (rows : List Row) → IsChain prev rows → walk p n prev rows ≡ intact n
  unfolding walk
  IsChain-walk n prev [] h = refl
  IsChain-walk n prev (r ∷ rows) (l, h) = ground (
    arith,
    IsChain-walk n r.hash rows h,
    l.prev_hash,
    l.parses,
    l.hash,
    str_iff r.prev_hash prev,
    str_iff (hash_entry p prev r.seq r.at r.kind r.actor_type r.summary l.detail) r.hash,
  )

  IsChain-append :
      (prev : String) (xs ys : List Row)
      → IsChain prev (xs ++ ys) ↔ (IsChain prev xs × IsChain (head_hash p prev xs) ys)
  IsChain-append prev [] ys = (λ h. (tt, h), λ h. h.1)
  IsChain-append prev (x ∷ xs) ys =
      let (to, from) = IsChain-append x.hash xs ys in
      (λ (l, h). ((l, (to h).0), (to h).1), λ ((l, h), k). (l, from (h, k)))

-- `verify` reports an intact chain exactly when each row continues the one before it.
pub verify_iff :
    (p : Platform) (rows : List Row)
    → (verify p rows ≡ intact (length rows)) ↔ IsChain p genesis rows
unfolding verify
verify_iff p rows = (
  walk-IsChain p (length rows) (length rows) genesis rows,
  IsChain-walk p (length rows) genesis rows,
)

module _ (p : Platform) where
  -- A walk over rows that continue the chain comes to what stands behind them.
  walk-append :
      (n : ℕ) (prev : String) (xs ys : List Row)
      → IsChain p prev xs
      → walk p n prev (xs ++ ys) ≡ walk p n (head_hash p prev xs) ys
  unfolding walk
  walk-append n prev [] ys h = refl
  walk-append n prev (x ∷ xs) ys (l, h) = ground (
    arith,
    walk-append n x.hash xs ys h,
    l.prev_hash,
    l.parses,
    l.hash,
    str_iff x.prev_hash prev,
    str_iff (hash_entry p prev x.seq x.at x.kind x.actor_type x.summary l.detail) x.hash,
  )

  appended-Links :
      (prev at kind actor summary : String) (seq : ℕ) (d d' : p.Detail)
      → p.parse (p.stringify d) ≡ some d'
      → p.stringify d' ≡ p.stringify d
      → Links p prev (record {
        seq = seq;
        at = at;
        hash = hash_entry p prev seq at kind actor summary d;
        prev_hash = prev;
        kind = kind;
        actor_type = actor;
        summary = summary;
        detail = p.stringify d;
      })
  unfolding hash_entry
  appended-Links prev at kind actor summary seq d d' reads same = record {
    prev_hash = refl;
    detail = d';
    parses = reads;
    hash = rw (hash_entry, same);
  }

-- An append keeps an intact chain intact, where a detail reads back as one that is written alike.
pub verify-append :
    (p : Platform) (at kind actor summary : String) (detail : p.Detail) (rows : List Row)
    → ((d : p.Detail)
        → (d' : p.Detail) × (p.parse (p.stringify d) ≡ some d') × (p.stringify d' ≡ p.stringify d))
    → verify p rows ≡ intact (length rows)
    → verify p (append p at kind actor summary detail rows) ≡ intact (length rows + 1)
unfolding append
verify-append p at kind actor summary detail rows round h =
    let (d', reads, same) = round detail in
    (verify_iff p (rows ++ new ∷ [])).1 (
      (IsChain-append p genesis rows (new ∷ [])).1 (
        (verify_iff p rows).0 h,
        (
          appended-Links p (head_hash p genesis rows) at kind actor summary (head_seq p rows + 1)
              detail d' reads same,
          tt,
        ),
      ))
    ∙ ap intact (omega (arith, length-append {0} rows (new ∷ [])))
  where
    new : Row
    new = record {
      seq = head_seq p rows + 1;
      at = at;
      hash =
          hash_entry p (head_hash p genesis rows) (head_seq p rows + 1) at kind actor summary
            detail;
      prev_hash = head_hash p genesis rows;
      kind = kind;
      actor_type = actor;
      summary = summary;
      detail = p.stringify detail;
    }

-- An edit is reported: where the rows before it are intact and the content of a row that can be
-- read no longer hashes to the hash that it holds, `verify` names that row.
pub verify-edited :
    (p : Platform) (xs ys : List Row) (r : Row) (d : p.Detail)
    → verify p xs ≡ intact (length xs)
    → r.prev_hash ≡ head_hash p genesis xs
    → p.parse r.detail ≡ some d
    → hash_entry p (head_hash p genesis xs) r.seq r.at r.kind r.actor_type r.summary d ≢ r.hash
    → verify p (xs ++ r ∷ ys) ≡ broken_content (length (xs ++ r ∷ ys)) r.seq
unfolding verify walk
verify-edited p xs ys r d before link reads differs =
    let h = head_hash p genesis xs in
    walk-append p (length (xs ++ r ∷ ys)) genesis xs (r ∷ ys) ((verify_iff p xs).0 before)
    ∙ ground (
      arith,
      str_iff r.prev_hash h,
      str_iff (hash_entry p h r.seq r.at r.kind r.actor_type r.summary d) r.hash,
    )

-- A removal inside the log is reported at the row behind it, where the two rows that are joined
-- hold different hashes.
pub verify-removed :
    (p : Platform) (xs ys : List Row) (r s : Row)
    → verify p (xs ++ r ∷ s ∷ ys) ≡ intact (length (xs ++ r ∷ s ∷ ys))
    → r.hash ≢ head_hash p genesis xs
    → verify p (xs ++ s ∷ ys) ≡ broken_link (length (xs ++ s ∷ ys)) s.seq
unfolding verify walk
verify-removed p xs ys r s all_ differs =
    let (before, (first, (second, _))) =
      (IsChain-append p genesis xs (r ∷ s ∷ ys)).0 ((verify_iff p (xs ++ r ∷ s ∷ ys)).0 all_) in
    walk-append p (length (xs ++ s ∷ ys)) genesis xs (s ∷ ys) before
    ∙ ground (arith, second.prev_hash, str_iff s.prev_hash (head_hash p genesis xs))

-- A removal at the end of the log is not reported: what is left of an intact chain is intact.
pub verify-truncated :
    (p : Platform) (xs ys : List Row)
    → verify p (xs ++ ys) ≡ intact (length (xs ++ ys))
    → verify p xs ≡ intact (length xs)
verify-truncated p xs ys h =
    (verify_iff p xs).1 (((IsChain-append p genesis xs ys).0 ((verify_iff p (xs ++ ys)).0 h)).0)

-- Another spelling of a stored detail is not reported: a text that parses alike leaves the report
-- of an intact chain as it was.
pub verify-respelled :
    (p : Platform) (xs ys : List Row) (r : Row) (text : String)
    → p.parse text ≡ p.parse r.detail
    → verify p (xs ++ r ∷ ys) ≡ intact (length (xs ++ r ∷ ys))
    → verify p (xs ++ record r { detail = text } ∷ ys) ≡ intact (length (xs ++ r ∷ ys))
verify-respelled p xs ys r text same h =
    let (before, (here, after)) =
      (IsChain-append p genesis xs (r ∷ ys)).0 ((verify_iff p (xs ++ r ∷ ys)).0 h) in
    (verify_iff p (xs ++ record r { detail = text } ∷ ys)).1 (
      (IsChain-append p genesis xs (record r { detail = text } ∷ ys)).1 (
        before,
        (
          record {
            prev_hash = here.prev_hash;
            detail = here.detail;
            parses = same ∙ here.parses;
            hash = here.hash;
          },
          after,
        ),
      ))
    ∙ ap intact (
        omega (
          arith,
          length-append {0} xs (record r { detail = text } ∷ ys),
          length-append {0} xs (r ∷ ys),
        ))
