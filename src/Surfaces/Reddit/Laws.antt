-- ===== src/Surfaces/Reddit/Laws.antt =====
-- What a poller hands on, what it remembers, and what it forgets.
use sidestage_copilot.Prelude.{
  ◌+◌, ◌≤◌, ◌≡◌, refl, ap, ◌∙◌, String, str_eq, str_refl, Bool-cases, true, false, not, inl, inr,
  List, [], ◌∷◌, ◌++◌, length, keep, All, arith,
}
use sidestage_copilot.Surfaces.Reddit.{
  RedditMessage, seen_cap, has, add, add_all, reversed, Poller, fresh_of, poll_once, Answer, page,
  failed, tick,
}

length-inserted_at_end :
    (ids : List String) (id : String) → length (ids ++ (id ∷ [])) ≡ length ids + 1
length-inserted_at_end [] id = refl
length-inserted_at_end (x ∷ ids) id = ground (arith, length-inserted_at_end ids id)

length-add-le :
    (id : String) (ids : List String) → length ids ≤ seen_cap → length (add id ids) ≤ seen_cap
unfolding add
length-add-le id [] h = ground arith
length-add-le id (x ∷ ids) h = ground (arith, length-inserted_at_end ids id)

length-add_all-le :
    (ms : List RedditMessage) (ids : List String)
    → length ids ≤ seen_cap
    → length (add_all ms ids) ≤ seen_cap
unfolding add_all
length-add_all-le [] ids h = h
length-add_all-le (m ∷ ms) ids h = length-add_all-le ms (add m.id ids) (length-add-le m.id ids h)

-- A poller never remembers more than its cap, whatever a pass meets.
pub length-tick-le :
    (a : Answer) (p : Poller) → length p.seen ≤ seen_cap → length (tick a p).seen ≤ seen_cap
unfolding tick poll_once
length-tick-le (page ms) p h = ground (arith, length-add_all-le ms p.seen h)
length-tick-le (failed b) p h = ground arith

-- None of these messages was remembered.
abbrev pub AreNew : List String → List RedditMessage → Type 0
AreNew ids ms = All (λ m. has m.id ids ≡ false) ms

keep-AreNew :
    (ids : List String) (ms : List RedditMessage) → AreNew ids (keep (λ m. not (has m.id ids)) ms)
keep-AreNew ids [] = tt
keep-AreNew ids (m ∷ ms) = elim (Bool-cases (has m.id ids)) [
  | inl e ↦ rw e (keep-AreNew ids ms)
  | inr e ↦ rw e (e, keep-AreNew ids ms)
]

reversed-AreNew :
    (ids : List String) (ms acc : List RedditMessage)
    → AreNew ids ms
    → AreNew ids acc
    → AreNew ids (reversed ms acc)
reversed-AreNew ids [] acc h k = k
reversed-AreNew ids (m ∷ ms) acc h k = reversed-AreNew ids ms (m ∷ acc) h.1 (h.0, k)

-- A pass hands on only messages that were not remembered, and the first pass none.
pub poll_once-AreNew :
    (ms : List RedditMessage) (p : Poller)
    → AreNew p.seen (poll_once ms p).0 × ((p.primed ≡ false) → (poll_once ms p).0 ≡ [])
unfolding poll_once
poll_once-AreNew ms p = elim (Bool-cases p.primed) [
  | inl e ↦ (
    rw e (
        reversed-AreNew p.seen (keep (λ m. not (has m.id p.seen)) ms) [] (keep-AreNew p.seen ms)
          tt),
    λ h. ground arith,
  )
  | inr e ↦ (rw e tt, λ h. ground arith)
]

-- The id that has been remembered longest is forgotten when a new one meets a full memory, although
-- its message may still stand on every page, as the opening post of a thread does.
pub add-forgets :
    (oldest id : String) (ids : List String)
    → has id (oldest ∷ ids) ≡ false
    → length (oldest ∷ ids) ≡ seen_cap
    → add id (oldest ∷ ids) ≡ ids ++ (id ∷ [])
unfolding add
add-forgets oldest id ids h l = ground (arith, length-inserted_at_end ids id)

has-at_end :
    (id other : String) (ids : List String)
    → has id ids ≡ false
    → str_eq id other ≡ false
    → has id (ids ++ (other ∷ [])) ≡ false
has-at_end id other [] h n = ground arith
has-at_end id other (x ∷ ids) h n = ground (arith, has-at_end id other ids)

add-known :
    (id : String) (ids : List String) → length (id ∷ ids) ≡ seen_cap → add id (id ∷ ids) ≡ id ∷ ids
unfolding add
add-known id ids l = ground (arith, str_refl id)

has-last : (id : String) (ids : List String) → has id (ids ++ (id ∷ [])) ≡ true
has-last id [] = ground (arith, str_refl id)
has-last id (x ∷ ids) = ground (arith, has-last id ids)

fresh_of-first :
    (post comment : RedditMessage) (seen : List String)
    → has post.id seen ≡ false
    → has comment.id seen ≡ true
    → fresh_of (post ∷ comment ∷ []) seen ≡ post ∷ []
fresh_of-first post comment seen h k = rw h (rw k refl)

poll_once-seen :
    (ms : List RedditMessage) (p : Poller)
    → ((poll_once ms p).1.seen ≡ add_all ms p.seen) × ((poll_once ms p).1.primed ≡ true)
unfolding poll_once
poll_once-seen ms p = ground arith

poll_once-primed :
    (ms : List RedditMessage) (p : Poller)
    → p.primed ≡ true
    → (poll_once ms p).0 ≡ fresh_of ms p.seen
unfolding poll_once
poll_once-primed ms p h = rw h refl

add_all-forgets :
    (post comment : RedditMessage) (ids : List String)
    → length (post.id ∷ ids) ≡ seen_cap
    → has comment.id (post.id ∷ ids) ≡ false
    → add_all (post ∷ comment ∷ []) (post.id ∷ ids) ≡ ids ++ (comment.id ∷ [])
unfolding add_all
add_all-forgets post comment ids full new =
    ap (add comment.id) (add-known post.id ids full) ∙ add-forgets post.id comment.id ids new full

-- A poller that is watching a thread, remembers as many ids as it can, the opening post's first of
-- all, and meets that post and one new comment twice, hands the post on again the second time.
pub poll_once-again :
    (post comment : RedditMessage) (ids : List String) (p : Poller)
    → p.primed ≡ true
    → p.seen ≡ post.id ∷ ids
    → length (post.id ∷ ids) ≡ seen_cap
    → has post.id ids ≡ false
    → has comment.id (post.id ∷ ids) ≡ false
    → str_eq post.id comment.id ≡ false
    → (poll_once (post ∷ comment ∷ []) (poll_once (post ∷ comment ∷ []) p).1).0 ≡ post ∷ []
poll_once-again post comment ids p up seen full alone new apart =
    let ms : List RedditMessage = post ∷ comment ∷ [] in
    let later : Poller = (poll_once ms p).1 in
    let held : later.seen ≡ ids ++ (comment.id ∷ []) =
      (poll_once-seen ms p).0 ∙ ap (add_all ms) seen ∙ add_all-forgets post comment ids full new in
    poll_once-primed ms later (poll_once-seen ms p).1
    ∙ fresh_of-first post comment later.seen
        (ap (has post.id) held ∙ has-at_end post.id comment.id ids alone apart)
        (ap (has comment.id) held ∙ has-last comment.id ids)
