-- ===== src/Surfaces/Reddit.antt =====
-- src/surfaces/reddit/poll.ts: `Seen` and `RedditPoller`. What the client answers, parsed, is an
-- argument, newest first; the timer, the texts of the status and the events' own fields are left out.
pub mod Laws
use sidestage_copilot.Prelude.{
  ℕ, String, str_eq, Bool, true, false, not, Option, List, [], ◌∷◌, ◌++◌, if◌then◌else◌, ltb,
  length, any, keep,
}

pub record RedditMessage : Type 0 where
  pub id : String
  pub author : String
  pub text : String
  pub at : String
  pub thread_id : String
  pub parent_id : Option String
  pub room : String
  pub permalink : Option String

abbrev pub seen_cap : ℕ
seen_cap = 4000

-- `Seen`, the ids in the order of their insertion.
abbrev pub has : String → List String → Bool
has id ids = any (str_eq id) ids

abbrev pub inserted : String → List String → List String
inserted id ids = if has id ids then ids else ids ++ (id ∷ [])

abbrev pub without_oldest : List String → List String
without_oldest [] = []
without_oldest (oldest ∷ ids) = if ltb seen_cap (length (oldest ∷ ids)) then ids else oldest ∷ ids

unfoldable pub add : String → List String → List String
add id ids = without_oldest (inserted id ids)

unfoldable pub add_all : List RedditMessage → List String → List String
add_all [] ids = ids
add_all (m ∷ ms) ids = add_all ms (add m.id ids)

abbrev pub reversed : List RedditMessage → List RedditMessage → List RedditMessage
reversed [] acc = acc
reversed (m ∷ ms) acc = reversed ms (m ∷ acc)

-- `emitted` is what onMessage was given, and `has_ended` whether onEnded was called.
pub record Poller : Type 0 where
  pub seen : List String
  pub primed : Bool
  pub stopped : Bool
  pub has_ended : Bool
  pub emitted : List RedditMessage

abbrev pub fresh_of : List RedditMessage → List String → List RedditMessage
fresh_of ms ids = reversed (keep (λ m. not (has m.id ids)) ms) []

unfoldable pub poll_once : List RedditMessage → Poller → List RedditMessage × Poller
poll_once ms p =
    let seen = add_all ms p.seen in
    if p.primed
    then (fresh_of ms p.seen, record p { seen = seen; emitted = p.emitted ++ fresh_of ms p.seen })
    else ([], record p { seen = seen; primed = true })

-- What a pass meets: a page, or an error, of which some are permanent.
pub data Answer : Type 0 where
  page : List RedditMessage → Answer
  failed : Bool → Answer

-- One `tick` of `start`.
unfoldable pub tick : Answer → Poller → Poller
unfolding poll_once
tick (page ms) p = if p.stopped then p else (poll_once ms p).1
tick (failed permanent) p =
    if p.stopped then p else if permanent then record p { stopped = true; has_ended = true } else p

unfoldable pub stop : Poller → Poller
stop p = record p { stopped = true }
