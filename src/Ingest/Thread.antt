-- ===== src/Ingest/Thread.antt =====
-- src/ingest/threadContext.ts: the branch above a message, and the thread that a draft is given. The
-- map of messages without those seen is a list here: the messages that are left.
pub mod Laws
use sidestage_copilot.Prelude.{
  ℕ, zero, suc, ◌-◌, String, str_eq, Bool, true, false, not, Option, none, some, List, [], ◌∷◌,
  ◌++◌, if◌then◌else◌, ltb, length, take, any, keep, map,
}
use sidestage_copilot.Domain.{community_corpus}
use sidestage_copilot.Guardrails.Input.{Fact, same_corpus}

pub record ThreadMessage : Type 0 where
  pub id : String
  pub author : String
  pub text : String
  pub at : String
  pub parent_id : Option String

abbrev pub max_ancestors : ℕ
max_ancestors = 8

-- `m.parentId` as a condition
abbrev pub parent_of : ThreadMessage → Option String
parent_of m = elim m.parent_id [ none ↦ none | some p ↦ if str_eq p "" then none else some p ]

abbrev pub has_parent : ThreadMessage → Bool
has_parent m = elim (parent_of m) [ none ↦ false | some p ↦ true ]

-- `byId.get(id)`: the last of the messages with one id.
abbrev pub by_id : String → List ThreadMessage → Option ThreadMessage
by_id id [] = none
by_id id (m ∷ ms) = elim (by_id id ms) [
  | some n ↦ some n
  | none ↦ if str_eq m.id id then some m else none
]

unfoldable pub unseen : String → List ThreadMessage → List ThreadMessage
unseen id [] = []
unseen id (m ∷ ms) = let rest = unseen id ms in if str_eq m.id id then rest else m ∷ rest

-- The loop, on fuel: the message of the id, if it has not been seen, and those above it.
unfoldable pub climb : ℕ → List ThreadMessage → Option String → List ThreadMessage
climb zero pool cur = []
climb (suc n) pool none = []
climb (suc n) pool (some id) = elim (by_id id pool) [
  | none ↦ []
  | some m ↦ m ∷ climb n (unseen id pool) (parent_of m)
]

abbrev pub backwards : List ThreadMessage → List ThreadMessage → List ThreadMessage
backwards [] acc = acc
backwards (m ∷ ms) acc = backwards ms (m ∷ acc)

abbrev pub last_of : ℕ → List ThreadMessage → List ThreadMessage
last_of n [] = []
last_of n (m ∷ ms) = let rest = last_of n ms in if ltb n (length (m ∷ ms)) then rest else m ∷ ms

-- A long branch keeps the opening post and its newest seven.
abbrev pub capped_from : List ThreadMessage → List ThreadMessage
capped_from [] = []
capped_from (m ∷ ms) =
    if ltb max_ancestors (length (m ∷ ms)) then m ∷ last_of (max_ancestors - 1) (m ∷ ms) else m ∷ ms

unfoldable pub capped : List ThreadMessage → List ThreadMessage
capped ms = capped_from ms

abbrev pub before : String → List ThreadMessage → List ThreadMessage
before id [] = []
before id (m ∷ ms) = if str_eq m.id id then [] else m ∷ before id ms

abbrev pub with_leaf : List ThreadMessage → String → Option ThreadMessage → List ThreadMessage
with_leaf ms leaf none = []
with_leaf ms leaf (some m) =
    if any has_parent ms
    then capped (backwards (climb (length ms) (unseen leaf ms) (parent_of m)) [])
    else last_of max_ancestors (before leaf ms)

unfoldable pub branch_above : List ThreadMessage → String → List ThreadMessage
branch_above ms leaf = with_leaf ms leaf (by_id leaf ms)

pub record Ancestor : Type 0 where
  pub author : String
  pub text : String
  pub at : String

abbrev pub as_ancestor : ThreadMessage → Ancestor
as_ancestor m = record { author = m.author; text = m.text; at = m.at }

pub record ThreadContext : Type 0 where
  pub thread_id : String
  pub room : String
  pub ancestors : List Ancestor
  pub rules : List Fact
  pub summary : Option String

unfoldable pub build_thread_context :
    String → String → List ThreadMessage → String → List Fact → Option String → ThreadContext
build_thread_context thread_id room ms leaf rules summary = record {
  thread_id = thread_id;
  room = room;
  ancestors = map as_ancestor (branch_above ms leaf);
  rules = keep (λ f. same_corpus f.corpus community_corpus) rules;
  summary = summary;
}
