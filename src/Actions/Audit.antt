-- ===== src/Actions/Audit.antt =====
-- src/actions/audit.ts: the hash-chained audit log of one show, its rows in the order of their
-- sequence numbers. An append holds the lock of the show from its read to its write, so appends
-- do not interleave. SHA-256 and JSON are the platform's.
pub mod Laws
use sidestage_copilot.Prelude.{
  ℕ, ◌+◌, String, str_eq, str_append, Bool, not, Option, none, some, List, [], ◌∷◌, ◌++◌,
  if◌then◌else◌, length, ◌≡◌,
}

-- What the log calls and does not define. A text that is no JSON makes `parse` throw.
pub record Platform : Type 1 where
  pub Detail : Type 0
  pub stringify : Detail → String
  pub parse : String → Option Detail
  pub sha256 : String → String
  pub digits : ℕ → String

-- `detail` is the stored text.
pub record Row : Type 0 where
  pub seq : ℕ
  pub at : String
  pub hash : String
  pub prev_hash : String
  pub kind : String
  pub actor_type : String
  pub summary : String
  pub detail : String

pub data Report : Type 0 where
  intact : ℕ → Report
  broken_link : ℕ → ℕ → Report
  broken_content : ℕ → ℕ → Report
  unreadable : Report

-- `"0".repeat(64)`
abbrev pub genesis : String
genesis = "0000000000000000000000000000000000000000000000000000000000000000"

-- `[...].join(SEP)`, the separator being the character of code 0
abbrev sep : String → String → String
sep a b = str_append a (str_append "\0" b)

module _ (p : Platform) where
  unfoldable pub hash_entry : String → ℕ → String → String → String → String → p.Detail → String
  hash_entry prev seq at kind actor summary detail = p.sha256 (
      sep prev
        (sep (p.digits seq) (sep at (sep kind (sep actor (sep summary (p.stringify detail)))))))

  abbrev pub head_seq : List Row → ℕ
  head_seq [] = 0
  head_seq (r ∷ []) = r.seq
  head_seq (r ∷ s ∷ rows) = head_seq (s ∷ rows)

  abbrev pub head_hash : String → List Row → String
  head_hash prev [] = prev
  head_hash prev (r ∷ rows) = head_hash r.hash rows

  unfoldable pub append : String → String → String → String → p.Detail → List Row → List Row
  append at kind actor summary detail rows =
      let seq = head_seq rows + 1 in
      let prev = head_hash genesis rows in
      rows
      ++ record {
        seq = seq;
        at = at;
        hash = hash_entry prev seq at kind actor summary detail;
        prev_hash = prev;
        kind = kind;
        actor_type = actor;
        summary = summary;
        detail = p.stringify detail;
      }
        ∷ []

  -- The loop of `verify`, behind the hash of the rows that were walked.
  walk : ℕ → String → List Row → Report
  walk height prev [] = intact height
  walk height prev (r ∷ rows) =
      let rest = walk height r.hash rows in
      if not (str_eq r.prev_hash prev) then broken_link height r.seq else elim (p.parse r.detail) [
        | none ↦ unreadable
        | some d ↦
            if not (str_eq (hash_entry prev r.seq r.at r.kind r.actor_type r.summary d) r.hash)
            then broken_content height r.seq
            else rest
      ]

  unfoldable pub verify : List Row → Report
  unfolding walk
  verify rows = walk (length rows) genesis rows
