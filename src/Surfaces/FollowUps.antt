-- ===== src/Surfaces/FollowUps.antt =====
-- src/surfaces/dm/drafts.ts, `FollowUpInbox`: the follow-ups of all accounts, a table by id with one
-- row to a show and a buyer. Lists are plain reads, and left out; what a change hands back is the row
-- that `get_row` then reads.
pub mod Laws
use sidestage_copilot.Prelude.{
  ℕ, String, str_eq, Bool, true, false, not, ◌&&◌, Option, none, some, List, [], ◌∷◌, if◌then◌else◌,
  is_some,
}
use sidestage_copilot.Dict.{Dict, get, put, update}

pub data FollowUpStatus : Type 0 where
  draft sent dismissed : FollowUpStatus

pub record FollowUpRow : Type 0 where
  pub show_id : String
  pub account_id : String
  pub buyer : String
  pub question : String
  pub message_id : Option String
  pub text : String
  pub status : FollowUpStatus
  pub created_at : ℕ
  pub sent_at : Option ℕ
  pub dismissed_at : Option ℕ

abbrev is_draft : FollowUpStatus → Bool
is_draft draft = true
is_draft _ = false

abbrev pub is_dismissed : FollowUpStatus → Bool
is_dismissed dismissed = true
is_dismissed _ = false

abbrev or_now : Option ℕ → ℕ → ℕ
or_now none now = now
or_now (some t) now = t

-- What `save` is given.
pub record FollowUp : Type 0 where
  pub id : String
  pub show_id : String
  pub account_id : String
  pub buyer : String
  pub question : String
  pub message_id : Option String
  pub text : String

-- The id of the row that stands under `UNIQUE (show_id, buyer)`.
unfoldable pub row_of : String → String → Dict FollowUpRow → Option String
row_of show_id buyer [] = none
row_of show_id buyer ((id, r) ∷ d) =
    if str_eq r.show_id show_id && str_eq r.buyer buyer then some id else row_of show_id buyer d

-- `DO UPDATE SET …`: the text of a row that has left the drafts stays.
abbrev pub resaved : FollowUp → FollowUpRow → FollowUpRow
resaved f r = record r {
  question = f.question;
  message_id = f.message_id;
  text = if is_draft r.status then f.text else r.text;
}

abbrev pub new_row : FollowUp → ℕ → FollowUpRow
new_row f now = record {
  show_id = f.show_id;
  account_id = f.account_id;
  buyer = f.buyer;
  question = f.question;
  message_id = f.message_id;
  text = f.text;
  status = draft;
  created_at = now;
  sent_at = none;
  dismissed_at = none;
}

-- An id that is there, for another show or buyer, throws.
unfoldable pub save : FollowUp → ℕ → Dict FollowUpRow → Option (Dict FollowUpRow)
save f now d = elim (row_of f.show_id f.buyer d) [
  | some id ↦ some (update id (resaved f) d)
  | none ↦ if is_some (get f.id d) then none else some (put f.id (new_row f now) d)
]

-- `AND account_id = $1 AND status <> 'dismissed'`
abbrev pub marked_sent : String → ℕ → FollowUpRow → FollowUpRow
marked_sent account now r =
    if str_eq r.account_id account && not (is_dismissed r.status)
    then record r { status = sent; sent_at = some (or_now r.sent_at now) }
    else r

unfoldable pub mark_sent : String → String → ℕ → Dict FollowUpRow → Dict FollowUpRow
mark_sent account id now d = update id (marked_sent account now) d

abbrev pub marked_dismissed : String → ℕ → FollowUpRow → FollowUpRow
marked_dismissed account now r =
    if str_eq r.account_id account
    then record r { status = dismissed; dismissed_at = some (or_now r.dismissed_at now) }
    else r

unfoldable pub dismiss : String → String → ℕ → Dict FollowUpRow → Dict FollowUpRow
dismiss account id now d = update id (marked_dismissed account now) d

abbrev of_account : String → Option FollowUpRow → Option FollowUpRow
of_account account none = none
of_account account (some r) = if str_eq r.account_id account then some r else none

-- `FollowUpInbox.get`
unfoldable pub get_row : String → String → Dict FollowUpRow → Option FollowUpRow
get_row account id d = of_account account (get id d)
