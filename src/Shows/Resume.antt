-- ===== src/Shows/Resume.antt =====
-- `planResume` of src/shows/resume.ts: what is done about a show that a restart left live. What the
-- surfaces make of an id is a parameter; the texts of the reasons are left out.
pub mod Laws
use sidestage_copilot.Prelude.{
  ℕ, ◌+◌, ◌-◌, ◌*◌, String, Bool, true, false, not, ◌&&◌, Option, none, some, if◌then◌else◌, ltb,
}

-- 6 hours and 10 minutes
abbrev pub resume_window_ms : ℕ
resume_window_ms = 6 * 60 * 60 * 1000

abbrev pub recent_row_ms : ℕ
recent_row_ms = 10 * 60 * 1000

-- `started_at` and `created_at` in milliseconds. An absent or empty `external_id` is `none`.
pub record LiveRow : Type 0 where
  pub id : String
  pub source : String
  pub external_id : Option String
  pub started_at : ℕ
  pub created_at : Option ℕ

pub data Cause : Type 0 where
  no_external_id too_old not_reopenable just_written : Cause

pub data ResumePlan : Type 0 where
  resume : String → String → ResumePlan
  finish leave : String → Cause → ResumePlan

-- `resolveSurface(id)?.adapter.id === row.source`
module _ (is_ours : String → String → Bool) where
  abbrev reopens : LiveRow → ℕ → Option String → Bool
  reopens row now none = false
  reopens row now (some ext) =
      not (ltb (row.started_at + resume_window_ms) now) && is_ours ext row.source

  unfoldable pub can_reopen : LiveRow → ℕ → Bool
  can_reopen row now = reopens row now row.external_id

  abbrev why_not : LiveRow → ℕ → Option String → Cause
  why_not row now none = no_external_id
  why_not row now (some ext) =
      if ltb (row.started_at + resume_window_ms) now then too_old else not_reopenable

  -- `written && now - written < RECENT_ROW_MS`, where a time of 0 counts as absent
  abbrev pub is_recent : ℕ → Option ℕ → Bool
  is_recent now none = false
  is_recent now (some written) = ltb 0 written && ltb now (written + recent_row_ms)

  abbrev resumed : LiveRow → Option String → ResumePlan
  resumed row none = finish row.id no_external_id
  resumed row (some ext) = resume row.id ext

  unfoldable pub plan_resume : LiveRow → ℕ → ResumePlan
  unfolding can_reopen
  plan_resume row now =
      if can_reopen row now
      then resumed row row.external_id
      else if is_recent now row.created_at
      then leave row.id just_written
      else finish row.id (why_not row now row.external_id)
