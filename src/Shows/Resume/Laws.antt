-- ===== src/Shows/Resume/Laws.antt =====
-- When a stranded show is taken up again, and when it is ended.
use sidestage_copilot.Prelude.{
  ℕ, ◌+◌, ◌≤◌, ◌<◌, String, ◌≡◌, ◌≢◌, refl, ◌↔◌, Bool, true, Option, none, some, arith,
}
use sidestage_copilot.Shows.Resume.{
  LiveRow, Cause, resume, finish, resume_window_ms, recent_row_ms, plan_resume,
}

module _ (is_ours : String → String → Bool) (row : LiveRow) (now : ℕ) where
  resume-iff-at :
      (ext : String) (o : Option String)
      → row.external_id ≡ o
      → (plan_resume is_ours row now ≡ resume row.id ext) ↔ (
          (o ≡ some ext)
          × (now ≤ row.started_at + resume_window_ms)
          × (is_ours ext row.source ≡ true))
  unfolding plan_resume
  resume-iff-at ext none e = (λ h. ground arith, λ h. ground arith)
  resume-iff-at ext (some x) e = (λ h. ground arith, λ h. ground arith)

  -- A show is taken up again, under an id, exactly when it recorded that id, started at most six hours
  -- ago, and its own surface reopens the id.
  pub plan_resume-resume_iff :
      (ext : String)
      → (plan_resume is_ours row now ≡ resume row.id ext) ↔ (
          (row.external_id ≡ some ext)
          × (now ≤ row.started_at + resume_window_ms)
          × (is_ours ext row.source ≡ true))
  plan_resume-resume_iff ext = resume-iff-at ext row.external_id refl

  spares-at :
      (written : ℕ) (why : Cause) (o : Option String)
      → row.external_id ≡ o
      → row.created_at ≡ some written
      → 0 < written
      → now < written + recent_row_ms
      → plan_resume is_ours row now ≢ finish row.id why
  unfolding plan_resume
  spares-at written why none e w p r h = ground arith
  spares-at written why (some x) e w p r h = ground arith

  -- A show whose row was written less than ten minutes ago is never ended.
  pub plan_resume-spares :
      (written : ℕ) (why : Cause)
      → row.created_at ≡ some written
      → 0 < written
      → now < written + recent_row_ms
      → plan_resume is_ours row now ≢ finish row.id why
  plan_resume-spares written why w p r = spares-at written why row.external_id refl w p r
