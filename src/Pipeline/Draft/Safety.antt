-- ===== src/Pipeline/Draft/Safety.antt =====
-- What the pipeline says to a buyer with nobody watching.
use sidestage_copilot.Prelude.{
  ◌≤◌, ◌≡◌, ◌≢◌, refl, sym, ap, ◌∙◌, ◌⊎◌, inl, inr, false, [], ◌∷◌, ◌++◌, any, length, arith,
}
use sidestage_copilot.Domain.{Verdict, allow, revise, block, l3_auto_reply}
use sidestage_copilot.Autonomy.Ladder.{rung}
use sidestage_copilot.Guardrails.Input.{Draft}
use sidestage_copilot.Guardrails.Guards.Grounding.{is_unknown}
use sidestage_copilot.Guardrails.Guards.Laws.{IsClean, guards-IsClean}
use sidestage_copilot.Pipeline.State.{Scene, Pipe, ChatMessage, Composed}
use sidestage_copilot.Pipeline.Finish.{
  addressed, Outcome, returned, not_found, refused, not_delivered, unrecorded, Spans,
}
use sidestage_copilot.Pipeline.Finish.Laws.{finish-outbox}
use sidestage_copilot.Pipeline.Evict.{evict}
use sidestage_copilot.Pipeline.Draft.{
  Attempt, ComposeOutcome, drafted, rate_limited, threw, made, opened, grounded, rules_for,
  guard_input, chain_options, checked, repaired_to, by_verdict, guard_and_repair, keep_reply,
  after_finish, give_up, conclude,
}

-- The draft and the scene of its check, or the repair and the scene of its check.
abbrev pub IsChecked : Attempt → Draft → Scene → Draft → Type 0
IsChecked a d e t = ((e ≡ a.guarded_at) × (t ≡ d)) ⊎ ((e ≡ a.repaired_at) × (a.repair ≡ drafted t))

-- A text that the guards saw, over the listings of the scene, with the claims it makes.
pub record WasChecked (a : Attempt) (msg : ChatMessage) (d : Draft) (c : Composed) : Type 0 where
  pub scene : Scene
  pub draft : Draft
  pub which : IsChecked a d scene draft
  pub same_text : c.answer ≡ draft.answer
  pub same_claims : c.claims ≡ draft.claims
  pub same_verdict :
      c.verdict ≡ (checked scene msg (rules_for a msg) (grounded a msg) draft).verdict

repaired-WasChecked :
    (a : Attempt) (msg : ChatMessage) (d : Draft) (o : ComposeOutcome) (c : Composed)
    → a.repair ≡ o
    → repaired_to a msg o ≡ made c
    → WasChecked a msg d c
repaired-WasChecked a msg d (drafted t) c e h = record {
  scene = a.repaired_at;
  draft = t;
  which = inr (refl, e);
  same_text = ground arith;
  same_claims = ground arith;
  same_verdict = ground arith;
}
repaired-WasChecked a msg d rate_limited c e h = absurd (ground arith)
repaired-WasChecked a msg d threw c e h = absurd (ground arith)

verdict-WasChecked :
    (a : Attempt) (msg : ChatMessage) (d : Draft) (c : Composed) (v : Verdict)
    → (checked a.guarded_at msg (rules_for a msg) (grounded a msg) d).verdict ≡ v
    → by_verdict a msg d (checked a.guarded_at msg (rules_for a msg) (grounded a msg) d) v ≡ made c
    → WasChecked a msg d c
verdict-WasChecked a msg d c revise e h = repaired-WasChecked a msg d a.repair c refl h
verdict-WasChecked a msg d c allow e h = record {
  scene = a.guarded_at;
  draft = d;
  which = inl (refl, refl);
  same_text = ground arith;
  same_claims = ground arith;
  same_verdict = ground arith;
}
verdict-WasChecked a msg d c block e h = record {
  scene = a.guarded_at;
  draft = d;
  which = inl (refl, refl);
  same_text = ground arith;
  same_claims = ground arith;
  same_verdict = ground arith;
}

guard_and_repair-WasChecked :
    (a : Attempt) (msg : ChatMessage) (d : Draft) (c : Composed)
    → guard_and_repair a msg d ≡ made c
    → WasChecked a msg d c
unfolding guard_and_repair
guard_and_repair-WasChecked a msg d c h =
    verdict-WasChecked a msg d c
      (checked a.guarded_at msg (rules_for a msg) (grounded a msg) d).verdict refl h

after_finish-outbox :
    (a : Attempt) (msg : ChatMessage) (s : Outcome × Pipe)
    → (after_finish a msg s).outbox ≡ s.1.outbox
unfolding give_up evict
after_finish-outbox a msg (returned p, w) = ground arith
after_finish-outbox a msg (not_found, w) = refl
after_finish-outbox a msg (refused, w) = refl
after_finish-outbox a msg (not_delivered, w) = refl
after_finish-outbox a msg (unrecorded, w) = refl

not_blocked : (v : Verdict) → v ≡ allow → v ≢ block
not_blocked v h b = ground arith

checked-IsClean :
    (e : Scene) (a : Attempt) (msg : ChatMessage) (d : Draft)
    → (checked e msg (rules_for a msg) (grounded a msg) d).verdict ≡ allow
    → IsClean (guard_input e msg (rules_for a msg) (grounded a msg) d)
      × (any (is_unknown (guard_input e msg (rules_for a msg) (grounded a msg) d)) d.claims ≡ false)
unfolding checked
checked-IsClean e a msg d h =
    let (c, k) =
      guards-IsClean (guard_input e msg (rules_for a msg) (grounded a msg) d) (length d.claims)
        (chain_options (grounded a msg)) (not_blocked _ h) in
    (c, elim k [ inl x ↦ absurd (ground arith) | inr x ↦ x ])

keep_reply-outbox :
    (a : Attempt) (msg : ChatMessage) (c : Composed) (w : Pipe)
    → (keep_reply a msg c w).outbox ≡ w.outbox
keep_reply-outbox a msg c w = ground arith

-- Of a reply that is composed, not found in the cache: either the deliverer is left with nothing new,
-- or with exactly this reply. In the second case the rung is L3 or above, and the text that was
-- delivered is that of the draft, clean over the scene in which the guards checked it, or that of its
-- repair, clean over the scene of the second check; it cites only facts that were in evidence.
pub conclude-IsClean :
    (a : Attempt) (msg : ChatMessage) (d : Draft) (c : Composed) (w : Pipe)
    → guard_and_repair a msg d ≡ made c
    → ((conclude a msg c w).outbox ≡ w.outbox)
      ⊎ (((conclude a msg c w).outbox ≡ w.outbox ++ (addressed (opened a msg) msg c ∷ []))
          × (rung l3_auto_reply ≤ rung a.finished_at.level)
          × ((e : Scene) × (t : Draft) × IsChecked a d e t
              × (c.answer ≡ t.answer)
              × IsClean (guard_input e msg (rules_for a msg) (grounded a msg) t)
              × (any (is_unknown (guard_input e msg (rules_for a msg) (grounded a msg) t)) t.claims
                  ≡ false)))
unfolding conclude
conclude-IsClean a msg d c w h =
    let k = keep_reply-outbox a msg c w in
    let spans : Spans = record { total_ms = a.total_ms; cache_hit = false } in
    elim (finish-outbox a.finished_at (opened a msg) c spans msg (keep_reply a msg c w)) [
      | inl (may, took, out, end) ↦
          let seen = guard_and_repair-WasChecked a msg d c h in
          let (clean, known) =
            checked-IsClean seen.scene a msg seen.draft (sym seen.same_verdict ∙ may.allowed) in
          inr (
            after_finish-outbox a msg _
                ∙ out
                ∙ ap (λ l. l ++ (addressed (opened a msg) msg c ∷ [])) k,
            may.high_rung,
            (seen.scene, seen.draft, seen.which, seen.same_text, clean, known),
          )
      | inr (other, out, end) ↦ inl (after_finish-outbox a msg _ ∙ out ∙ k)
    ]
