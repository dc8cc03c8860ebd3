-- ===== src/Pipeline/Fanout/Laws.antt =====
-- The bound on the drafts in flight, and their order, on every run.
use sidestage_copilot.Prelude.{
  ℕ, suc, ◌+◌, ◌-◌, ◌≤◌, ◌<◌, ◌≡◌, refl, ◌⊎◌, inl, inr, List, [], ◌∷◌, ◌++◌, length, arith,
}
use sidestage_copilot.Pipeline.Fanout.{Fanout, idle, begun, waiting, pump, arrive, settle, stop}

module _ {M : Type 0} where
  begun-bound : (limit n : ℕ) (q : List M) → n ≤ limit → n + length (begun limit n q) ≤ limit
  unfolding begun
  begun-bound limit n [] h = ground arith
  begun-bound limit n (m ∷ q) h = ground (arith, begun-bound limit (suc n) q)

  waiting-full :
      (limit n : ℕ) (q : List M) → (waiting limit n q ≡ []) ⊎ (limit ≤ n + length (begun limit n q))
  unfolding begun waiting
  waiting-full limit n [] = inl refl
  waiting-full limit n (m ∷ q) = ground (arith, waiting-full limit (suc n) q)

  -- A run, with the messages that have arrived, less those that `stop` threw away, and the messages
  -- whose drafts have begun.
  pub data Run (limit : ℕ) : List M → List M → Fanout M → Type 0 where
    started : Run limit [] [] idle
    arrived :
        {ms bs : List M} {f : Fanout M} (m : M)
        → Run limit ms bs f
        → Run limit
            (ms ++ (m ∷ []))
            (bs ++ begun limit f.inflight (f.queue ++ (m ∷ [])))
            (arrive limit m f)
    settled :
        {ms bs : List M} {f : Fanout M} (i : ℕ)
        → i < length f.running
        → Run limit ms bs f
        → Run limit ms (bs ++ begun limit (f.inflight - 1) f.queue) (settle limit i f)
    halted : {ms bs : List M} {f : Fanout M} → Run limit ms bs f → Run limit bs bs (stop f)

  -- A slot for each draft, and never more slots than the limit.
  pub record IsBounded (limit : ℕ) (f : Fanout M) : Type 0 where
    pub counted : f.inflight ≡ length f.running
    pub bounded : f.inflight ≤ limit

  -- A call of `pump` leaves no message waiting while a slot is free.
  pub pump-IsFull :
      (limit : ℕ) (f : Fanout M)
      → f.inflight ≤ limit
      → ((pump limit f).queue ≡ []) ⊎ ((pump limit f).inflight ≡ limit)
  unfolding pump
  pump-IsFull limit f h = elim (waiting-full limit f.inflight f.queue) [
    | inl e ↦ inl e
    | inr e ↦ inr (omega (arith, begun-bound limit f.inflight f.queue h))
  ]
