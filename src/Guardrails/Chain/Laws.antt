-- ===== src/Guardrails/Chain/Laws.antt =====
-- What a verdict and a confidence of the chain say about the guards that ran.
use sidestage_copilot.Prelude.{
  ℕ, ◌+◌, ◌-◌, ◌*◌, min, Bool-cases, ◌≤◌, ◌<◌, ◌≡◌, ◌≢◌, refl, ◌↔◌, ◌⊎◌, inl, inr, Bool, true,
  false, ◌&&◌, Option, none, some, List, [], ◌∷◌, All, arith,
}
use sidestage_copilot.Domain.{allow, block, GuardVerdict}
use sidestage_copilot.Guardrails.Chain.{
  GuardResult, Guard, ChainOptions, is_block, is_revise, quality_of, run_guard, run_guards,
  verdict_of, penalised, confidence_of, cited, rounded, run_chain,
}
use sidestage_copilot.Autonomy.Ladder.{auto_confidence_floor}

-- A guard that is skipped for human text, or that ran, returned, and objected to nothing.
abbrev pub Cleared : {I : Type 0} → Bool → I → Guard I → Type 0
Cleared human i g =
    (human && g.model_only ≡ true)
    ⊎ ((v : GuardVerdict) × (g.run i ≡ some v) × (is_block v ≡ false) × (is_revise v ≡ false))

abbrev NoObjection : GuardResult → Type 0
NoObjection g = (is_block g.verdict ≡ false) × (is_revise g.verdict ≡ false)

verdict_of-NoObjection : (gs : List GuardResult) → verdict_of gs ≡ allow → All NoObjection gs
unfolding verdict_of
verdict_of-NoObjection [] h = tt
verdict_of-NoObjection (g ∷ gs) h =
    ((ground arith, ground arith), verdict_of-NoObjection gs (ground arith))

NoObjection-verdict_of : (gs : List GuardResult) → All NoObjection gs → verdict_of gs ≡ allow
unfolding verdict_of
NoObjection-verdict_of [] h = refl
NoObjection-verdict_of (g ∷ gs) h = ground (arith, NoObjection-verdict_of gs h.1)

penalised-le : (gs : List GuardResult) (c : ℕ) → penalised gs c ≤ c
unfolding penalised
penalised-le [] c = omega arith
penalised-le (g ∷ gs) c =
    ground (arith, penalised-le gs (c - 600), penalised-le gs (c - 220), penalised-le gs c)

closed-Cleared :
    {I : Type 0} (human : Bool) (i : I) (g : Guard I) (o : Option GuardVerdict)
    → g.run i ≡ o
    → NoObjection (run_guard human i g)
    → Cleared human i g
unfolding run_guard
closed-Cleared human i g none e h = inl (ground arith)
closed-Cleared human i g (some v) e h = elim (Bool-cases (human && g.model_only)) [
  | inl q ↦ inl q
  | inr q ↦ inr (v, e, ground arith, ground arith)
]

NoObjection-Cleared :
    {I : Type 0} (human : Bool) (i : I) (g : Guard I)
    → Cleared human i g
    → NoObjection (run_guard human i g)
unfolding run_guard
NoObjection-Cleared human i g (inl h) = ground arith
NoObjection-Cleared human i g (inr (v, e, b, r)) = ground arith

run_guards-Cleared :
    {I : Type 0} (human : Bool) (i : I) (gs : List (Guard I))
    → All NoObjection (run_guards human i gs)
    → All (Cleared human i) gs
unfolding run_guards
run_guards-Cleared human i [] h = tt
run_guards-Cleared human i (g ∷ gs) h =
    (closed-Cleared human i g (g.run i) refl h.0, run_guards-Cleared human i gs h.1)

Cleared-run_guards :
    {I : Type 0} (human : Bool) (i : I) (gs : List (Guard I))
    → All (Cleared human i) gs
    → All NoObjection (run_guards human i gs)
unfolding run_guards
Cleared-run_guards human i [] h = tt
Cleared-run_guards human i (g ∷ gs) h =
    (NoObjection-Cleared human i g h.0, Cleared-run_guards human i gs h.1)

-- The chain allows a draft exactly when each of its guards is skipped for human text or returned,
-- without throwing, an answer that neither blocks nor asks for a revision.
pub run_chain-allow_iff :
    {I : Type 0} (gs : List (Guard I)) (i : I) (claims : ℕ) (o : ChainOptions)
    → ((run_chain gs i claims o).verdict ≡ allow) ↔ All (Cleared o.by_human i) gs
unfolding run_chain
run_chain-allow_iff gs i claims o = (
  λ h. run_guards-Cleared o.by_human i gs (verdict_of-NoObjection (run_guards o.by_human i gs) h),
  λ h. NoObjection-verdict_of (run_guards o.by_human i gs) (Cleared-run_guards o.by_human i gs h),
)

penalised-NoObjection :
    (gs : List GuardResult) (c : ℕ) → 730 < penalised gs c → c ≤ 950 → All NoObjection gs
unfolding penalised
penalised-NoObjection [] c h b = tt
penalised-NoObjection (g ∷ gs) c h b =
    ground (arith, penalised-le gs (c - 600), penalised-le gs (c - 220), penalised-NoObjection gs c)

confidence_of-confident :
    (gs : List GuardResult) (o : ChainOptions) (claims : ℕ)
    → auto_confidence_floor ≤ confidence_of gs o claims
    → All NoObjection gs × (0 < claims) × (o.abstained ≡ false)
unfolding confidence_of rounded cited
confidence_of-confident gs o claims h = (
  penalised-NoObjection gs (cited claims (450 + 5 * min 100 (quality_of o.evidence_quality)))
      (ground arith) (ground arith),
  ground
      (arith, penalised-le gs (cited claims (450 + 5 * min 100 (quality_of o.evidence_quality)))),
  ground arith,
)

-- A confidence at the floor or above it says that the draft was allowed, that it cites something
-- and that retrieval did not abstain.
pub run_chain-confident :
    {I : Type 0} (gs : List (Guard I)) (i : I) (claims : ℕ) (o : ChainOptions)
    → auto_confidence_floor ≤ (run_chain gs i claims o).confidence
    → ((run_chain gs i claims o).verdict ≡ allow) × (0 < claims) × (o.abstained ≡ false)
unfolding run_chain
run_chain-confident gs i claims o h =
    let (n, c, a) = confidence_of-confident (run_guards o.by_human i gs) o claims h in
    (NoObjection-verdict_of (run_guards o.by_human i gs) n, c, a)

-- A guard that is skipped for human text, or that ran, returned, and did not block.
abbrev pub Unblocked : {I : Type 0} → Bool → I → Guard I → Type 0
Unblocked human i g =
    (human && g.model_only ≡ true)
    ⊎ ((v : GuardVerdict) × (g.run i ≡ some v) × (is_block v ≡ false))

closed-Unblocked :
    {I : Type 0} (human : Bool) (i : I) (g : Guard I) (o : Option GuardVerdict)
    → g.run i ≡ o
    → is_block (run_guard human i g).verdict ≡ false
    → Unblocked human i g
unfolding run_guard
closed-Unblocked human i g none e h = inl (ground arith)
closed-Unblocked human i g (some v) e h = elim (Bool-cases (human && g.model_only)) [
  | inl q ↦ inl q
  | inr q ↦ inr (v, e, ground arith)
]

verdict_of-unblocked :
    (gs : List GuardResult) → verdict_of gs ≢ block → All (λ g. is_block g.verdict ≡ false) gs
unfolding verdict_of
verdict_of-unblocked [] h = tt
verdict_of-unblocked (g ∷ gs) h = (ground arith, verdict_of-unblocked gs (ground arith))

run_guards-Unblocked :
    {I : Type 0} (human : Bool) (i : I) (gs : List (Guard I))
    → All (λ g. is_block g.verdict ≡ false) (run_guards human i gs)
    → All (Unblocked human i) gs
unfolding run_guards
run_guards-Unblocked human i [] h = tt
run_guards-Unblocked human i (g ∷ gs) h =
    (closed-Unblocked human i g (g.run i) refl h.0, run_guards-Unblocked human i gs h.1)

-- Where the chain does not block, each guard is skipped for human text or returned, without
-- throwing, an answer that does not block.
pub run_chain-Unblocked :
    {I : Type 0} (gs : List (Guard I)) (i : I) (claims : ℕ) (o : ChainOptions)
    → (run_chain gs i claims o).verdict ≢ block
    → All (Unblocked o.by_human i) gs
unfolding run_chain
run_chain-Unblocked gs i claims o h =
    run_guards-Unblocked o.by_human i gs (verdict_of-unblocked (run_guards o.by_human i gs) h)
