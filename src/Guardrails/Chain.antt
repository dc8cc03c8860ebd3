-- ===== src/Guardrails/Chain.antt =====
-- src/guardrails/chain.ts: the guards' results become a verdict and a confidence. A guard is a
-- parameter of the chain, with the answer `none` where it throws; reasons are left out.
pub mod Laws
use sidestage_copilot.Prelude.{
  ℕ, ◌+◌, ◌-◌, ◌*◌, ◌/◌, min, max, String, Bool, true, false, ◌&&◌, Option, none, some, List, [],
  ◌∷◌, ◌++◌, map, if◌then◌else◌, ◌==◌, length, keep, ltb,
}
use sidestage_copilot.Domain.{
  Verdict, allow, revise, block, GuardVerdict, passed, asks_revision, blocks, not_applicable,
}

pub record GuardResult : Type 0 where
  pub guard : String
  pub verdict : GuardVerdict

-- A member of `GUARDS` over the input `I`; `model_only` is `MODEL_ONLY_GUARDS.has(name)`.
pub record Guard (I : Type 0) : Type 0 where
  pub name : String
  pub model_only : Bool
  pub run : I → Option GuardVerdict

-- Evidence quality is in hundredths; absent is 0.5.
pub record ChainOptions : Type 0 where
  pub evidence_quality : Option ℕ
  pub abstained : Bool
  pub by_human : Bool

pub record ChainResult : Type 0 where
  pub guards : List GuardResult
  pub verdict : Verdict
  pub failures : List String
  pub confidence : ℕ

abbrev pub is_block : GuardVerdict → Bool
is_block blocks = true
is_block _ = false

abbrev pub is_revise : GuardVerdict → Bool
is_revise asks_revision = true
is_revise _ = false

-- A guard that throws fails closed.
abbrev closed : Option GuardVerdict → GuardVerdict
closed none = blocks
closed (some v) = v

module _ {I : Type 0} where
  unfoldable run_guard : Bool → I → Guard I → GuardResult
  run_guard human i g = record {
    guard = g.name;
    verdict = if human && g.model_only then not_applicable else closed (g.run i);
  }

  unfoldable run_guards : Bool → I → List (Guard I) → List GuardResult
  run_guards human i [] = []
  run_guards human i (g ∷ gs) = run_guard human i g ∷ run_guards human i gs

unfoldable verdict_of : List GuardResult → Verdict
verdict_of gs =
    if ltb 0 (length (keep (λ g. is_block g.verdict) gs))
    then block
    else (if ltb 0 (length (keep (λ g. is_revise g.verdict) gs)) then revise else allow)

unfoldable failures_of : List GuardResult → List String
failures_of gs =
    map (λ g. g.guard) (keep (λ g. is_block g.verdict) gs ++ keep (λ g. is_revise g.verdict) gs)

-- In thousandths.
abbrev uncited_ceiling : ℕ
uncited_ceiling = 350

-- One penalty after the other, in thousandths. The difference stops at 0 where the source's turns
-- negative; both are below the 0.03 that the end of `confidence_of` raises them to.
unfoldable penalised : List GuardResult → ℕ → ℕ
penalised [] c = c
penalised (g ∷ gs) c =
    penalised gs
      (if is_block g.verdict then c - 600 else (if is_revise g.verdict then c - 220 else c))

abbrev quality_of : Option ℕ → ℕ
quality_of none = 50
quality_of (some q) = q

unfoldable cited : ℕ → ℕ → ℕ
cited claims c = if claims == 0 then min c uncited_ceiling else c

-- `Number(clamp(c, 0.03, 0.98).toFixed(2))`: from thousandths to hundredths.
unfoldable rounded : ℕ → ℕ
rounded c = (min 980 (max 30 c) + 5) / 10

-- In hundredths. The sum is in thousandths until it is rounded at the end.
unfoldable confidence_of : List GuardResult → ChainOptions → ℕ → ℕ
confidence_of gs o claims =
    if o.abstained
    then 10
    else rounded (penalised gs (cited claims (450 + 5 * min 100 (quality_of o.evidence_quality))))

-- `claims` is `i.draft.claims.length`.
unfoldable pub run_chain : {I : Type 0} → List (Guard I) → I → ℕ → ChainOptions → ChainResult
unfolding run_guards run_guard verdict_of failures_of confidence_of penalised cited rounded
run_chain registry i claims o =
    let gs = run_guards o.by_human i registry in
    record {
      guards = gs;
      verdict = verdict_of gs;
      failures = failures_of gs;
      confidence = confidence_of gs o claims;
    }
