-- ===== src/Pipeline/Fanout.antt =====
-- `pump` and `stop` of src/pipeline/pipeline.ts: how many drafts run at once, and in what order they
-- are begun. A draft that is running is a message of `running`.
pub mod Laws
use sidestage_copilot.Prelude.{
  ℕ, zero, suc, ◌+◌, ◌-◌, Bool, true, false, List, [], ◌∷◌, ◌++◌, if◌then◌else◌, ltb, length,
}

pub record Fanout {ℓ} (M : Type ℓ) : Type ℓ where
  pub queue : List M
  pub running : List M
  pub inflight : ℕ

abbrev pub idle {ℓ} : {M : Type ℓ} → Fanout M
idle = record { queue = []; running = []; inflight = 0 }

module _ {ℓ} {M : Type ℓ} where
  -- The messages that one call of `pump` begins, with `n` in flight before it.
  unfoldable pub begun : ℕ → ℕ → List M → List M
  begun limit n [] = []
  begun limit n (m ∷ q) = let rest = begun limit (suc n) q in if ltb n limit then m ∷ rest else []

  -- The messages that it leaves.
  unfoldable pub waiting : ℕ → ℕ → List M → List M
  waiting limit n [] = []
  waiting limit n (m ∷ q) =
      let rest = waiting limit (suc n) q in if ltb n limit then rest else m ∷ q

  unfoldable pub pump : ℕ → Fanout M → Fanout M
  pump limit f = record {
    queue = waiting limit f.inflight f.queue;
    running = f.running ++ begun limit f.inflight f.queue;
    inflight = f.inflight + length (begun limit f.inflight f.queue);
  }

  abbrev drop_nth : ℕ → List M → List M
  drop_nth n [] = []
  drop_nth zero (m ∷ ms) = ms
  drop_nth (suc n) (m ∷ ms) = m ∷ drop_nth n ms

  -- `this.queue.push(msg); this.pump()`
  unfoldable pub arrive : ℕ → M → Fanout M → Fanout M
  unfolding pump
  arrive limit m f = pump limit (record f { queue = f.queue ++ (m ∷ []) })

  -- The `finally` of the draft that is the `i`-th in flight.
  unfoldable pub settle : ℕ → ℕ → Fanout M → Fanout M
  unfolding pump
  settle limit i f =
      pump limit (record f { running = drop_nth i f.running; inflight = f.inflight - 1 })

  -- `stop`; what is in flight settles on its own.
  unfoldable pub stop : Fanout M → Fanout M
  stop f = record f { queue = [] }
