-- ===== src/Limits/Gate.antt =====
-- src/api/rateLimit.ts, `Gate`: how many callers run at once. `run` of the source has two points at
-- which it gives up control, so that the model is a step relation: a caller enters, waits or is
-- refused; a caller that ran finishes and resolves the first waiter's promise; and a waiter whose
-- promise is resolved resumes, in a step of its own.
pub mod Laws
use sidestage_copilot.Prelude.{ℕ, zero, suc, ◌+◌, ◌-◌, ◌≤◌, ◌<◌, max, ◌≡◌}

-- `woken` counts the waiters whose promise is resolved and that have not resumed.
pub record Gate : Type 0 where
  pub active : ℕ
  pub waiting : ℕ
  pub woken : ℕ
  pub peak : ℕ

abbrev pub new_gate : Gate
new_gate = record { active = 0; waiting = 0; woken = 0; peak = 0 }

-- `this.active += 1; if (this.active > this.peak) this.peak = this.active;`
unfoldable pub started : Gate → Gate
started g = record g { active = g.active + 1; peak = max g.peak (g.active + 1) }

-- `this.waiting.push(resolve)`
unfoldable pub queued : Gate → Gate
queued g = record g { waiting = g.waiting + 1 }

-- `this.active -= 1; this.waiting.shift()?.()`
unfoldable pub finished : Gate → Gate
finished g = record g {
  active = g.active - 1;
  waiting = g.waiting - 1;
  woken = g.woken + (g.waiting - (g.waiting - 1));
}

unfoldable pub resumed : Gate → Gate
resumed g = started (record g { woken = g.woken - 1 })

module _ (slots max_waiting : ℕ) where
  pub data Step : Gate → Gate → Type 0 where
    enter : (g : Gate) → g.active < slots → Step g (started g)
    wait : (g : Gate) → slots ≤ g.active → g.waiting < max_waiting → Step g (queued g)
    refuse : (g : Gate) → slots ≤ g.active → max_waiting ≤ g.waiting → Step g g
    finish : (g : Gate) → 0 < g.active → Step g (finished g)
    resume : (g : Gate) → 0 < g.woken → Step g (resumed g)
