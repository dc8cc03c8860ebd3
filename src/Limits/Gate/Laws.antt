-- ===== src/Limits/Gate/Laws.antt =====
-- How many run at once: with no overtaking at most the slots, and with it one more.
use sidestage_copilot.Prelude.{ℕ, ◌+◌, ◌≤◌, ◌<◌, ◌≡◌, arith}
use sidestage_copilot.Limits.Gate.{
  Gate, started, queued, finished, resumed, Step, enter, wait, refuse, finish, resume,
}

module _ (slots max_waiting : ℕ) where
  pub data Run : Gate → Gate → Type 0 where
    still : (g : Gate) → Run g g
    then_step : {g h i : Gate} → Run g h → Step slots max_waiting h i → Run g i

  -- No caller enters while a woken waiter has not resumed.
  abbrev pub Fair : {g h : Gate} → Step slots max_waiting g h → Type 0
  Fair (enter g lt) = g.woken ≡ 0
  Fair (wait g le lt) = Unit
  Fair (refuse g le le') = Unit
  Fair (finish g lt) = Unit
  Fair (resume g lt) = Unit

  abbrev pub FairRun : {g h : Gate} → Run g h → Type 0
  FairRun (still g) = Unit
  FairRun (then_step r s) = FairRun r × Fair s

  pub record WithinSlots (g : Gate) : Type 0 where
    pub reserved_slots : g.active + g.woken ≤ slots
    pub peak_slots : g.peak ≤ slots
    pub queue_bound : g.waiting ≤ max_waiting

  Step-WithinSlots :
      {g h : Gate} (s : Step slots max_waiting g h) → Fair s → WithinSlots g → WithinSlots h
  unfolding started queued finished resumed
  Step-WithinSlots (enter g lt) f w = record {
    reserved_slots = omega (arith, w.reserved_slots);
    peak_slots = omega (arith, w.peak_slots);
    queue_bound = w.queue_bound;
  }
  Step-WithinSlots (wait g le lt) f w = record {
    reserved_slots = w.reserved_slots;
    peak_slots = w.peak_slots;
    queue_bound = omega arith;
  }
  Step-WithinSlots (refuse g le le') f w = w
  Step-WithinSlots (finish g lt) f w = record {
    reserved_slots = omega (arith, w.reserved_slots);
    peak_slots = w.peak_slots;
    queue_bound = omega (arith, w.queue_bound);
  }
  Step-WithinSlots (resume g lt) f w = record {
    reserved_slots = omega (arith, w.reserved_slots);
    peak_slots = omega (arith, w.reserved_slots, w.peak_slots);
    queue_bound = w.queue_bound;
  }

  -- Where no caller enters while a woken waiter has not resumed, the callers that run and the woken
  -- waiters are together never more than the slots, nor was the peak, and the queue keeps its bound.
  pub FairRun-WithinSlots : {g h : Gate} (r : Run g h) → FairRun r → WithinSlots g → WithinSlots h
  FairRun-WithinSlots (still g) f w = w
  FairRun-WithinSlots (then_step r s) f w = Step-WithinSlots s f.1 (FairRun-WithinSlots r f.0 w)

  -- From a full gate with a waiter, a caller that enters between the end of a run and the resumption
  -- of the waiter leaves one more running than there are slots.
  pub overtaken :
      (g : Gate)
      → g.active ≡ slots
      → 0 < slots
      → 0 < g.waiting
      → (h : Gate) × Run g h × (h.active ≡ slots + 1)
  unfolding started finished resumed
  overtaken g full some_slot waiter = (
    resumed (started (finished g)),
    then_step
        (then_step (then_step (still g) (finish g (omega arith)))
          (enter (finished g) (omega arith)))
        (resume (started (finished g)) (omega arith)),
    omega arith,
  )
