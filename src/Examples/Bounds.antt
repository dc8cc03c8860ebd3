-- ===== src/Examples/Bounds.antt =====
-- The limits under load: a limiter, a gate, browsers, a cache and a budget.
use sidestage_copilot.Prelude.{
  ℕ, List, Bool, false, true, true, false, some, [], ◌∷◌, ◌≡◌, refl, arith,
}
use sidestage_copilot.Dict.{get, put, IsUnique}
use sidestage_copilot.Domain.{allow}
use sidestage_copilot.Limits.Rate.{Limit, RateLimiter, new_limiter, hit}
use sidestage_copilot.Limits.Gate.{Gate, new_gate, started, enter}
use sidestage_copilot.Limits.Gate.Laws.{
  Run, still, then_step, WithinSlots, FairRun-WithinSlots, overtaken,
}
use sidestage_copilot.Limits.Browser.{BrowserBudget}
use sidestage_copilot.Limits.Browser.Laws.{IsBalanced}
use sidestage_copilot.Limits.Budget.{Budget, new_budget, wallet, poll, is_capped}
use sidestage_copilot.Limits.Budget.Laws.{poll-is_capped}
use sidestage_copilot.Latency.Cache.{CachedReply, lookup, store}
use sidestage_copilot.Latency.Cache.Laws.{lookup-store}

-- Two hits in ten seconds.
abbrev login : Limit
login = record { window_ms = 10000; max_hits = 2 }

abbrev once : RateLimiter
once = (hit 5 "ip" login new_limiter).0

abbrev thrice : RateLimiter
thrice = (hit 7 "ip" login (hit 6 "ip" login once).0).0

thrice-IsUnique : IsUnique thrice.windows
unfolding get put hit
thrice-IsUnique = (refl, tt)

refused : (hit 8 "ip" login thrice).1.ok ≡ false
unfolding get put hit
refused = refl

abbrev one_in : Gate
one_in = started new_gate

fresh_gate : WithinSlots 2 4 new_gate
fresh_gate = record {
  reserved_slots = ground arith;
  peak_slots = ground arith;
  queue_bound = ground arith;
}

FairRun-WithinSlots_example : WithinSlots 2 4 one_in
FairRun-WithinSlots_example =
    FairRun-WithinSlots 2 4 (then_step (still new_gate) (enter new_gate (ground arith))) (tt, refl)
      fresh_gate

-- One runs and one waits, at one slot.
abbrev full : Gate
full = record { active = 1; waiting = 1; woken = 0; peak = 1 }

overtaken_example : (h : Gate) × Run 1 4 full h × (h.active ≡ 2)
overtaken_example = overtaken 1 4 full refl (ground arith) (ground arith)

abbrev watching : BrowserBudget
watching = record {
  held = ("room", 1) ∷ [];
  open_count = 1;
  leases = record { purpose = "room"; released = false } ∷ [];
}

watching-IsBalanced : IsBalanced 2 watching
unfolding get
watching-IsBalanced = record {
  within = ground arith;
  counted = refl;
  counted_for = λ p. ground arith;
}

abbrev running : Budget
running = record new_budget { spend = record { opened = ("show", 100000) ∷ []; last_spend = [] } }

running-IsUnique : IsUnique running.spend.opened
unfolding get
running-IsUnique = (refl, tt)

poll-is_capped_example :
    is_capped "show" (poll (some 20000) ("show" ∷ []) (wallet (some 79000)) running) ≡ true
unfolding get
poll-is_capped_example =
    poll-is_capped 20000 79000 100000 "show" ("show" ∷ []) running running-IsUnique refl refl

abbrev reply : CachedReply ℕ
reply = record { answer = 5; verdict = allow }

lookup-store_example : (lookup 100 90 "q" (store 1 10 "q" reply [])).1 ≡ some reply
lookup-store_example = lookup-store 0 100 10 90 "q" reply [] refl (ground arith) (ground arith)

abbrev replies : List (ℕ × Bool)
replies = (900, false) ∷ (2, true) ∷ (1700, false) ∷ []
