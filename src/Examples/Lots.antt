-- ===== src/Examples/Lots.antt =====
-- The lots of a stream, the branches of a thread and the inbox of follow-ups, at work.
use sidestage_copilot.Prelude.{
  ◌≤◌, ◌≡◌, refl, String, true, false, Option, none, some, List, [], ◌∷◌, length,
}
use sidestage_copilot.Catalog.Observed.{
  ObservedLot, Stall, Hashes, Observation, upsert_observed_lot,
}
use sidestage_copilot.Catalog.Observed.Laws.{upsert_observed_lot-twice}
use sidestage_copilot.Ingest.Thread.{
  ThreadMessage, branch_above, capped, climb, unseen, max_ancestors,
}
use sidestage_copilot.Ingest.Thread.Laws.{branch_above-IsShort, Lacks}
use sidestage_copilot.Dict.{Dict, get, put, update_all}
use sidestage_copilot.Domain.{live}
use sidestage_copilot.Catalog.{set_pinned, repinned}
use sidestage_copilot.Surfaces.FollowUps.{draft, FollowUpRow, mark_sent, dismiss}
use sidestage_copilot.Surfaces.FollowUps.Laws.{done, step, marked, put_away, Steps-Stays, Stays}

abbrev by_title : Hashes
by_title = record { ref_of = λ t. t; id_of = λ r. r }

abbrev lot : ObservedLot
lot = record { title = "vintage omega"; price_cents = 12000; sold_out = false }

abbrev empty_stall : Stall
empty_stall = record { listings = []; refs = []; observed_at = []; sales = [] }

abbrev stall : Stall
stall = record {
  listings =
      (
        "vintage omega",
        record {
          title = "vintage omega";
          price_cents = 12000;
          floor_price_cents = 12000;
          cost_cents = 0;
          qty = 1;
          sold_this_show = 0;
          views = 0;
          state = live;
          pinned = true;
          version = 2;
          authenticated = false;
          cert_id = none;
          updated_at = 5;
        },
      )
      ∷ [];
  refs = ("vintage omega", "vintage omega") ∷ [];
  observed_at = ("vintage omega", 5) ∷ [];
  sales = [];
}

abbrev fresh : Observation
fresh = record { changed = true; created = true }

observed : upsert_observed_lot by_title lot 5 empty_stall ≡ some (fresh, stall)
unfolding upsert_observed_lot get put update_all set_pinned repinned
observed = refl

-- The same lot a little later.
upsert_observed_lot-twice_example :
    (t : Stall) × (upsert_observed_lot by_title lot 9 stall
      ≡ some (record { changed = false; created = false }, t))
    × (t.listings ≡ stall.listings)
    × (t.sales ≡ stall.sales)
upsert_observed_lot-twice_example =
    upsert_observed_lot-twice by_title lot 5 9 empty_stall stall fresh observed

abbrev post : String → Option String → ThreadMessage
post id parent = record {
  id = id;
  author = "u/watches";
  text = "and the strap?";
  at = "12:00";
  parent_id = parent;
}

-- A thread whose parents go round in a ring.
abbrev ring : List ThreadMessage
ring = post "a" (some "c") ∷ post "b" (some "a") ∷ post "c" (some "b") ∷ []

above_c : branch_above ring "c" ≡ post "a" (some "c") ∷ post "b" (some "a") ∷ []
unfolding branch_above capped climb unseen
above_c = refl

branch_above-IsShort_example :
    (length (branch_above ring "c") ≤ max_ancestors) × Lacks "c" (branch_above ring "c")
branch_above-IsShort_example = branch_above-IsShort ring "c"

abbrev owed : FollowUpRow
owed = record {
  show_id = "show_1";
  account_id = "seller";
  buyer = "ann";
  question = "is it real?";
  message_id = none;
  text = "It is certified.";
  status = draft;
  created_at = 1;
  sent_at = none;
  dismissed_at = none;
}

abbrev inbox : Dict FollowUpRow
inbox = ("f1", owed) ∷ []

abbrev after_send : Dict FollowUpRow
after_send = mark_sent "seller" "f1" 7 inbox

there : get "f1" inbox ≡ some owed
unfolding get
there = refl

Steps-Stays_example : Stays "f1" owed (dismiss "stranger" "f1" 8 after_send)
Steps-Stays_example =
    Steps-Stays "f1" owed inbox (dismiss "stranger" "f1" 8 after_send)
      (step (marked "seller" "f1" 7) (step (put_away "stranger" "f1" 8) done)) there
