-- ===== src/Examples/Show.antt =====
-- A show with two lots, its marketplace and the actions planned on it.
use sidestage_copilot.Prelude.{String, true, false, none, some, [], ◌∷◌}
use sidestage_copilot.Prelude.Int.{pos}
use sidestage_copilot.Domain.{
  ActionKind, markdown_price, swap_pinned, proposed, live, queued, ebaylive,
}
use sidestage_copilot.Js.{Runtime, nan, whole, num}
use sidestage_copilot.Catalog.{Listing}
use sidestage_copilot.Actions.Port.{RemoteListing, Params}
use sidestage_copilot.Actions.Mock.{Mock}
use sidestage_copilot.Actions.Preflight.{snapshot}
use sidestage_copilot.Actions.Store.{Action}
use sidestage_copilot.Actions.Executor.State.{World, Env}

abbrev pub node : Runtime
node = record {
  number = λ v. elim v [ num n ↦ n | _ ↦ nan ];
  string = λ v. "";
  digits = λ n. "7";
  sorts_before = λ a b. false;
}

abbrev pub panda : Listing
panda = record {
  title = "Panda";
  price_cents = 20000;
  floor_price_cents = 15000;
  cost_cents = 12000;
  qty = 3;
  sold_this_show = 0;
  views = 40;
  state = live;
  pinned = true;
  version = 4;
  authenticated = true;
  cert_id = none;
  updated_at = 0;
}

abbrev pub chicago : Listing
chicago = record panda {
  title = "Chicago";
  price_cents = 30000;
  state = queued;
  pinned = false;
  version = 2;
}

abbrev pub remote_of : Listing → RemoteListing
remote_of l = record {
  price_cents = some (whole (pos l.price_cents));
  qty = some (whole (pos l.qty));
  state = some l.state;
  pinned = some l.pinned;
  version = l.version;
}

abbrev pub market : Mock
market = record {
  remote = ("lot1", remote_of panda) ∷ ("lot2", remote_of chicago) ∷ [];
  reservations = [];
  fail_next_apply = false;
  draws = [];
}

abbrev pub planned : String → ActionKind → String → Params → Listing → Action
planned id kind lot params l = record {
  id = id;
  kind = kind;
  listing_id = lot;
  params = params;
  before = some (snapshot l);
  status = proposed;
  preflight_ok = true;
  checks = [];
  idempotency_key = id;
  undoable_until = none;
  error = none;
}

abbrev pub cheaper : Params
cheaper = ("newPriceCents", num (whole (pos 18000))) ∷ []

abbrev pub markdown : Action
markdown = planned "act_1" markdown_price "lot1" cheaper panda

abbrev pub swap : Action
swap = planned "act_2" swap_pinned "lot2" [] chicago

abbrev pub evening : World Mock
evening = record {
  listings = ("lot1", panda) ∷ ("lot2", chicago) ∷ [];
  actions = ("act_1", markdown) ∷ ("act_2", swap) ∷ [];
  commits = [];
  audit = [];
  events = [];
  remote = market;
}

abbrev pub env : Env
env = record {
  runtime = node;
  now = 1000;
  tx_fails = false;
  marks = true;
  settles = true;
  audit_up = true;
  undo_window_s = 30;
  discount_cap = 200000;
  action_budget = 20;
  rate_per_minute = 6;
  source = some ebaylive;
  read_only = false;
  posting_for = none;
}
