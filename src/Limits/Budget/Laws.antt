-- ===== src/Limits/Budget/Laws.antt =====
-- When a show is capped, and that it stays so.
use sidestage_copilot.Prelude.{
  ℕ, ltb, ◌-◌, String, str_eq, str_iff, ◌≡◌, refl, true, false, ◌||◌, ◌&&◌, Option, none, some,
  List, [], ◌∷◌, ◌++◌, if◌then◌else◌, leb, arith,
}
use sidestage_copilot.Dict.{Dict, get, put, IsUnique}
use sidestage_copilot.Dict.Laws.{get-put}
use sidestage_copilot.Limits.Budget.{
  last_known, remember, since, Reading, wallet, unread, Budget, holds, reached, check_show,
  check_shows, poll, drop_all, release_show, is_capped, state_of,
}

holds-append : (k : String) (xs ys : List String) → holds k (xs ++ ys) ≡ (holds k xs || holds k ys)
holds-append k [] ys = refl
holds-append k (x ∷ xs) ys = ground (arith, holds-append k xs ys)

holds-drop_all :
    (k j : String) (xs : List String)
    → holds j (drop_all k xs) ≡ (if str_eq k j then false else holds j xs)
holds-drop_all k j [] = ground arith
holds-drop_all k j (x ∷ xs) =
    ground (arith, str_iff x k, str_iff k j, str_iff x j, holds-drop_all k j xs)

get-remember-none :
    (k : String) (balance : ℕ) (d last : Dict ℕ)
    → get k d ≡ none
    → get k (remember d balance last) ≡ get k last
unfolding remember get
get-remember-none k balance [] last h = refl
get-remember-none k balance ((j, o) ∷ d) last h = ground (
  arith,
  str_iff j k,
  get-put j k (o - balance) last,
  get-remember-none k balance d (put j (o - balance) last),
)

get-remember :
    (k : String) (balance opening : ℕ) (d last : Dict ℕ)
    → IsUnique d
    → get k d ≡ some opening
    → get k (remember d balance last) ≡ some (opening - balance)
unfolding remember get
get-remember k balance opening [] last u h = absurd (ground arith)
get-remember k balance opening ((j, o) ∷ d) last u h = ground (
  arith,
  str_iff j k,
  get-put j k (o - balance) last,
  get-remember k balance opening d (put j (o - balance) last) u.1,
  get-remember-none k balance d (put j (o - balance) last),
)

check_shows-holds :
    (cap : ℕ) (k : String) (ss : List String) (b : Budget)
    → holds k (check_shows cap ss b).capped
      ≡ (holds k b.capped || (holds k ss && reached cap (last_known k b.spend)))
unfolding check_shows
check_shows-holds cap k [] b = ground arith
check_shows-holds cap k (s ∷ ss) b = ground (
  arith,
  str_iff s k,
  holds-append k b.capped (s ∷ []),
  check_shows-holds cap k ss (check_show cap s b),
)

-- A poll that reads a balance caps a show of the live ones exactly where it was capped or what its
-- window has spent, the opening balance less the balance read, has reached the cap.
pub poll-is_capped :
    (cap balance opening : ℕ) (k : String) (ss : List String) (b : Budget)
    → IsUnique b.spend.opened
    → get k b.spend.opened ≡ some opening
    → holds k ss ≡ true
    → is_capped k (poll (some cap) ss (wallet (some balance)) b)
      ≡ (is_capped k b || leb cap (opening - balance))
unfolding poll since
poll-is_capped cap balance opening k [] b u o h = absurd (ground arith)
poll-is_capped cap balance opening k (s ∷ ss) b u o h = ground (
  arith,
  get-remember k balance opening b.spend.opened b.spend.last_spend u o,
  check_shows-holds cap k (s ∷ ss)
      (record b { error = none; balance = some balance; spend = since (some balance) b.spend }),
)

-- A capped show stays capped through every poll, whatever it reads and whatever the cap is by then.
pub poll-latched :
    (cap : Option ℕ) (k : String) (ss : List String) (reading : Reading) (b : Budget)
    → is_capped k b ≡ true
    → is_capped k (poll cap ss reading b) ≡ true
unfolding poll since
poll-latched cap k [] reading b h = h
poll-latched cap k (s ∷ ss) (unread e) b h = h
poll-latched none k (s ∷ ss) (wallet o) b h = h
poll-latched (some cap) k (s ∷ ss) (wallet o) b h = ground (
  arith,
  check_shows-holds cap k (s ∷ ss)
      (record b { error = none; balance = o; spend = since o b.spend }),
)

-- Releasing a show lifts its cap and no other's.
pub is_capped-release_show :
    (k j : String) (b : Budget)
    → is_capped j (release_show k b) ≡ (if str_eq k j then false else is_capped j b)
unfolding release_show
is_capped-release_show k j b = holds-drop_all k j b.capped

check_shows-rest :
    (cap : ℕ) (ss : List String) (b : Budget)
    → ((check_shows cap ss b).spend ≡ b.spend)
      × ((check_shows cap ss b).balance ≡ b.balance)
      × ((check_shows cap ss b).error ≡ b.error)
unfolding check_shows
check_shows-rest cap [] b = (refl, refl, refl)
check_shows-rest cap (s ∷ ss) b = ground (arith, check_shows-rest cap ss (check_show cap s b))

-- What the cost page shows after a poll that read a balance, for a live show whose window is open:
-- the spend is the opening balance less the one read, the show is capped where it was or where that
-- reaches the cap, and the warning is that of the balance read; an error of an earlier poll is gone.
pub state_of-poll :
    (cap balance opening warn : ℕ) (k : String) (ss : List String) (b : Budget)
    → IsUnique b.spend.opened
    → get k b.spend.opened ≡ some opening
    → holds k ss ≡ true
    → state_of
        (record { per_show_cap = some cap; warn_balance = warn })
        k
        (poll (some cap) ss (wallet (some balance)) b)
      ≡ record {
        spent = some (opening - balance);
        cap = some cap;
        capped = is_capped k b || leb cap (opening - balance);
        balance = some balance;
        low_balance = ltb balance warn;
        error = none;
      }
unfolding state_of poll since
state_of-poll cap balance opening warn k [] b u o h = absurd (ground arith)
state_of-poll cap balance opening warn k (s ∷ ss) b u o h = ground (
  arith,
  poll-is_capped cap balance opening k (s ∷ ss) b u o h,
  get-remember k balance opening b.spend.opened b.spend.last_spend u o,
  check_shows-rest cap (s ∷ ss)
      (record b { error = none; balance = some balance; spend = since (some balance) b.spend }),
)
