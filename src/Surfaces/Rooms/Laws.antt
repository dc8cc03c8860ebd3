-- ===== src/Surfaces/Rooms/Laws.antt =====
-- The switch of a room is what the operator last said of it.
use sidestage_copilot.Prelude.{
  ℕ, String, str_eq, str_iff, ◌≡◌, refl, Bool, false, none, some, List, [], ◌∷◌, if◌then◌else◌,
  arith,
}
use sidestage_copilot.Dict.{Dict, get}
use sidestage_copilot.Dict.Laws.{get-put, get-remove}
use sidestage_copilot.Surfaces.Rooms.{
  SurfaceRoom, RoomPatch, upserted, upsert_room, remove_room, enabled, posting_in,
}

-- What an operator does to the list of rooms.
pub data RoomStep : Type 0 where
  saves : ℕ → String → RoomPatch → RoomStep
  drops : String → RoomStep

unfoldable pub run_rooms : List RoomStep → Dict SurfaceRoom → Dict SurfaceRoom
run_rooms [] d = d
run_rooms (saves now room p ∷ ss) d = run_rooms ss (upsert_room now room p d)
run_rooms (drops room ∷ ss) d = run_rooms ss (remove_room room d).1

-- The switch of one room, from what was said of it: a save that names the switch sets it, a save
-- that does not leaves it, and a removal turns it off.
abbrev pub said : String → RoomStep → Bool → Bool
said room (saves now r p) was =
    if str_eq r room then elim p.posting [ none ↦ was | some b ↦ b ] else was
said room (drops r) was = if str_eq r room then false else was

abbrev pub last_said : String → List RoomStep → Bool → Bool
last_said room [] was = was
last_said room (s ∷ ss) was = last_said room ss (said room s was)

after-step :
    (room : String) (s : RoomStep) (d : Dict SurfaceRoom)
    → enabled (get room (run_rooms (s ∷ []) d)) ≡ said room s (enabled (get room d))
unfolding run_rooms upsert_room remove_room
after-step room (saves now r p) d =
    ground (arith, str_iff r room, get-put r room (upserted now p (get r d)) d)
after-step room (drops r) d = ground (arith, str_iff r room, get-remove r room d)

after-steps :
    (room : String) (ss : List RoomStep) (d : Dict SurfaceRoom)
    → enabled (get room (run_rooms ss d)) ≡ last_said room ss (enabled (get room d))
unfolding run_rooms
after-steps room [] d = refl
after-steps room (saves now r p ∷ ss) d =
    ground (arith, after-step room (saves now r p) d, after-steps room ss (upsert_room now r p d))
after-steps room (drops r ∷ ss) d =
    ground (arith, after-step room (drops r) d, after-steps room ss (remove_room r d).1)

-- Whether the copilot may speak in a room is what the operator last said of its switch, and no where
-- nothing was said or the room was removed since; saves of other rooms, or that leave the switch
-- out, do not matter.
pub posting_in_lem :
    (room : String) (ss : List RoomStep)
    → (posting_in room (run_rooms ss [])).enabled ≡ last_said room ss false
unfolding posting_in get
posting_in_lem room ss = after-steps room ss []
