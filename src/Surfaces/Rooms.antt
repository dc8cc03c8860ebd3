-- ===== src/Surfaces/Rooms.antt =====
-- src/surfaces/rooms.ts, `SurfaceRooms`: whether the copilot may speak in a room. The statements'
-- `WHERE account_id = … AND surface = …` is the choice of the table, whose key is then the room.
pub mod Laws
use sidestage_copilot.Prelude.{
  ℕ, String, Bool, true, false, Option, none, some, List, [], ◌∷◌, is_some,
}
use sidestage_copilot.Dict.{Dict, get, put, remove}
use sidestage_copilot.Actions.Preflight.{Posting}

pub record SurfaceRoom : Type 0 where
  pub posting : Bool
  pub disclosure : Option String
  pub added_at : ℕ

-- A field that is `none` is `undefined` or null.
pub record RoomPatch : Type 0 where
  pub posting : Option Bool
  pub disclosure : Option String

-- `COALESCE(a, b)`
abbrev coalesce {ℓ} : {A : Type ℓ} → Option A → A → A
coalesce none b = b
coalesce (some a) b = a

abbrev coalesce_null {ℓ} : {A : Type ℓ} → Option A → Option A → Option A
coalesce_null none b = b
coalesce_null (some a) b = some a

abbrev upserted : ℕ → RoomPatch → Option SurfaceRoom → SurfaceRoom
upserted now p none = record {
  posting = coalesce p.posting false;
  disclosure = p.disclosure;
  added_at = now;
}
upserted now p (some r) = record {
  posting = coalesce p.posting r.posting;
  disclosure = coalesce_null p.disclosure r.disclosure;
  added_at = r.added_at;
}

-- `INSERT … ON CONFLICT … DO UPDATE`
unfoldable pub upsert_room : ℕ → String → RoomPatch → Dict SurfaceRoom → Dict SurfaceRoom
upsert_room now room p d = put room (upserted now p (get room d)) d

-- The answer is whether there was such a room.
unfoldable pub remove_room : String → Dict SurfaceRoom → Bool × Dict SurfaceRoom
remove_room room d = (is_some (get room d), remove room d)

abbrev enabled : Option SurfaceRoom → Bool
enabled none = false
enabled (some r) = r.posting

-- What preflight asks before a `post_reply`.
unfoldable pub posting_in : String → Dict SurfaceRoom → Posting
posting_in room d = record { room = room; enabled = enabled (get room d) }
