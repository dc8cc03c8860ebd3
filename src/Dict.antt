-- ===== src/Dict.antt =====
-- A JavaScript `Map` with text keys, and a database table under its primary key: pairs in the
-- order of insertion, one to a key. `put` on a key that is there keeps its place.
pub mod Laws
use sidestage_copilot.Prelude.{
  ◌≡◌, ℕ, String, str_eq, Bool, Option, none, some, List, [], ◌∷◌, if◌then◌else◌, length, is_some,
}

abbrev pub Dict {ℓ} : Type ℓ → Type ℓ
Dict V = List (String × V)

module _ {ℓ} {V : Type ℓ} where
  unfoldable pub get : String → Dict V → Option V
  get k [] = none
  get k ((j, v) ∷ d) = if str_eq j k then some v else get k d

  unfoldable pub put : String → V → Dict V → Dict V
  put k v [] = (k, v) ∷ []
  put k v ((j, w) ∷ d) = if str_eq j k then (j, v) ∷ d else (j, w) ∷ put k v d

  unfoldable pub remove : String → Dict V → Dict V
  remove k [] = []
  remove k ((j, w) ∷ d) = let rest = remove k d in if str_eq j k then rest else (j, w) ∷ rest

  -- `UPDATE … SET … WHERE id = k`
  unfoldable pub update : String → (V → V) → Dict V → Dict V
  update k f [] = []
  update k f ((j, w) ∷ d) = let rest = update k f d in (j, if str_eq j k then f w else w) ∷ rest

  -- An update of every row by its key and its value.
  unfoldable pub update_all : (String → V → V) → Dict V → Dict V
  update_all f [] = []
  update_all f ((j, w) ∷ d) = (j, f j w) ∷ update_all f d

  unfoldable pub keep_values : (V → Bool) → Dict V → Dict V
  keep_values p [] = []
  keep_values p ((j, w) ∷ d) = let rest = keep_values p d in if p w then (j, w) ∷ rest else rest

  -- `map.has(k)`
  abbrev pub member : String → Dict V → Bool
  member k d = is_some (get k d)

  abbrev pub size : Dict V → ℕ
  size d = length d

  -- One pair to a key.
  abbrev pub IsUnique : Dict V → Type ℓ
  IsUnique [] = Unit
  IsUnique ((j, w) ∷ d) = (get j d ≡ none) × IsUnique d
