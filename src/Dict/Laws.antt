-- ===== src/Dict/Laws.antt =====
-- What a lookup finds after each operation on a map.
use sidestage_copilot.Prelude.{
  ◌+◌, String, str_eq, str_iff, ◌≡◌, refl, Bool, true, false, none, some, [], ◌∷◌, arith,
  if◌then◌else◌, is_some,
}
use sidestage_copilot.Dict.{Dict, get, put, remove, update, update_all, keep_values, size, IsUnique}
use mathlib.Core.Option

module _ {ℓ} {V : Type ℓ} where
  pub get-put :
      (k j : String) (v : V) (d : Dict V)
      → get j (put k v d) ≡ (if str_eq k j then some v else get j d)
  unfolding get put
  get-put k j v [] = refl
  get-put k j v ((i, w) ∷ d) =
      ground (arith, str_iff k j, str_iff i k, str_iff i j, get-put k j v d)

  pub get-remove :
      (k j : String) (d : Dict V) → get j (remove k d) ≡ (if str_eq k j then none else get j d)
  unfolding get remove
  get-remove k j [] = ground arith
  get-remove k j ((i, w) ∷ d) =
      ground (arith, str_iff k j, str_iff i k, str_iff i j, get-remove k j d)

  pub get-update :
      (k j : String) (f : V → V) (d : Dict V)
      → get j (update k f d) ≡ (if str_eq k j then Option.map f (get j d) else get j d)
  unfolding get update
  get-update k j f [] = ground arith
  get-update k j f ((i, w) ∷ d) =
      ground (arith, str_iff k j, str_iff i k, str_iff i j, get-update k j f d)

  pub get-update_all :
      (j : String) (f : String → V → V) (d : Dict V)
      → get j (update_all f d) ≡ Option.map (f j) (get j d)
  unfolding get update_all
  get-update_all j f [] = refl
  get-update_all j f ((i, w) ∷ d) = ground (arith, str_iff i j, get-update_all j f d)

  pub size-update : (k : String) (f : V → V) (d : Dict V) → size (update k f d) ≡ size d
  unfolding update
  size-update k f [] = refl
  size-update k f ((i, w) ∷ d) = omega (arith, size-update k f d)

  pub size-put :
      (k : String) (v : V) (d : Dict V)
      → size (put k v d) ≡ (if is_some (get k d) then size d else size d + 1)
  unfolding get put
  size-put k v [] = omega arith
  size-put k v ((i, w) ∷ d) = ground (arith, size-put k v d)

  pub get-keep_values-true :
      (p : V → Bool) (k : String) (v : V) (d : Dict V)
      → get k d ≡ some v
      → p v ≡ true
      → get k (keep_values p d) ≡ some v
  unfolding get keep_values
  get-keep_values-true p k v [] h q = h
  get-keep_values-true p k v ((i, w) ∷ d) h q =
      ground (arith, str_iff i k, get-keep_values-true p k v d)

  pub get-keep_values-none :
      (p : V → Bool) (k : String) (d : Dict V) → get k d ≡ none → get k (keep_values p d) ≡ none
  unfolding get keep_values
  get-keep_values-none p k [] h = refl
  get-keep_values-none p k ((i, w) ∷ d) h = ground (arith, str_iff i k, get-keep_values-none p k d)

  -- What a sweep removes is not found any more, where a key stands once.
  pub get-keep_values-false :
      (p : V → Bool) (k : String) (v : V) (d : Dict V)
      → IsUnique d
      → get k d ≡ some v
      → p v ≡ false
      → get k (keep_values p d) ≡ none
  unfolding get keep_values
  get-keep_values-false p k v [] u h q = refl
  get-keep_values-false p k v ((i, w) ∷ d) u h q =
      ground (arith, str_iff i k, get-keep_values-false p k v d u.1, get-keep_values-none p k d)

  pub put-IsUnique : (k : String) (v : V) (d : Dict V) → IsUnique d → IsUnique (put k v d)
  unfolding get put
  put-IsUnique k v [] u = (refl, tt)
  put-IsUnique k v ((j, w) ∷ d) u =
      ground (arith, str_iff j k, str_iff k j, get-put k j v d, put-IsUnique k v d u.1)

  pub keep_values-IsUnique : (p : V → Bool) (d : Dict V) → IsUnique d → IsUnique (keep_values p d)
  unfolding get keep_values
  keep_values-IsUnique p [] u = tt
  keep_values-IsUnique p ((j, w) ∷ d) u =
      ground (arith, get-keep_values-none p j d u.0, keep_values-IsUnique p d u.1)

pub ruleset dict_laws = (get-put, get-remove, get-update, get-update_all)
