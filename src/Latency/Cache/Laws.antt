-- ===== src/Latency/Cache/Laws.antt =====
-- What the reply cache answers, and how large it grows.
use sidestage_copilot.Prelude.{
  ℕ, suc, ◌+◌, ◌≤◌, String, str_iff, str_refl, ◌≡◌, refl, none, some, [], ◌∷◌, Option-cases, inl,
  inr, arith,
}
use sidestage_copilot.Domain.{allow}
use sidestage_copilot.Dict.{Dict, get, put, size}
use sidestage_copilot.Dict.Laws.{get-put, size-put}
use sidestage_copilot.Latency.Cache.{CachedReply, Entry, lookup, evict, stored, store}

module _ {ℓ} {R : Type ℓ} where
  evict-size : (max_size : ℕ) (d : Dict (Entry R)) → size (evict max_size d) ≤ max_size
  unfolding evict
  evict-size m [] = omega arith
  evict-size m (x ∷ d) = ground (arith, evict-size m d)

  evict-small : (max_size : ℕ) (d : Dict (Entry R)) → size d ≤ max_size → evict max_size d ≡ d
  unfolding evict
  evict-small m [] h = refl
  evict-small m (x ∷ d) h = ground arith

  put-fresh :
      (k j : String) (e w : Entry R) (d : Dict (Entry R))
      → get k ((j, w) ∷ d) ≡ none
      → put k e ((j, w) ∷ d) ≡ (j, w) ∷ put k e d
  unfolding put get
  put-fresh k j e w d h = ground (arith, str_iff j k)

  -- A new entry stands at the end, so that evicting from the front leaves it.
  get-evict-put :
      (m : ℕ) (k : String) (e : Entry R) (d : Dict (Entry R))
      → get k d ≡ none
      → get k (evict (suc m) (put k e d)) ≡ some e
  unfolding evict put get
  get-evict-put m k e [] h = ground (arith, str_refl k)
  get-evict-put m k e ((j, w) ∷ d) h = rw (put-fresh k j e w d h) (
      ground
        (arith, str_iff j k, get-evict-put m k e d, size-put k e d, get-put k k e d, str_refl k))

  -- A stored reply that every guard allowed is found as long as its time has not run out.
  pub lookup-store :
      (max_size ttl now later : ℕ) (k : String) (v : CachedReply R) (d : Dict (Entry R))
      → v.verdict ≡ allow
      → size d ≤ suc max_size
      → later ≤ now + ttl
      → (lookup ttl later k (store (suc max_size) now k v d)).1 ≡ some v
  unfolding lookup store stored
  lookup-store m ttl now later k v d h b l = elim (Option-cases (get k d)) [
    | inl e ↦ ground (arith, get-evict-put m k (record { value = v; at = now }) d)
    | inr (w, e) ↦ ground (
      arith,
      str_refl k,
      size-put k (record { value = v; at = now }) d,
      evict-small (suc m) (put k (record { value = v; at = now }) d),
      get-put k k (record { value = v; at = now }) d,
    )
  ]

  -- The size stays within its bound.
  pub store-size :
      (max_size now : ℕ) (k : String) (v : CachedReply R) (d : Dict (Entry R))
      → size d ≤ max_size
      → size (store max_size now k v d) ≤ max_size
  unfolding store stored
  store-size m now k v d h = ground (arith, evict-size m (put k (record { value = v; at = now }) d))
