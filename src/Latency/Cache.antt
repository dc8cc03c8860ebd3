-- ===== src/Latency/Cache.antt =====
-- src/latency/cache.ts, `ReplyCache`: replies by key, the least recently used evicted first, for a
-- limited time. Keys are made by `cacheKey`, over hashes that the model leaves to the caller. Of a
-- reply only its verdict is read; the rest is the parameter `R`.
pub mod Laws
use sidestage_copilot.Prelude.{
  ℕ, ◌+◌, ◌-◌, String, Option, none, some, List, [], ◌∷◌, if◌then◌else◌, ltb, length,
}
use sidestage_copilot.Domain.{Verdict, allow, revise, block}
use sidestage_copilot.Dict.{Dict, get, put, remove, size}

module _ {ℓ} (R : Type ℓ) where
  pub record CachedReply : Type ℓ where
    pub answer : R
    pub verdict : Verdict

  pub record Entry : Type ℓ where
    pub value : CachedReply
    pub at : ℕ

module _ {ℓ} {R : Type ℓ} where
  abbrev found :
      ℕ → ℕ → String → Option (Entry R) → Dict (Entry R) → Dict (Entry R) × Option (CachedReply R)
  found ttl now k none d = (d, none)
  found ttl now k (some e) d =
      if ltb (e.at + ttl) now then (remove k d, none) else (put k e (remove k d), some e.value)

  -- `ReplyCache.get`; a hit moves its entry to the end.
  unfoldable pub lookup : ℕ → ℕ → String → Dict (Entry R) → Dict (Entry R) × Option (CachedReply R)
  lookup ttl now k d = found ttl now k (get k d) d

  -- `while (this.map.size > this.max)`: the first key is the oldest.
  unfoldable evict : ℕ → Dict (Entry R) → Dict (Entry R)
  evict max_size [] = []
  evict max_size (x ∷ d) =
      let rest = evict max_size d in if ltb max_size (length (x ∷ d)) then rest else x ∷ d

  unfoldable stored : ℕ → ℕ → String → CachedReply R → Verdict → Dict (Entry R) → Dict (Entry R)
  stored max_size now k v allow d = evict max_size (put k (record { value = v; at = now }) d)
  stored max_size now k v revise d = d
  stored max_size now k v block d = d

  -- `ReplyCache.set`: a key that is there keeps its place.
  unfoldable pub store : ℕ → ℕ → String → CachedReply R → Dict (Entry R) → Dict (Entry R)
  unfolding stored evict
  store max_size now k v d = stored max_size now k v v.verdict d

  abbrev clear : Dict (Entry R) → Dict (Entry R)
  clear d = []
