-- ===== src/Server/Cache/Reads.antt =====
-- What a read of internal/cache/lru_cache.go sees after the other operations.
use sndv_kv.Prelude.{
  ℕ, suc, ◌≡◌, refl, ◌<◌, ◌⊎◌, inl, inr, Text, text_eq, text_eq_iff, Bool-cases, Option-cases, leb,
  true, false, List, [], ◌∷◌, none, some, arith, length, if◌then◌else◌,
}
use sndv_kv.Server.Cache.{
  LruCache, lookup, drop_last, retrieve_from_cache, enforce_capacity, insert_into_cache,
  remove_from_cache,
}
use sndv_kv.Server.Cache.Validity.{IsValid, lookup-without, lookup-drop_last, retrieve-lookup}

pub lookup-removed :
    (c : LruCache) (k j : Text)
    → IsValid c
    → lookup j (remove_from_cache c k).entries ≡ (if text_eq k j then none else lookup j c.entries)
unfolding remove_from_cache
lookup-removed c k j h = elim (Option-cases (lookup k c.entries)) [
  | inl e ↦ rw (e, remove_from_cache) (ground (arith, text_eq_iff k j))
  | inr (v, e) ↦ rw (e, remove_from_cache) (lookup-without j k c.entries h.distinct)
]

pub lookup-retrieved :
    (c : LruCache) (k j : Text)
    → IsValid c
    → lookup j (retrieve_from_cache c k).1.entries ≡ lookup j c.entries
unfolding retrieve_from_cache lookup
lookup-retrieved c k j h = elim (Option-cases (lookup k c.entries)) [
  | inl e ↦ rw (e, retrieve_from_cache)
  | inr (v, e) ↦
      rw (e, retrieve_from_cache)
        (ground (arith, text_eq_iff k j, lookup-without j k c.entries h.distinct))
]

lookup-drop_last_front :
    (k v : Text) (l : List (Text × Text))
    → 0 < length l
    → lookup k (drop_last ((k, v) ∷ l)) ≡ some v
unfolding lookup drop_last
lookup-drop_last_front k v [] h = absurd (omega arith)
lookup-drop_last_front k v (e ∷ l) h = ground (arith, text_eq_iff k k)

lookup-enforced_front :
    (cap : ℕ) (k v : Text) (l : List (Text × Text))
    → 0 < cap
    → lookup k (enforce_capacity (record { capacity_count = cap; entries = (k, v) ∷ l })).entries
      ≡ some v
unfolding enforce_capacity lookup
lookup-enforced_front cap k v l pos = elim (Bool-cases (leb (suc (length l)) cap)) [
  | inl e ↦ rw (e, enforce_capacity) (ground (arith, text_eq_iff k k))
  | inr e ↦ rw (e, enforce_capacity) (lookup-drop_last_front k v l (ground arith))
]

lookup-enforced :
    (c : LruCache) (j : Text)
    → (lookup j (enforce_capacity c).entries ≡ lookup j c.entries)
      ⊎ (lookup j (enforce_capacity c).entries ≡ none)
unfolding enforce_capacity
lookup-enforced c j = elim (Bool-cases (leb (length c.entries) c.capacity_count)) [
  | inl e ↦ rw (e, enforce_capacity) (inl refl)
  | inr e ↦ rw (e, enforce_capacity) (lookup-drop_last j c.entries)
]

lookup-inserted_self :
    (c : LruCache) (k v : Text)
    → 0 < c.capacity_count
    → lookup k (insert_into_cache c k v).entries ≡ some v
unfolding insert_into_cache lookup
lookup-inserted_self c k v pos = elim (Option-cases (lookup k c.entries)) [
  | inl e ↦ rw (e, insert_into_cache) (lookup-enforced_front c.capacity_count k v c.entries pos)
  | inr (u, e) ↦ rw (e, insert_into_cache) (ground (arith, text_eq_iff k k))
]

lookup-inserted_other :
    (c : LruCache) (k j v : Text)
    → IsValid c
    → text_eq k j ≡ false
    → (lookup j (insert_into_cache c k v).entries ≡ lookup j c.entries)
      ⊎ (lookup j (insert_into_cache c k v).entries ≡ none)
unfolding insert_into_cache lookup
lookup-inserted_other c k j v h other = elim (Option-cases (lookup k c.entries)) [
  | inl e ↦
      rw (e, insert_into_cache)
        (ground (arith, lookup-enforced (record c { entries = (k, v) ∷ c.entries }) j))
  | inr (u, e) ↦ rw (e, insert_into_cache) (ground (arith, lookup-without j k c.entries h.distinct))
]

-- What stands in the cache after an insertion was inserted, or stood there before.
pub lookup-inserted :
    (c : LruCache) (k j v u : Text)
    → IsValid c
    → lookup j (insert_into_cache c k v).entries ≡ some u
    → ((text_eq k j ≡ true) × (u ≡ v)) ⊎ (lookup j c.entries ≡ some u)
unfolding insert_into_cache lookup
lookup-inserted c k j v u h = elim (Option-cases (lookup k c.entries)) [
  | inl e ↦
      rw (e, insert_into_cache)
        (λ found.
          ground (arith, lookup-enforced (record c { entries = (k, v) ∷ c.entries }) j, found))
  | inr (w, e) ↦
      rw (e, insert_into_cache)
        (λ found. ground (arith, lookup-without j k c.entries h.distinct, found))
]

-- On a valid cache of capacity above 0, a read after an insertion returns the inserted value for
-- its key, and for every other key what it returned before, or nothing.
pub retrieve-insert :
    (c : LruCache) (k j v : Text)
    → IsValid c
    → 0 < c.capacity_count
    → text_eq k j ≡ false
    → ((retrieve_from_cache (insert_into_cache c k v) k).0 ≡ some v)
      × (((retrieve_from_cache (insert_into_cache c k v) j).0 ≡ (retrieve_from_cache c j).0)
          ⊎ ((retrieve_from_cache (insert_into_cache c k v) j).0 ≡ none))
retrieve-insert c k j v h pos other = (
  rw retrieve-lookup (lookup-inserted_self c k v pos),
  simp retrieve-lookup (lookup-inserted_other c k j v h other),
)

-- On a valid cache a read after a removal finds nothing for its key, and for every other key what
-- it found before. A read before makes no difference to what a later read returns.
pub retrieve-remove :
    (c : LruCache) (k j : Text)
    → IsValid c
    → ((retrieve_from_cache (remove_from_cache c k) j).0
        ≡ (if text_eq k j then none else (retrieve_from_cache c j).0))
      × ((retrieve_from_cache (retrieve_from_cache c k).1 j).0 ≡ (retrieve_from_cache c j).0)
retrieve-remove c k j h =
    (simp retrieve-lookup (lookup-removed c k j h), simp retrieve-lookup (lookup-retrieved c k j h))
