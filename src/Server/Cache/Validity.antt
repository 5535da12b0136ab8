-- ===== src/Server/Cache/Validity.antt =====
-- What the operations of internal/cache/lru_cache.go keep.
use sndv_kv.Prelude.{
  ◌+◌, ◌-◌, ◌≡◌, refl, ◌≤◌, ◌⊎◌, inl, inr, Text, text_eq, text_eq_iff, Bool-cases, Option-cases,
  leb, List, [], ◌∷◌, none, some, arith, length, if◌then◌else◌,
}
use sndv_kv.Server.Cache.{
  LruCache, lookup, without, drop_last, retrieve_from_cache, enforce_capacity, insert_into_cache,
  remove_from_cache,
}

-- No key stands twice.
abbrev pub Distinct : List (Text × Text) → Type 0
Distinct [] = Unit
Distinct ((k, v) ∷ l) = (lookup k l ≡ none) × Distinct l

pub record IsValid (c : LruCache) : Type 0 where
  pub distinct : Distinct c.entries
  pub bounded : length c.entries ≤ c.capacity_count

lookup-without-none :
    (j k : Text) (l : List (Text × Text)) → lookup j l ≡ none → lookup j (without k l) ≡ none
unfolding lookup without
lookup-without-none j k [] h = refl
lookup-without-none j k ((i, v) ∷ l) h = ground (arith, lookup-without-none j k l)

Distinct-without : (k : Text) (l : List (Text × Text)) → Distinct l → Distinct (without k l)
unfolding lookup without
Distinct-without k [] h = tt
Distinct-without k ((i, v) ∷ l) h = elim (Bool-cases (text_eq i k)) [
  | inl e ↦ rw e h.1
  | inr e ↦ rw e (lookup-without-none i k l h.0, Distinct-without k l h.1)
]

pub lookup-without :
    (j k : Text) (l : List (Text × Text))
    → Distinct l
    → lookup j (without k l) ≡ (if text_eq k j then none else lookup j l)
unfolding lookup without
lookup-without j k [] h = ground arith
lookup-without j k ((i, v) ∷ l) h =
    ground (arith, lookup-without j k l h.1, text_eq_iff i j, text_eq_iff i k, text_eq_iff k j, h.0)

length-without :
    (k : Text) (l : List (Text × Text)) (v : Text)
    → lookup k l ≡ some v
    → length (without k l) + 1 ≡ length l
unfolding lookup without
length-without k [] v h = cc
length-without k ((i, u) ∷ l) v h = ground (arith, length-without k l v)

lookup-drop_last-none :
    (j : Text) (l : List (Text × Text)) → lookup j l ≡ none → lookup j (drop_last l) ≡ none
unfolding lookup drop_last
lookup-drop_last-none j [] h = refl
lookup-drop_last-none j (e ∷ []) h = refl
lookup-drop_last-none j (e ∷ f ∷ l) h = ground (arith, lookup-drop_last-none j (f ∷ l))

Distinct-drop_last : (l : List (Text × Text)) → Distinct l → Distinct (drop_last l)
unfolding drop_last
Distinct-drop_last [] h = tt
Distinct-drop_last (e ∷ []) h = tt
Distinct-drop_last (e ∷ f ∷ l) h =
    (lookup-drop_last-none e.0 (f ∷ l) h.0, Distinct-drop_last (f ∷ l) h.1)

length-drop_last : (l : List (Text × Text)) → length (drop_last l) ≡ length l - 1
unfolding drop_last
length-drop_last [] = omega arith
length-drop_last (e ∷ []) = omega arith
length-drop_last (e ∷ f ∷ l) = omega (arith, length-drop_last (f ∷ l))

-- Dropping the last entry hides a key, or changes nothing that a read sees.
pub lookup-drop_last :
    (j : Text) (l : List (Text × Text))
    → (lookup j (drop_last l) ≡ lookup j l) ⊎ (lookup j (drop_last l) ≡ none)
unfolding lookup drop_last
lookup-drop_last j [] = inl refl
lookup-drop_last j (e ∷ []) = inr refl
lookup-drop_last j (e ∷ f ∷ l) = ground (arith, lookup-drop_last j (f ∷ l))

-- What a read returns.
pub retrieve-lookup : (c : LruCache) (j : Text) → (retrieve_from_cache c j).0 ≡ lookup j c.entries
unfolding retrieve_from_cache
retrieve-lookup c j = ground arith

-- The key is gone from what stands behind it.
Distinct-front :
    (k v : Text) (l : List (Text × Text)) → Distinct l → Distinct ((k, v) ∷ without k l)
Distinct-front k v l h =
    (ground (arith, lookup-without k k l h, text_eq_iff k k), Distinct-without k l h)

retrieve-IsValid : (c : LruCache) (k : Text) → IsValid c → IsValid (retrieve_from_cache c k).1
unfolding retrieve_from_cache
retrieve-IsValid c k h = elim (Option-cases (lookup k c.entries)) [
  | inl e ↦ rw (e, retrieve_from_cache) h
  | inr (v, e) ↦
      rw (e, retrieve_from_cache)
        (record {
          distinct = Distinct-front k v c.entries h.distinct;
          bounded = omega (arith, length-without k c.entries v e, h.bounded);
        })
]

enforce-IsValid :
    (c : LruCache)
    → Distinct c.entries
    → length c.entries ≤ c.capacity_count + 1
    → IsValid (enforce_capacity c)
unfolding enforce_capacity
enforce-IsValid c d h = elim (Bool-cases (leb (length c.entries) c.capacity_count)) [
  | inl e ↦ rw (e, enforce_capacity) (record { distinct = d; bounded = ground arith })
  | inr e ↦
      rw (e, enforce_capacity)
        (record {
          distinct = Distinct-drop_last c.entries d;
          bounded = omega (arith, length-drop_last c.entries, h);
        })
]

insert-IsValid : (c : LruCache) (k v : Text) → IsValid c → IsValid (insert_into_cache c k v)
unfolding insert_into_cache
insert-IsValid c k v h = elim (Option-cases (lookup k c.entries)) [
  | inl e ↦
      rw (e, insert_into_cache)
        (enforce-IsValid (record c { entries = (k, v) ∷ c.entries }) (e, h.distinct)
          (omega (arith, h.bounded)))
  | inr (u, e) ↦
      rw (e, insert_into_cache)
        (record {
          distinct = Distinct-front k v c.entries h.distinct;
          bounded = omega (arith, length-without k c.entries u e, h.bounded);
        })
]

remove-IsValid : (c : LruCache) (k : Text) → IsValid c → IsValid (remove_from_cache c k)
unfolding remove_from_cache
remove-IsValid c k h = elim (Option-cases (lookup k c.entries)) [
  | inl e ↦ rw (e, remove_from_cache) h
  | inr (v, e) ↦
      rw (e, remove_from_cache)
        (record {
          distinct = Distinct-without k c.entries h.distinct;
          bounded = omega (arith, length-without k c.entries v e, h.bounded);
        })
]

-- On a valid cache, whose keys are distinct and whose entries are within the capacity, a read, an
-- insertion and a removal each leave a valid cache.
pub cache-IsValid :
    (c : LruCache) (k v : Text)
    → IsValid c
    → IsValid (retrieve_from_cache c k).1
      × IsValid (insert_into_cache c k v)
      × IsValid (remove_from_cache c k)
cache-IsValid c k v h = (retrieve-IsValid c k h, insert-IsValid c k v h, remove-IsValid c k h)
