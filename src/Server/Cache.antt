-- ===== src/Server/Cache.antt =====
-- internal/cache/lru_cache.go: the least recently used cache. `evictionList` with `itemsMap`
-- together are one list of the entries, the most recent first: the map holds for each key its
-- element of the list.
pub mod Validity
pub mod Reads
use sndv_kv.Prelude.{
  ℕ, zero, suc, Text, text_eq, Bool, List, [], ◌∷◌, Option, none, some, length, leb, if◌then◌else◌,
}

pub record LruCache : Type 0 where
  pub capacity_count : ℕ
  pub entries : List (Text × Text)

-- NewLruCache
abbrev pub new_lru_cache : ℕ → LruCache
new_lru_cache capacity = record { capacity_count = capacity; entries = [] }

-- A read of `itemsMap`, with the value of the element.
unfoldable pub lookup : Text → List (Text × Text) → Option Text
lookup k [] = none
lookup k ((j, v) ∷ l) = if text_eq j k then some v else lookup k l

-- The entries without the element of a key.
unfoldable pub without : Text → List (Text × Text) → List (Text × Text)
without k [] = []
without k ((j, v) ∷ l) = if text_eq j k then l else (j, v) ∷ without k l

-- The entries without their last.
unfoldable pub drop_last : List (Text × Text) → List (Text × Text)
drop_last [] = []
drop_last (e ∷ []) = []
drop_last (e ∷ f ∷ l) = e ∷ drop_last (f ∷ l)

unfoldable pub retrieve_from_cache : LruCache → Text → Option Text × LruCache
unfolding lookup without
retrieve_from_cache c key = elim (lookup key c.entries) [
  | none ↦ (none, c)
  | some v ↦ (some v, record c { entries = (key, v) ∷ without key c.entries })
]

-- enforceCapacity: one entry at most is dropped.
unfoldable pub enforce_capacity : LruCache → LruCache
unfolding drop_last
enforce_capacity c =
    if leb (length c.entries) c.capacity_count
    then c
    else record c { entries = drop_last c.entries }

unfoldable pub insert_into_cache : LruCache → Text → Text → LruCache
unfolding lookup without
insert_into_cache c key value = elim (lookup key c.entries) [
  | some _ ↦ record c { entries = (key, value) ∷ without key c.entries }
  | none ↦ enforce_capacity (record c { entries = (key, value) ∷ c.entries })
]

unfoldable pub remove_from_cache : LruCache → Text → LruCache
unfolding lookup without
remove_from_cache c key = elim (lookup key c.entries) [
  | some _ ↦ record c { entries = without key c.entries }
  | none ↦ c
]
