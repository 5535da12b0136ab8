-- ===== src/Server/Store.antt =====
-- internal/core/system_state.go with the searches of internal/api/http_router.go, the writes of
-- internal/agents/ingestion.go and the flush of internal/agents/flush_agent.go. Each call is one
-- step, as if it held the lock throughout. Every table can be written, the cache and the filter are
-- there, and the log is left out.
pub mod Sorting
pub mod Views
pub mod Steps
pub mod Contents
pub mod Reads
pub mod Refinement
pub mod Flushing
pub mod Tables
use sndv_kv.Prelude.{
  ℕ, ◌<◌, Text, text_eq, Bool, true, false, List, [], ◌∷◌, ◌++◌, Option, none, some, ltb, leb, ◌==◌,
  ◌&&◌, ◌||◌, if◌then◌else◌,
}
use sndv_kv.Server.Wal.{Entry}
use sndv_kv.Server.Router.{Found, missing, dead, live}
use sndv_kv.Server.Cache.{LruCache, retrieve_from_cache, insert_into_cache, remove_from_cache}
use sndv_kv.Server.Memory.{MemoryTable, new_memory_table, put, get, dump_to_slice, table_size}
use sndv_kv.Server.Bloom.{SharedBloomFilter, contains}
use sndv_kv.Server.Sstable.{SstableMetadata, first_of, write_sorted_string_table, find_in_sstable}

-- SystemState: `immutable_mem` and each level of the tables hold the oldest first.
pub record SystemState : Type 0 where
  pub mem_table : MemoryTable
  pub immutable_mem : List MemoryTable
  pub sstables : List (List SstableMetadata)
  pub bloom_filter : SharedBloomFilter
  pub key_cache : LruCache

-- The loops from the last element to the first.
unfoldable pub find_newest : {A : Type 0} → (A → Option Entry) → List A → Option Entry
unfolding first_of
find_newest f [] = none
find_newest f (x ∷ xs) = first_of (find_newest f xs) (f x)

-- `entries[i].Key < entries[j].Key`, by bytes
unfoldable pub text_lt : Text → Text → Bool
text_lt [] [] = false
text_lt [] (b ∷ t) = true
text_lt (a ∷ s) [] = false
text_lt (a ∷ s) (b ∷ t) = let rest = text_lt s t in ltb a b || a == b && rest

unfoldable pub insert_by_key : Entry → List Entry → List Entry
unfolding text_lt
insert_by_key e [] = e ∷ []
insert_by_key e (d ∷ es) =
    let rest = insert_by_key e es in if text_lt d.key e.key then d ∷ rest else e ∷ d ∷ es

-- `sort.Slice` of entries with distinct keys, which have one order.
unfoldable pub sort_by_key : List Entry → List Entry
unfolding insert_by_key
sort_by_key [] = []
sort_by_key (e ∷ es) = insert_by_key e (sort_by_key es)

-- `hash` is FNV-1a of 32 bits, and `checksum` is the CRC-32 of IEEE.
module _ (hash checksum : Text → ℕ) where
  -- A round of the loop of searchLevel.
  unfoldable pub search_table : SharedBloomFilter → Text → SstableMetadata → Option Entry
  search_table bloom key meta =
      if contains checksum meta.file_id key bloom then find_in_sstable meta key else none

  -- The loop of tryServeFromDisk.
  unfoldable pub search_levels :
      SharedBloomFilter → Text → List (List SstableMetadata) → Option Entry
  unfolding search_table find_newest
  search_levels bloom key [] = none
  search_levels bloom key (level ∷ levels) =
      first_of (find_newest (search_table bloom key) level) (search_levels bloom key levels)

  -- The entry that tryServeFromMemory and then tryServeFromDisk find.
  unfoldable pub newest_entry : Text → SystemState → Option Entry
  unfolding search_levels
  newest_entry key st = first_of (get hash key st.mem_table) (
      first_of (find_newest (get hash key) st.immutable_mem)
        (search_levels st.bloom_filter key st.sstables))

  -- `e.ExpiryTimestamp > 0 && now > e.ExpiryTimestamp`, of the bits of an `int64`
  unfoldable pub is_expired : ℕ → Entry → Bool
  is_expired now e =
      ltb 0 e.expiry_timestamp
      && (ltb e.expiry_timestamp 9223372036854775808 && ltb e.expiry_timestamp now)

  -- processEntry
  unfoldable pub process_entry : ℕ → Entry → SystemState → Found × SystemState
  unfolding is_expired
  process_entry now e st =
      if e.is_deleted
      then (dead, st)
      else if is_expired now e
      then (dead, st)
      else (live e.value, record st { key_cache = insert_into_cache st.key_cache e.key e.value })

  -- findAndServe
  unfoldable pub find_and_serve : ℕ → Text → SystemState → Found × SystemState
  unfolding newest_entry process_entry
  find_and_serve now key st =
      let (hit, cache) = retrieve_from_cache st.key_cache key in
      let st' : SystemState = record st { key_cache = cache } in
      elim hit [
        | some v ↦ (live v, st')
        | none ↦ elim (newest_entry key st) [
          | none ↦ (missing, st')
          | some e ↦ process_entry now e st'
        ]
      ]

  -- rotateMemTable
  unfoldable pub rotate_mem_table : SystemState → SystemState
  rotate_mem_table st = record st {
    mem_table = new_memory_table;
    immutable_mem = st.immutable_mem ++ st.mem_table ∷ [];
  }

  -- A round of the loop of applyToMemTable.
  unfoldable pub apply_entry : Entry → SystemState → SystemState
  apply_entry e st = record st {
    mem_table = put hash e st.mem_table;
    key_cache = remove_from_cache st.key_cache e.key;
  }

  unfoldable pub apply_entries : List Entry → SystemState → SystemState
  unfolding apply_entry
  apply_entries [] st = st
  apply_entries (e ∷ es) st = apply_entries es (apply_entry e st)

  -- `bb.MemTable.Size() >= maximum`, of the bits of an `int64`, for a maximum of 0 at least
  unfoldable pub is_full : ℕ → MemoryTable → Bool
  is_full maximum table =
      ltb (table_size table) 9223372036854775808 && leb maximum (table_size table)

  -- applyToMemTable, with MaximumMemtableSizeInBytes
  unfoldable pub apply_to_mem_table : ℕ → List Entry → SystemState → SystemState
  unfolding apply_entries rotate_mem_table is_full
  apply_to_mem_table maximum batch st =
      let applied = apply_entries batch st in
      if is_full maximum applied.mem_table then rotate_mem_table applied else applied

  -- `append(bb.SSTables[0], meta)`, with levels made where there are none
  unfoldable pub add_to_level_zero :
      SstableMetadata → List (List SstableMetadata) → List (List SstableMetadata)
  add_to_level_zero meta [] = (meta ∷ []) ∷ [] ∷ [] ∷ [] ∷ []
  add_to_level_zero meta (level ∷ levels) = (level ++ meta ∷ []) ∷ levels

  -- A round of the flush agent, with the number in the new file's name; it waits for a table.
  unfoldable pub process_flush : ℕ → SystemState → SystemState
  unfolding sort_by_key add_to_level_zero
  process_flush id st = elim st.immutable_mem [
    | [] ↦ st
    | table ∷ tables ↦
        let (meta, bloom) =
          write_sorted_string_table checksum id (sort_by_key (dump_to_slice table))
            st.bloom_filter in
        record st {
          immutable_mem = tables;
          sstables = add_to_level_zero meta st.sstables;
          bloom_filter = bloom;
        }
  ]

  -- Rounds of the flush agent, each with the number of its file.
  unfoldable pub flush_rounds : List ℕ → SystemState → SystemState
  unfolding process_flush
  flush_rounds [] st = st
  flush_rounds (id ∷ ids) st = flush_rounds ids (process_flush id st)
