-- ===== src/Server/Store/Refinement.antt =====
-- The server's memory tables, tables on disk, filter and cache together are a map.
use sndv_kv.Prelude.{
  ℕ, ◌≡◌, refl, ap, ◌<◌, inl, inr, Text, true, false, Bool-cases, List, [], ◌∷◌, Option, none, some,
  All, length, arith,
}
use sndv_kv.Server.Wal.{Entry}
use sndv_kv.Server.Wal.Recovery.{Fits}
use sndv_kv.Server.Router.{Found}
use sndv_kv.Server.Cache.{lookup, new_lru_cache}
use sndv_kv.Server.Memory.{find_entry, get, new_memory_table}
use sndv_kv.Server.Bloom.{SharedBloomFilter}
use sndv_kv.Server.Sstable.{first_of}
use sndv_kv.Server.Store.{
  SystemState, find_newest, search_levels, newest_entry, find_and_serve, apply_entry, apply_entries,
  is_full, apply_to_mem_table, process_flush,
}
use sndv_kv.Server.Store.Views.{new_memory_table-IsSound}
use sndv_kv.Server.Store.Contents.{
  Contents, value_of, assign, seen, Refines, Refines-apply_entry, Refines-rotate_mem_table,
  Refines-process_flush,
}
use sndv_kv.Server.Store.Reads.{find_and_serve-Served, Refines-find_and_serve}

-- The steps of the server; a read has the time. Writes have no time to live.
pub data Command : Type 0 where
  write_value : Text → Text → Command
  remove_value : Text → Command
  read_value : ℕ → Text → Command
  flush_table : ℕ → Command

-- What is given to applyToMemTable.
abbrev pub entry_of : Text → Option Text → Entry
entry_of k none = record { key = k; value = []; expiry_timestamp = 0; is_deleted = true }
entry_of k (some v) = record { key = k; value = v; expiry_timestamp = 0; is_deleted = false }

-- The answers of a map.
unfoldable pub map_answers : List Command → Contents → List (Option Text)
map_answers [] m = []
map_answers (write_value k v ∷ cs) m = map_answers cs (assign k (some v) m)
map_answers (remove_value k ∷ cs) m = map_answers cs (assign k none m)
map_answers (read_value now k ∷ cs) m = m k ∷ map_answers cs m
map_answers (flush_table id ∷ cs) m = map_answers cs m

-- Lengths that the format of a table holds.
abbrev pub IsShort : Command → Type 0
IsShort (write_value k v) = (length k < 4294967296) × (length v < 4294967296)
IsShort (remove_value k) = length k < 4294967296
IsShort _ = Unit

-- The state after a start without files.
abbrev pub new_system_state : SharedBloomFilter → ℕ → SystemState
new_system_state bloom capacity = record {
  mem_table = new_memory_table;
  immutable_mem = [];
  sstables = [] ∷ [] ∷ [] ∷ [] ∷ [];
  bloom_filter = bloom;
  key_cache = new_lru_cache capacity;
}

module _ (hash checksum : Text → ℕ) where
  -- The answers of the server to a sequence of steps, one for each read.
  unfoldable pub answers : ℕ → List Command → SystemState → List (Option Text)
  answers maximum [] st = []
  answers maximum (write_value k v ∷ cs) st =
      answers maximum cs (apply_to_mem_table hash checksum maximum (entry_of k (some v) ∷ []) st)
  answers maximum (remove_value k ∷ cs) st =
      answers maximum cs (apply_to_mem_table hash checksum maximum (entry_of k none ∷ []) st)
  answers maximum (read_value now k ∷ cs) st =
      let r = find_and_serve hash checksum now k st in seen r.0 ∷ answers maximum cs r.1
  answers maximum (flush_table id ∷ cs) st = answers maximum cs (process_flush hash checksum id st)

  pub Refines-apply_to_mem_table :
      (maximum : ℕ) (e : Entry) (st : SystemState) (m : Contents)
      → Fits e
      → e.expiry_timestamp ≡ 0
      → Refines hash checksum st m
      → Refines hash checksum
          (apply_to_mem_table hash checksum maximum (e ∷ []) st)
          (assign e.key (value_of e) m)
  unfolding apply_to_mem_table apply_entries
  Refines-apply_to_mem_table maximum e st m fits expiry h =
      let applied : SystemState = apply_entry hash checksum e st in
      let m' : Contents = assign e.key (value_of e) m in
      let h' : Refines hash checksum applied m' =
        Refines-apply_entry hash checksum e st m fits expiry h in
      elim (Bool-cases (is_full hash checksum maximum applied.mem_table)) [
        | inl full ↦ rw full (Refines-rotate_mem_table hash checksum applied m' h')
        | inr room ↦ rw room h'
      ]

  answers-Refines :
      (maximum : ℕ) (cs : List Command) (st : SystemState) (m : Contents)
      → All IsShort cs
      → Refines hash checksum st m
      → answers maximum cs st ≡ map_answers cs m
  unfolding answers map_answers newest_entry
  answers-Refines maximum [] st m short h = refl
  answers-Refines maximum (write_value k v ∷ cs) st m short h =
      answers-Refines maximum cs _ (assign k (some v) m) short.1 (
        Refines-apply_to_mem_table maximum (entry_of k (some v)) st m
          (record { key = short.0.0; value = short.0.1; expiry = omega arith }) refl h)
  answers-Refines maximum (remove_value k ∷ cs) st m short h =
      answers-Refines maximum cs _ (assign k none m) short.1 (
        Refines-apply_to_mem_table maximum (entry_of k none) st m
          (record { key = short.0; value = omega arith; expiry = omega arith }) refl h)
  answers-Refines maximum (read_value now k ∷ cs) st m short h =
      let r : Found × SystemState = find_and_serve hash checksum now k st in
      rw ((find_and_serve-Served hash checksum now k st m h).0) (
        ap (λ rest. m k ∷ rest)
          (answers-Refines maximum cs r.1 m short.1
            (Refines-find_and_serve hash checksum now k st m h)))
  answers-Refines maximum (flush_table id ∷ cs) st m short h =
      answers-Refines maximum cs (process_flush hash checksum id st) m short.1
        (Refines-process_flush hash checksum id st m h)

  pub new_system_state-Refines :
      (bloom : SharedBloomFilter) (capacity : ℕ)
      → Refines hash checksum (new_system_state bloom capacity) (λ _. none)
  unfolding newest_entry find_newest search_levels first_of get find_entry lookup
  new_system_state-Refines bloom capacity = record {
    sound = new_memory_table-IsSound hash checksum;
    sound_immutable = tt;
    visible = (tt, (tt, (tt, (tt, tt))));
    holds = λ k. refl;
    cache_valid = record { distinct = tt; bounded = omega arith };
    cached = λ k v found. absurd (cc found);
  }

  -- The server started without files, whatever the size at which its memory table is rotated, the
  -- capacity of its cache and its filter, answers every sequence of writes and removals without a
  -- time to live, reads and flushes as a map does that is empty at first: a read finds the value
  -- written last, or nothing if there is none or the key was removed since. The keys and values are
  -- shorter than 4 GiB.
  pub answers-map_answers :
      (maximum : ℕ) (cs : List Command) (bloom : SharedBloomFilter) (capacity : ℕ)
      → All IsShort cs
      → answers maximum cs (new_system_state bloom capacity) ≡ map_answers cs (λ _. none)
  answers-map_answers maximum cs bloom capacity short =
      answers-Refines maximum cs (new_system_state bloom capacity) (λ _. none) short
        (new_system_state-Refines bloom capacity)
