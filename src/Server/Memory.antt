-- ===== src/Server/Memory.antt =====
-- internal/storage/memory_table.go: the sharded memory table. The lock of a shard makes each
-- operation on it one step.
pub mod Lookups
use sndv_kv.Prelude.{
  ℕ, zero, suc, ◌+◌, ◌-◌, ◌%◌, Text, text_eq, List, [], ◌∷◌, ◌++◌, Option, none, some, length, ◌==◌,
  if◌then◌else◌,
}
use sndv_kv.Server.Wal.{Entry}

-- A read of a map, whose entries hold their keys.
unfoldable pub find_entry : Text → List Entry → Option Entry
find_entry k [] = none
find_entry k (e ∷ es) = if text_eq e.key k then some e else find_entry k es

-- An assignment to a map.
unfoldable pub set_entry : Entry → List Entry → List Entry
set_entry e [] = e ∷ []
set_entry e (d ∷ es) = if text_eq d.key e.key then e ∷ es else d ∷ set_entry e es

-- MemoryShard, with the 64 bits of its size.
pub record MemoryShard : Type 0 where
  pub data_map : List Entry
  pub size : ℕ

-- ShardedMemoryTable: the shards below `num_shards` are its array.
abbrev pub MemoryTable : Type 0
MemoryTable = ℕ → MemoryShard

abbrev pub num_shards : ℕ
num_shards = 32

-- NewMemoryTable
abbrev pub new_memory_table : MemoryTable
new_memory_table i = record { data_map = []; size = 0 }

unfoldable pub entry_size : Entry → ℕ
entry_size e = length e.key + length e.value + 16

-- `shard.size.Add(-oldSize)` if the key has an entry.
unfoldable pub subtract_old : Option Entry → ℕ → ℕ
unfolding entry_size
subtract_old none size = size
subtract_old (some old) size = (size + 18446744073709551616 - entry_size old) % 18446744073709551616

-- The part of `Put` under the lock of the shard.
unfoldable pub put_shard : Entry → MemoryShard → MemoryShard
unfolding set_entry find_entry subtract_old entry_size
put_shard e shard = record {
  data_map = set_entry e shard.data_map;
  size =
      (subtract_old (find_entry e.key shard.data_map) shard.size + entry_size e)
      % 18446744073709551616;
}

-- `hash` is FNV-1a of 32 bits.
module _ (hash : Text → ℕ) where
  unfoldable pub get_shard_id : Text → ℕ
  get_shard_id key = hash key % num_shards

  unfoldable pub put : Entry → MemoryTable → MemoryTable
  unfolding get_shard_id put_shard
  put e table i = if get_shard_id e.key == i then put_shard e (table i) else table i

  unfoldable pub get : Text → MemoryTable → Option Entry
  unfolding get_shard_id find_entry
  get key table = find_entry key (table (get_shard_id key)).data_map

-- `n` shards, from `i` on. The order within a shard is the map's.
unfoldable pub dump_from : ℕ → ℕ → MemoryTable → List Entry
dump_from zero i table = []
dump_from (suc n) i table = (table i).data_map ++ dump_from n (i + 1) table

-- DumpToSlice of an empty slice
unfoldable pub dump_to_slice : MemoryTable → List Entry
unfolding dump_from
dump_to_slice table = dump_from num_shards 0 table

unfoldable pub size_from : ℕ → ℕ → MemoryTable → ℕ
size_from zero i table = 0
size_from (suc n) i table = ((table i).size + size_from n (i + 1) table) % 18446744073709551616

-- Size
unfoldable pub table_size : MemoryTable → ℕ
unfolding size_from
table_size table = size_from num_shards 0 table
