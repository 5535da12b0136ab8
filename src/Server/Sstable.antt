-- ===== src/Server/Sstable.antt =====
-- internal/storage/sorted_string_table.go: a table on disk, its index, the search and the reader. The
-- file can be opened, written and read.
pub mod Search
pub mod Reading
use sndv_kv.Prelude.{
  ℕ, zero, suc, ◌+◌, Text, text_eq, Bool, true, false, List, [], ◌∷◌, ◌++◌, Option, none, some,
  length, take, get_elem?, ◌==◌, if◌then◌else◌,
}
use sndv_kv.Server.Wal.{Entry, le_bytes, from_le, read_full}
use sndv_kv.Server.Bloom.{SharedBloomFilter, add}

-- The first that is there.
unfoldable pub first_of : {A : Type 0} → Option A → Option A → Option A
first_of none o = o
first_of (some a) o = some a

-- SSTableMetadata, with the content of its file. An assignment to the index stands before those
-- that it replaces. The level and the least and greatest key are left out: no search reads them.
pub record SstableMetadata : Type 0 where
  pub file_id : ℕ
  pub index : List (Text × ℕ)
  pub file : List ℕ

-- The header and the entry.
unfoldable pub encode_row : Entry → List ℕ
unfolding le_bytes
encode_row e =
    le_bytes 4 (length e.key)
    ++ (le_bytes 4 (length e.value)
        ++ (le_bytes 8 e.expiry_timestamp
            ++ ((if e.is_deleted then 1 else 0) ∷ (e.key ++ e.value))))

unfoldable pub encode_rows : List Entry → List ℕ
unfolding encode_row
encode_rows [] = []
encode_rows (e ∷ es) = encode_row e ++ encode_rows es

unfoldable pub index_from : ℕ → List Entry → List (Text × ℕ) → List (Text × ℕ)
index_from offset [] index = index
index_from offset (e ∷ es) index =
    index_from (offset + (17 + length e.key + length e.value)) es ((e.key, offset) ∷ index)

unfoldable pub add_keys : (Text → ℕ) → ℕ → List Entry → SharedBloomFilter → SharedBloomFilter
add_keys checksum id [] bloom = bloom
add_keys checksum id (e ∷ es) bloom = add_keys checksum id es (add checksum id e.key bloom)

-- WriteSortedStringTableToDisk, with the number in the file's name; the filter is there.
unfoldable pub write_sorted_string_table :
    (Text → ℕ) → ℕ → List Entry → SharedBloomFilter → SstableMetadata × SharedBloomFilter
unfolding index_from encode_rows add_keys
write_sorted_string_table checksum id entries bloom = (
  record { file_id = id; index = index_from 0 entries []; file = encode_rows entries },
  add_keys checksum id entries bloom,
)

unfoldable pub find_offset : Text → List (Text × ℕ) → Option ℕ
find_offset k [] = none
find_offset k ((j, offset) ∷ index) = if text_eq j k then some offset else find_offset k index

-- `io.ReadFull` into a new buffer of `n` bytes, whose error is dropped: what is missing stays 0.
unfoldable pub read_buffer : ℕ → List ℕ → List ℕ
read_buffer zero s = []
read_buffer (suc n) [] = 0 ∷ read_buffer n []
read_buffer (suc n) (b ∷ s) = b ∷ read_buffer n s

unfoldable pub drop : ℕ → List ℕ → List ℕ
drop zero s = s
drop (suc n) [] = []
drop (suc n) (b ∷ s) = drop n s

-- The entry of a key, from where it starts.
unfoldable pub read_row : Text → List ℕ → Entry
unfolding read_buffer drop from_le take get_elem?
read_row key s =
    let header : List ℕ = read_buffer 17 s in
    let klen : ℕ = from_le (take 4 header) in
    let vlen : ℕ = from_le (take 4 (drop 4 header)) in
    record {
      key = key;
      value = read_buffer vlen (drop klen (drop 17 s));
      expiry_timestamp = from_le (take 8 (drop 8 header));
      is_deleted = (elim (get_elem? header 16) as (λ _. Bool) [ none ↦ false | some b ↦ b == 1 ]);
    }

-- FindInSSTable
unfoldable pub find_in_sstable : SstableMetadata → Text → Option Entry
unfolding find_offset read_row
find_in_sstable meta key = elim (find_offset key meta.index) [
  | none ↦ none
  | some offset ↦ some (read_row key (drop offset meta.file))
]

-- `Next` of a reader, by the bytes that it has not read.
unfoldable pub next : List ℕ → Option (Entry × List ℕ)
unfolding read_full read_buffer drop from_le take get_elem?
next s = elim (read_full 17 s) [
  | none ↦ none
  | some (header, rest) ↦
      let klen : ℕ = from_le (take 4 header) in
      let vlen : ℕ = from_le (take 4 (drop 4 header)) in
      some (
        record {
          key = read_buffer klen rest;
          value = read_buffer vlen (drop klen rest);
          expiry_timestamp = from_le (take 8 (drop 8 header));
          is_deleted = (elim (get_elem? header 16) as (λ _. Bool) [
            | none ↦ false
            | some b ↦ b == 1
          ]);
        },
        drop vlen (drop klen rest),
      )
]
