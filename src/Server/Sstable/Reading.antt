-- ===== src/Server/Sstable/Reading.antt =====
-- The reader of internal/storage/sorted_string_table.go gives the entries that were written.
use sndv_kv.Prelude.{
  ℕ, ◌≡◌, refl, ◌∙◌, List, ◌++◌, some, length, take, get_elem?, ◌==◌, if◌then◌else◌,
}
use mathlib.Core.List.{append_assoc}
use sndv_kv.Server.Wal.{Entry, le_bytes, from_le, read_full}
use sndv_kv.Server.Wal.Recovery.{Fits}
use sndv_kv.Server.Sstable.{encode_row, read_buffer, drop, next}
use sndv_kv.Server.Sstable.Search.{drop-append, read_buffer-append, from_le_4, from_le_8, flag_of}

next_parts :
    (e : Entry) (s : List ℕ)
    → let klen : ℕ = from_le (le_bytes 4 (length e.key)) in
      let vlen : ℕ = from_le (le_bytes 4 (length e.value)) in
      let rest : List ℕ = (e.key ++ e.value) ++ s in
      next (encode_row e ++ s)
      ≡ some (
        record {
          key = read_buffer klen rest;
          value = read_buffer vlen (drop klen rest);
          expiry_timestamp = from_le (le_bytes 8 e.expiry_timestamp);
          is_deleted = (if e.is_deleted then 1 else 0) == 1;
        },
        drop vlen (drop klen rest),
      )
unfolding next encode_row read_full read_buffer drop take get_elem? from_le le_bytes
next_parts e s = refl

-- A reader gives an entry that was written, and what follows it.
pub next-encode_row : (e : Entry) (s : List ℕ) → Fits e → next (encode_row e ++ s) ≡ some (e, s)
next-encode_row e s h =
    next_parts e s
    ∙ simp (
      from_le_4 (length e.key) h.key,
      from_le_4 (length e.value) h.value,
      from_le_8 e.expiry_timestamp h.expiry,
      append_assoc,
      drop-append,
      read_buffer-append,
      flag_of,
    )
