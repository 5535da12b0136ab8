-- ===== src/Server/Sstable/Search.antt =====
-- What a search in a table of internal/storage/sorted_string_table.go finds.
use mathlib.Core.List.{append_assoc}
use sndv_kv.Prelude.{
  ℕ, ◌+◌, ◌≡◌, ◌≢◌, refl, sym, ap, ◌∙◌, ◌<◌, inl, inr, Text, text_eq, text_eq_iff, Bool, true,
  false, Bool-cases, List, [], ◌∷◌, ◌++◌, Option, none, some, All, length, length-append, take,
  get_elem?, ◌==◌, arith, if◌then◌else◌,
}
use sndv_kv.Server.Wal.{Entry, le_bytes, from_le}
use sndv_kv.Server.Wal.Recovery.{Fits}
use sndv_kv.Server.Memory.{find_entry}
use sndv_kv.Server.Memory.Lookups.{Distinct}
use sndv_kv.Server.Bloom.{SharedBloomFilter, add, contains}
use sndv_kv.Server.Bloom.Members.{contains-add, contains-add_other}
use sndv_kv.Server.Sstable.{
  first_of, encode_row, encode_rows, index_from, add_keys, write_sorted_string_table, find_offset,
  read_buffer, drop, read_row, find_in_sstable,
}

pub drop-append : (xs ys : List ℕ) → drop (length xs) (xs ++ ys) ≡ ys
unfolding drop
drop-append [] ys = refl
drop-append (x ∷ xs) ys = drop-append xs ys

pub read_buffer-append : (xs ys : List ℕ) → read_buffer (length xs) (xs ++ ys) ≡ xs
unfolding read_buffer
read_buffer-append [] ys = refl
read_buffer-append (x ∷ xs) ys = ap (λ t. x ∷ t) (read_buffer-append xs ys)

pub from_le_4 : (n : ℕ) → n < 4294967296 → from_le (le_bytes 4 n) ≡ n
unfolding from_le le_bytes
from_le_4 n h = omega arith

pub from_le_8 : (n : ℕ) → n < 18446744073709551616 → from_le (le_bytes 8 n) ≡ n
unfolding from_le le_bytes
from_le_8 n h = omega arith

pub flag_of : (b : Bool) → ((if b then 1 else 0) == 1) ≡ b
flag_of b = ground arith

row_parts :
    (e : Entry) (s : List ℕ)
    → read_row e.key (encode_row e ++ s) ≡ record {
      key = e.key;
      value =
          read_buffer
            (from_le (le_bytes 4 (length e.value)))
            (drop (from_le (le_bytes 4 (length e.key))) ((e.key ++ e.value) ++ s));
      expiry_timestamp = from_le (le_bytes 8 e.expiry_timestamp);
      is_deleted = (if e.is_deleted then 1 else 0) == 1;
    }
unfolding read_row encode_row read_buffer drop take get_elem? from_le le_bytes
row_parts e s = refl

read_row-encode_row : (e : Entry) (s : List ℕ) → Fits e → read_row e.key (encode_row e ++ s) ≡ e
read_row-encode_row e s h =
    row_parts e s
    ∙ simp (
      from_le_4 (length e.key) h.key,
      from_le_4 (length e.value) h.value,
      from_le_8 e.expiry_timestamp h.expiry,
      append_assoc,
      drop-append,
      read_buffer-append,
      flag_of,
    )

pub length-encode_row : (e : Entry) → length (encode_row e) ≡ 17 + length e.key + length e.value
unfolding encode_row le_bytes
length-encode_row e = omega (arith, length-append e.key e.value)

-- What the index finds in a file.
found_at : Text → List ℕ → Option ℕ → Option Entry
found_at key file none = none
found_at key file (some offset) = some (read_row key (drop offset file))

found_first :
    (k : Text) (e : Entry) (pre : List ℕ) (es : List Entry) (index : List (Text × ℕ))
    (file : List ℕ)
    → file ≡ pre ++ (encode_row e ++ encode_rows es)
    → text_eq e.key k ≡ true
    → Fits e
    → found_at k file (find_offset k ((e.key, length pre) ∷ index)) ≡ some e
unfolding found_at find_offset
found_first k e pre es index file whole same fits =
    let key : e.key ≡ k = (text_eq_iff e.key k).0 same in
    let row : drop (length pre) file ≡ encode_row e ++ encode_rows es =
      ap (drop (length pre)) whole ∙ drop-append pre (encode_row e ++ encode_rows es) in
    rw (same, row, sym key) (ap some (read_row-encode_row e (encode_rows es) fits))

found_later :
    (k j : Text) (n : ℕ) (index : List (Text × ℕ)) (file : List ℕ)
    → text_eq j k ≡ false
    → found_at k file (find_offset k ((j, n) ∷ index)) ≡ found_at k file (find_offset k index)
unfolding found_at find_offset
found_later k j n index file other = rw (other, find_offset) refl

found_written :
    (k : Text) (pre : List ℕ) (es : List Entry) (index : List (Text × ℕ)) (file : List ℕ)
    → file ≡ pre ++ encode_rows es
    → Distinct es
    → All Fits es
    → found_at k file (find_offset k (index_from (length pre) es index))
      ≡ first_of (find_entry k es) (found_at k file (find_offset k index))
unfolding encode_rows index_from find_entry first_of
found_written k pre [] index file whole distinct fits = refl
found_written k pre (e ∷ es) index file whole distinct fits =
    let more : List ℕ = pre ++ encode_row e in
    let offset : length more ≡ length pre + (17 + length e.key + length e.value) =
      omega (arith, length-append pre (encode_row e), length-encode_row e) in
    let rest : file ≡ more ++ encode_rows es =
      whole ∙ sym (append_assoc pre (encode_row e) (encode_rows es)) in
    let step = found_written k more es ((e.key, length pre) ∷ index) file rest distinct.1 fits.1 in
    let skip : found_at k file (
          find_offset k (
            index_from (length pre + (17 + length e.key + length e.value)) es
              ((e.key, length pre) ∷ index)))
        ≡ found_at k file
            (find_offset k (index_from (length more) es ((e.key, length pre) ∷ index))) =
      ap (λ n. found_at k file (find_offset k (index_from n es ((e.key, length pre) ∷ index))))
        (sym offset) in
    elim (Bool-cases (text_eq e.key k)) [
      | inl same ↦
          let key : e.key ≡ k = (text_eq_iff e.key k).0 same in
          let gone : find_entry k es ≡ none = rw (sym key) distinct.0 in
          rw same (skip ∙ step ∙ rw gone (found_first k e pre es index file whole same fits.0))
      | inr other ↦ rw other (
          skip
          ∙ step
          ∙ ap (first_of (find_entry k es)) (found_later k e.key (length pre) index file other))
    ]

add_keys-kept :
    (checksum : Text → ℕ) (id other : ℕ) (k : Text) (es : List Entry) (bloom : SharedBloomFilter)
    → contains checksum id k bloom ≡ true
    → contains checksum id k (add_keys checksum other es bloom) ≡ true
unfolding add_keys
add_keys-kept checksum id other k [] bloom h = h
add_keys-kept checksum id other k (e ∷ es) bloom h =
    add_keys-kept checksum id other k es (add checksum other e.key bloom)
      (contains-add_other checksum id other k e.key bloom h)

add_keys-added :
    (checksum : Text → ℕ) (id : ℕ) (k : Text) (es : List Entry) (bloom : SharedBloomFilter)
    → find_entry k es ≢ none
    → contains checksum id k (add_keys checksum id es bloom) ≡ true
unfolding add_keys find_entry
add_keys-added checksum id k [] bloom h = absurd (h refl)
add_keys-added checksum id k (e ∷ es) bloom h = elim (Bool-cases (text_eq e.key k)) [
  | inl same ↦
      let key : e.key ≡ k = (text_eq_iff e.key k).0 same in
      rw (sym key) (
        add_keys-kept checksum id id e.key es (add checksum id e.key bloom)
          (contains-add checksum id e.key bloom))
  | inr other ↦ add_keys-added checksum id k es (add checksum id e.key bloom) (rw other at h)
]

-- The table of entries with distinct keys gives for each key what the entries have for it, and the
-- filter contains a key that they have, and what it contained before.
pub record Searchable (checksum : Text → ℕ) (id : ℕ) (es : List Entry) (bloom : SharedBloomFilter)
    : Type 0 where
  pub found :
      (k : Text)
      → find_in_sstable (write_sorted_string_table checksum id es bloom).0 k ≡ find_entry k es
  pub added :
      (k : Text)
      → find_entry k es ≢ none
      → contains checksum id k (write_sorted_string_table checksum id es bloom).1 ≡ true
  pub kept :
      (other : ℕ) (k : Text)
      → contains checksum other k bloom ≡ true
      → contains checksum other k (write_sorted_string_table checksum id es bloom).1 ≡ true

written_lem :
    (checksum : Text → ℕ) (id : ℕ) (es : List Entry) (bloom : SharedBloomFilter) (k : Text)
    → Distinct es
    → All Fits es
    → find_in_sstable (write_sorted_string_table checksum id es bloom).0 k ≡ find_entry k es
unfolding find_in_sstable write_sorted_string_table found_at find_offset first_of
written_lem checksum id es bloom k distinct fits =
    found_lem k (encode_rows es) (find_offset k (index_from 0 es []))
    ∙ found_written k [] es [] (encode_rows es) refl distinct fits
    ∙ none_lem (find_entry k es)
  where
    found_lem :
        (k : Text) (file : List ℕ) (o : Option ℕ)
        → (elim o as (λ _. Option Entry) [
          | none ↦ none
          | some offset ↦ some (read_row k (drop offset file))
        ])
          ≡ found_at k file o
    found_lem k file none = refl
    found_lem k file (some offset) = refl

    none_lem : (o : Option Entry) → first_of o none ≡ o
    none_lem none = refl
    none_lem (some e) = refl

-- For entries with distinct keys whose lengths and expiries fit the format: a search in the table
-- that is written of them finds for each key exactly what the entries have for it, and the filter
-- contains each of their keys, and all that it contained before.
pub write-Searchable :
    (checksum : Text → ℕ) (id : ℕ) (es : List Entry) (bloom : SharedBloomFilter)
    → Distinct es
    → All Fits es
    → Searchable checksum id es bloom
unfolding write_sorted_string_table
write-Searchable checksum id es bloom distinct fits = record {
  found = λ k. written_lem checksum id es bloom k distinct fits;
  added = λ k h. add_keys-added checksum id k es bloom h;
  kept = λ other k h. add_keys-kept checksum other id k es bloom h;
}
