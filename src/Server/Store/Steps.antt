-- ===== src/Server/Store/Steps.antt =====
-- What a search for a key finds after the steps of the server.
use sndv_kv.Prelude.{
  ℕ, ◌≡◌, refl, sym, ap, ◌∙◌, Text, text_eq, List, [], ◌∷◌, Option, some, All, All-snoc, arith,
  if◌then◌else◌,
}
use sndv_kv.Server.Wal.{Entry}
use sndv_kv.Server.Memory.{MemoryTable, find_entry, get, dump_to_slice}
use sndv_kv.Server.Memory.Lookups.{
  Distinct, get-put, find_entry-dump_to_slice, Distinct-dump_to_slice,
}
use sndv_kv.Server.Bloom.{SharedBloomFilter}
use sndv_kv.Server.Sstable.{SstableMetadata, first_of, write_sorted_string_table}
use sndv_kv.Server.Sstable.Search.{Searchable, write-Searchable}
use sndv_kv.Server.Store.{
  SystemState, find_newest, sort_by_key, search_table, search_levels, newest_entry,
  rotate_mem_table, apply_entry, add_to_level_zero, process_flush,
}
use sndv_kv.Server.Store.Sorting.{sort_lem, All-sort_by_key}
use sndv_kv.Server.Store.Views.{
  first_of_assoc, find_newest-snoc, IsSound, Visible, dump_to_slice-Fits, search_table-Visible,
  search_levels-Visible,
}
use sndv_kv.Server.Wal.Recovery.{Fits}

module _ (hash checksum : Text → ℕ) where
  pub newest-apply_entry :
      (k : Text) (e : Entry) (st : SystemState)
      → newest_entry hash checksum k (apply_entry hash checksum e st)
        ≡ (if text_eq e.key k then some e else newest_entry hash checksum k st)
  unfolding newest_entry apply_entry first_of
  newest-apply_entry k e st = ground (arith, get-put hash k e st.mem_table)

  pub newest-rotate_mem_table :
      (k : Text) (st : SystemState)
      → newest_entry hash checksum k (rotate_mem_table hash checksum st)
        ≡ newest_entry hash checksum k st
  unfolding newest_entry rotate_mem_table first_of get find_entry
  newest-rotate_mem_table k st =
      ap (λ o. first_of o (search_levels hash checksum st.bloom_filter k st.sstables))
        (find_newest-snoc (get hash k) st.immutable_mem st.mem_table)
      ∙ first_of_assoc (get hash k st.mem_table) (find_newest (get hash k) st.immutable_mem)
          (search_levels hash checksum st.bloom_filter k st.sstables)

  search_levels-add :
      (bloom : SharedBloomFilter) (k : Text) (meta : SstableMetadata)
      (levels : List (List SstableMetadata))
      → search_levels hash checksum bloom k (add_to_level_zero hash checksum meta levels)
        ≡ first_of
            (search_table hash checksum bloom k meta)
            (search_levels hash checksum bloom k levels)
  unfolding search_levels add_to_level_zero find_newest first_of
  search_levels-add bloom k meta [] = refl
  search_levels-add bloom k meta (level ∷ levels) =
      ap (λ o. first_of o (search_levels hash checksum bloom k levels))
        (find_newest-snoc (search_table hash checksum bloom k) level meta)
      ∙ first_of_assoc (search_table hash checksum bloom k meta)
          (find_newest (search_table hash checksum bloom k) level)
          (search_levels hash checksum bloom k levels)

  pub process_flush-waits :
      (id : ℕ) (st : SystemState) → st.immutable_mem ≡ [] → process_flush hash checksum id st ≡ st
  unfolding process_flush
  process_flush-waits id st e =
      let same : st ≡ record st { immutable_mem = [] } =
        ap (λ (tables : List MemoryTable). record st { immutable_mem = tables }) e in
      ap (process_flush hash checksum id) same ∙ sym same

  module _ (id : ℕ) (st : SystemState) (table : MemoryTable) (tables : List MemoryTable)
      (first : st.immutable_mem ≡ table ∷ tables) (sound : IsSound hash checksum table)
      (visible : All (All (Visible hash checksum st.bloom_filter)) st.sstables) where
    abbrev pub entries : List Entry
    entries = sort_by_key (dump_to_slice table)

    abbrev pub written : SstableMetadata × SharedBloomFilter
    written = write_sorted_string_table checksum id entries st.bloom_filter

    pub searchable : Searchable checksum id entries st.bloom_filter
    searchable =
        let distinct : Distinct (dump_to_slice table) =
          Distinct-dump_to_slice hash table sound.placed in
        write-Searchable checksum id entries st.bloom_filter
          (sort_lem (dump_to_slice table) distinct).0
          (All-sort_by_key Fits (dump_to_slice table)
            (dump_to_slice-Fits hash checksum table sound))

    abbrev pub flushed : SystemState
    flushed = record st {
      immutable_mem = tables;
      sstables = add_to_level_zero hash checksum written.0 st.sstables;
      bloom_filter = written.1;
    }

    pub process_flush_lem : process_flush hash checksum id st ≡ flushed
    unfolding process_flush
    process_flush_lem = rw (first, process_flush) refl

    kept-Visible :
        (level : List SstableMetadata)
        → All (Visible hash checksum st.bloom_filter) level
        → All (Visible hash checksum written.1) level
    kept-Visible [] h = tt
    kept-Visible (meta ∷ level) h =
        (λ k there. searchable.kept meta.file_id k (h.0 k there), kept-Visible level h.1)

    All-Visible :
        (levels : List (List SstableMetadata))
        → All (All (Visible hash checksum st.bloom_filter)) levels
        → All (All (Visible hash checksum written.1)) levels
    All-Visible [] h = tt
    All-Visible (level ∷ levels) h = (kept-Visible level h.0, All-Visible levels h.1)

    written-Visible : Visible hash checksum written.1 written.0
    unfolding write_sorted_string_table
    written-Visible k there = searchable.added k (λ e. there (searchable.found k ∙ e))

    found_in_written :
        (k : Text) → search_table hash checksum written.1 k written.0 ≡ get hash k table
    found_in_written k =
        let distinct : Distinct (dump_to_slice table) =
          Distinct-dump_to_slice hash table sound.placed in
        search_table-Visible hash checksum written.1 k written.0 written-Visible
        ∙ searchable.found k
        ∙ (sort_lem (dump_to_slice table) distinct).1 k
        ∙ find_entry-dump_to_slice hash k table sound.placed

    level_zero-Visible :
        (levels : List (List SstableMetadata))
        → All (All (Visible hash checksum written.1)) levels
        → All
            (All (Visible hash checksum written.1))
            (add_to_level_zero hash checksum written.0 levels)
    unfolding add_to_level_zero
    level_zero-Visible [] h = ((written-Visible, tt), (tt, (tt, (tt, tt))))
    level_zero-Visible (level ∷ levels) h =
        (All-snoc (Visible hash checksum written.1) level written.0 h.0 written-Visible, h.1)

    pub flushed-Visible : All (All (Visible hash checksum flushed.bloom_filter)) flushed.sstables
    flushed-Visible = level_zero-Visible st.sstables (All-Visible st.sstables visible)

    pub newest-flushed :
        (k : Text) → newest_entry hash checksum k flushed ≡ newest_entry hash checksum k st
    unfolding newest_entry find_newest
    newest-flushed k =
        let disk : Option Entry = search_levels hash checksum st.bloom_filter k st.sstables in
        let after : search_levels hash checksum written.1 k
              (add_to_level_zero hash checksum written.0 st.sstables)
            ≡ first_of (get hash k table) disk =
          search_levels-add written.1 k written.0 st.sstables
          ∙ rw
              (
                found_in_written k,
                search_levels-Visible hash checksum st.bloom_filter written.1 k st.sstables visible
                    (All-Visible st.sstables visible),
              )
              refl in
        let inner : first_of (find_newest (get hash k) tables) (
              search_levels hash checksum written.1 k
                (add_to_level_zero hash checksum written.0 st.sstables))
            ≡ first_of (find_newest (get hash k) st.immutable_mem) disk =
          ap (first_of (find_newest (get hash k) tables)) after
          ∙ sym (first_of_assoc (find_newest (get hash k) tables) (get hash k table) disk)
          ∙ ap (λ ms. first_of (find_newest (get hash k) ms) disk) (sym first) in
        ap (first_of (get hash k st.mem_table)) inner
