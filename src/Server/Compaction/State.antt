-- ===== src/Server/Compaction/State.antt =====
-- A compaction ends, and searches find what they found before.
use sndv_kv.Prelude.{
  ℕ, ◌≡◌, refl, sym, ap, ◌∙◌, inl, inr, Text, Bool-cases, List, [], ◌∷◌, Option, none, some, length,
  All, All-snoc, ltb, if◌then◌else◌,
}
use sndv_kv.Server.Wal.{Entry}
use sndv_kv.Server.Wal.Recovery.{Fits}
use sndv_kv.Server.Memory.{find_entry, get}
use sndv_kv.Server.Bloom.{SharedBloomFilter}
use sndv_kv.Server.Sstable.{SstableMetadata, first_of, next, write_sorted_string_table}
use sndv_kv.Server.Sstable.Search.{Searchable, write-Searchable}
use sndv_kv.Server.Store.{SystemState, find_newest, search_table, newest_entry}
use sndv_kv.Server.Store.Views.{Visible, search_table-Visible}
use sndv_kv.Server.Compaction.{
  Heap, merge_iterators, bytes_of, add_to_level_one, execute_compaction, check_and_run_compaction,
}
use sndv_kv.Server.Compaction.Queues.{IsHeap}
use sndv_kv.Server.Compaction.Results.{any_has, IsMerge}
use sndv_kv.Server.Compaction.Files.{encoded, merge_iterators-IsMerge}
use sndv_kv.Server.Compaction.Reads.{
  Ascending-Distinct, Agree, find_entry-Agree, IsMerge-any_has, AreTables, files_lem, All-Fits,
  level-Agree, All-kept, search_levels-add_to_level_one,
}

add_to_level_one-empty :
    (meta : SstableMetadata) (levels : List (List SstableMetadata))
    → (rest : List (List SstableMetadata)) × (add_to_level_one meta ([] ∷ levels) ≡ [] ∷ rest)
unfolding add_to_level_one
add_to_level_one-empty meta [] = (_, refl)
add_to_level_one-empty meta (first ∷ levels) = (_, refl)

add_to_level_one-All :
    (P : SstableMetadata → Type 0) (meta : SstableMetadata) (levels : List (List SstableMetadata))
    → P meta
    → All (All P) levels
    → All (All P) (add_to_level_one meta ([] ∷ levels))
unfolding add_to_level_one
add_to_level_one-All P meta [] p h = (tt, ((p, tt), tt))
add_to_level_one-All P meta (first ∷ levels) p h = (tt, (All-snoc P first meta h.0 p, h.1))

module _ (hash checksum : Text → ℕ) where
  module _ (heap : Heap) (laws : IsHeap heap) (id : ℕ) (st : SystemState)
      (level : List SstableMetadata) (levels : List (List SstableMetadata))
      (lists : List (List Entry)) (m : Text → Option Entry) (tables : AreTables lists level)
      (agree : All (Agree m) lists)
      (visible : All (All (Visible hash checksum st.bloom_filter)) (level ∷ levels)) where
    -- The state while the merge runs.
    abbrev started : SystemState
    started = record st { sstables = [] ∷ levels }

    abbrev written : List Entry → SstableMetadata × SharedBloomFilter
    written out = write_sorted_string_table checksum id out st.bloom_filter

    abbrev committed : List Entry → SystemState
    committed out = record st {
      sstables = add_to_level_one (written out).0 ([] ∷ levels);
      bloom_filter = (written out).1;
    }

    execute_compaction_lem :
        (out : List Entry)
        → merge_iterators next heap (bytes_of (encoded lists)) (encoded lists) ≡ some out
        → execute_compaction heap checksum id level started ≡ some (committed out)
    unfolding execute_compaction
    execute_compaction_lem out e = rw (files_lem lists level tables, e, execute_compaction) refl

    written-Searchable :
        (out : List Entry) → IsMerge lists out → Searchable checksum id out st.bloom_filter
    written-Searchable out merge =
        write-Searchable checksum id out st.bloom_filter (Ascending-Distinct out merge.ascending)
          (merge.every Fits (All-Fits lists level tables).0)

    written-Visible :
        (out : List Entry)
        → IsMerge lists out
        → Visible hash checksum (written out).1 (written out).0
    unfolding write_sorted_string_table
    written-Visible out merge j there =
        let s : Searchable checksum id out st.bloom_filter = written-Searchable out merge in
        s.added j (λ gone. there (s.found j ∙ gone))

    levels-Visible :
        (out : List Entry)
        → IsMerge lists out
        → All (All (Visible hash checksum (written out).1)) levels
    levels-Visible out merge =
        All-kept hash checksum st.bloom_filter (written out).1 levels
          (written-Searchable out merge).kept visible.1

    newest-committed :
        (out : List Entry)
        → IsMerge lists out
        → (k : Text)
        → newest_entry hash checksum k (committed out)
          ≡ newest_entry hash checksum k (record st { sstables = level ∷ levels })
    unfolding newest_entry write_sorted_string_table
    newest-committed out merge k =
        let s : Searchable checksum id out st.bloom_filter = written-Searchable out merge in
        let more : SharedBloomFilter = (written out).1 in
        let in_out : find_entry k out ≡ (if any_has k lists then m k else none) =
          find_entry-Agree m k out (merge.every (λ e. m e.key ≡ some e) agree)
          ∙ ap (λ b. if b then m k else none) (IsMerge-any_has k lists out merge) in
        let here : search_table hash checksum more k (written out).0
            ≡ find_newest (search_table hash checksum st.bloom_filter k) level =
          search_table-Visible hash checksum more k (written out).0 (written-Visible out merge)
          ∙ s.found k
          ∙ in_out
          ∙ sym
              (level-Agree hash checksum m st.bloom_filter k lists level tables visible.0 agree) in
        ap
          (λ o.
            first_of (get hash k st.mem_table)
              (first_of (find_newest (get hash k) st.immutable_mem) o))
          (search_levels-add_to_level_one hash checksum st.bloom_filter more k (written out).0 level
            levels here visible.1 (levels-Visible out merge))

    compacted :
        (out : List Entry) × (execute_compaction heap checksum id level started
          ≡ some (committed out))
        × ((k : Text)
            → newest_entry hash checksum k (committed out)
              ≡ newest_entry hash checksum k (record st { sstables = level ∷ levels }))
        × All (All (Visible hash checksum (committed out).bloom_filter)) (committed out).sstables
    compacted =
        let (fits, sorted) = All-Fits lists level tables in
        let (out, e, merge) = merge_iterators-IsMerge heap lists laws fits sorted in
        (
          out,
          execute_compaction_lem out e,
          newest-committed out merge,
          add_to_level_one-All (Visible hash checksum (written out).1) (written out).0 levels
              (written-Visible out merge) (levels-Visible out merge),
        )

  -- With a heap as container/heap promises one: if the tables of level 0 were written of entries in
  -- strict order of their keys that fit the format, the filter hides no key of a table, and the tables
  -- of level 0 have no two different entries for one key, then a check for compaction ends. It finds for
  -- every key the entry that was found before, the filter still hides no key of a table, and level 0 is as
  -- it was if there are too few tables, and empty if not.
  pub check_and_run_compaction-newest :
      (heap : Heap) (trigger id : ℕ) (st : SystemState) (level : List SstableMetadata)
      (levels : List (List SstableMetadata)) (lists : List (List Entry)) (m : Text → Option Entry)
      → IsHeap heap
      → st.sstables ≡ level ∷ levels
      → AreTables lists level
      → All (Agree m) lists
      → All (All (Visible hash checksum st.bloom_filter)) st.sstables
      → (st' : SystemState) × (check_and_run_compaction heap checksum trigger id st ≡ some st')
        × ((k : Text) → newest_entry hash checksum k st' ≡ newest_entry hash checksum k st)
        × All (All (Visible hash checksum st'.bloom_filter)) st'.sstables
        × ((rest : List (List SstableMetadata)) × (st'.sstables
              ≡ (if ltb (length level) trigger then level else []) ∷ rest))
  unfolding check_and_run_compaction
  check_and_run_compaction-newest heap trigger id st level levels lists m laws e tables agree
        visible =
      elim (Bool-cases (ltb (length level) trigger)) [
        | inl few ↦
            rw (e, few, check_and_run_compaction)
              (
                st,
                refl,
                λ k.
                    ap
                      (λ (ls : List (List SstableMetadata)).
                        newest_entry hash checksum k (record st { sstables = ls }))
                      e,
                visible,
                (levels, e),
              )
        | inr enough ↦
            let shown : All (All (Visible hash checksum st.bloom_filter)) (level ∷ levels) =
              rw e at visible in
            let (out, runs, same, all_shown) =
              compacted heap laws id st level levels lists m tables agree shown in
            let (rest, empty) =
              add_to_level_one-empty
                (written heap laws id st level levels lists m tables agree shown out).0 levels in
            rw (e, enough, check_and_run_compaction)
              (
                committed heap laws id st level levels lists m tables agree shown out,
                runs,
                same,
                all_shown,
                (rest, empty),
              )
      ]
