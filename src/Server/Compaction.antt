-- ===== src/Server/Compaction.antt =====
-- internal/agents/compaction_agent.go: the merge of the tables of level 0, and what it does to the
-- state; the reader of internal/storage/sorted_string_table.go. The files can be opened and written.
pub mod Order
pub mod Queues
pub mod Sources
pub mod Steps
pub mod Kept
pub mod Filling
pub mod Merging
pub mod Results
pub mod Files
pub mod Reads
pub mod State
pub mod Flushed
use sndv_kv.Prelude.{
  ℕ, zero, suc, ◌+◌, Text, text_eq, map, List, [], ◌∷◌, ◌++◌, Option, none, some, take, get_elem?,
  length, leb, ltb, ◌==◌, if◌then◌else◌,
}
use sndv_kv.Server.Wal.{Entry}
use sndv_kv.Server.Sstable.{next, SstableMetadata, write_sorted_string_table}
use sndv_kv.Server.Store.{SystemState}

pub record MergeItem : Type 0 where
  pub entry : Entry
  pub source_id : ℕ

-- A MergeHeap with the calls of container/heap that the agent makes: `Push`, and `Pop` with `none`
-- for an empty one. `items` are its elements.
pub record Heap : Type 1 where
  pub MergeHeap : Type 0
  pub empty : MergeHeap
  pub push : MergeItem → MergeHeap → MergeHeap
  pub pop : MergeHeap → Option (MergeItem × MergeHeap)
  pub items : MergeHeap → List MergeItem

-- The new entry in place of the last one, if that has its key, or after it. The last stands first.
unfoldable pub add_entry : Entry → List Entry → List Entry
add_entry top [] = top ∷ []
add_entry top (e ∷ entries) = if text_eq e.key top.key then top ∷ entries else top ∷ e ∷ entries

unfoldable pub reversed : List Entry → List Entry → List Entry
reversed [] es = es
reversed (e ∷ entries) es = reversed entries (e ∷ es)

module _ {Reader : Type 0} (read : Reader → Option (Entry × Reader)) where
  -- `iters[i].Next()`
  unfoldable pub next_of : ℕ → List Reader → Option (Entry × List Reader)
  next_of i [] = none
  next_of zero (s ∷ iters) = elim (read s) [ none ↦ none | some (e, s') ↦ some (e, s' ∷ iters) ]
  next_of (suc i) (s ∷ iters) = elim (next_of i iters) [
    | none ↦ none
    | some (e, iters') ↦ some (e, s ∷ iters')
  ]

  module _ (heap : Heap) where
    -- The first loop of mergeIterators, from the reader with the number `i`.
    unfoldable pub push_all : ℕ → List Reader → heap.MergeHeap → heap.MergeHeap × List Reader
    push_all i [] mh = (mh, [])
    push_all i (s ∷ iters) mh = elim (read s) [
      | none ↦ let r = push_all (i + 1) iters mh in (r.0, s ∷ r.1)
      | some (e, s') ↦
          let r = push_all (i + 1) iters (heap.push (record { entry = e; source_id = i }) mh) in
          (r.0, s' ∷ r.1)
    ]

    -- The second loop, on fuel for its rounds: `none` if it is used up.
    unfoldable pub merge_loop : ℕ → heap.MergeHeap → List Reader → List Entry → Option (List Entry)
    unfolding next_of add_entry
    merge_loop zero mh iters entries = elim (heap.pop mh) [ none ↦ some entries | some top ↦ none ]
    merge_loop (suc fuel) mh iters entries = elim (heap.pop mh) [
      | none ↦ some entries
      | some (top, mh') ↦ elim (next_of top.source_id iters) [
        | none ↦ merge_loop fuel mh' iters (add_entry top.entry entries)
        | some (e, iters') ↦
            merge_loop fuel (heap.push (record { entry = e; source_id = top.source_id }) mh') iters'
              (add_entry top.entry entries)
      ]
    ]

    -- mergeIterators
    unfoldable pub merge_iterators : ℕ → List Reader → Option (List Entry)
    unfolding push_all merge_loop reversed
    merge_iterators fuel iters =
        let (mh, iters') = push_all 0 iters heap.empty in
        elim (merge_loop fuel mh iters' []) [
          | none ↦ none
          | some entries ↦ some (reversed entries [])
        ]

-- `append(bb.SSTables[1], newMeta)`, with that level made where it is missing.
unfoldable pub add_to_level_one :
    SstableMetadata → List (List SstableMetadata) → List (List SstableMetadata)
add_to_level_one meta [] = []
add_to_level_one meta (level ∷ []) = level ∷ (meta ∷ []) ∷ []
add_to_level_one meta (zeroth ∷ first ∷ levels) = zeroth ∷ (first ++ meta ∷ []) ∷ levels

abbrev pub files_of : List SstableMetadata → List (List ℕ)
files_of tables = map (λ (meta : SstableMetadata). meta.file) tables

-- The bytes of the files, which are fuel enough for a merge: a round takes an entry.
unfoldable pub bytes_of : List (List ℕ) → ℕ
bytes_of [] = 0
bytes_of (file ∷ files) = length file + bytes_of files

module _ (heap : Heap) (checksum : Text → ℕ) where
  -- performMerge and commitCompaction, with the number in the name of the new file.
  unfoldable pub execute_compaction : ℕ → List SstableMetadata → SystemState → Option SystemState
  unfolding merge_iterators add_to_level_one bytes_of
  execute_compaction id tables st =
      elim (merge_iterators next heap (bytes_of (files_of tables)) (files_of tables)) [
        | none ↦ none
        | some entries ↦
            let (meta, bloom) = write_sorted_string_table checksum id entries st.bloom_filter in
            some (record st { sstables = add_to_level_one meta st.sstables; bloom_filter = bloom })
      ]

  -- checkAndRunCompaction, with LevelZeroCompactionTriggerCount; `none` if the fuel is used up.
  unfoldable pub check_and_run_compaction : ℕ → ℕ → SystemState → Option SystemState
  unfolding execute_compaction
  check_and_run_compaction trigger id st = elim st.sstables [
    | [] ↦ some st
    | level ∷ levels ↦
        if ltb (length level) trigger
        then some st
        else execute_compaction id level (record st { sstables = [] ∷ levels })
  ]
