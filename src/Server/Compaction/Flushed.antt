-- ===== src/Server/Compaction/Flushed.antt =====
-- The tables that the flush agent writes are as the compaction needs them.
use sndv_kv.Prelude.{
  ℕ, ◌≡◌, refl, sym, ap, ◌∙◌, inl, inr, Text, text_eq, text_eq_iff, true, false, Bool-cases, List,
  [], ◌∷◌, ◌++◌, none, All, arith,
}
use mathlib.Core.Path.{subst}
use sndv_kv.Server.Wal.{Entry}
use sndv_kv.Server.Wal.Recovery.{Fits}
use sndv_kv.Server.Memory.{MemoryTable, find_entry, dump_to_slice}
use sndv_kv.Server.Memory.Lookups.{Distinct, Distinct-dump_to_slice}
use sndv_kv.Server.Sstable.{SstableMetadata, encode_rows, write_sorted_string_table}
use sndv_kv.Server.Store.{
  SystemState, text_lt, insert_by_key, sort_by_key, add_to_level_zero, process_flush, flush_rounds,
}
use sndv_kv.Server.Store.Sorting.{sort_lem, All-insert_by_key, All-sort_by_key}
use sndv_kv.Server.Store.Views.{IsSound, dump_to_slice-Fits}
use sndv_kv.Server.Store.Steps.{process_flush-waits, process_flush_lem, searchable, written}
use sndv_kv.Server.Store.Contents.{Contents, Refines, Refines-process_flush}
use sndv_kv.Server.Compaction.Order.{Ascending, All-map, text_lt_of_ne, text_lt_trans}
use sndv_kv.Server.Compaction.Reads.{IsTable, AreTables}

Ascending-insert_by_key :
    (e : Entry) (es : List Entry)
    → find_entry e.key es ≡ none
    → Ascending es
    → Ascending (insert_by_key e es)
unfolding insert_by_key find_entry
Ascending-insert_by_key e [] fresh h = (tt, tt)
Ascending-insert_by_key e (d ∷ es) fresh h =
    let apart : text_eq d.key e.key ≡ false = ground (arith, fresh) in
    elim (Bool-cases (text_lt d.key e.key)) [
      | inl after ↦ rw after (
        All-insert_by_key (λ x. text_lt d.key x.key ≡ true) e es after h.0,
        Ascending-insert_by_key e es (rw apart at fresh) h.1,
      )
      | inr not_after ↦
          let other : text_eq e.key d.key ≡ false =
            ground (arith, apart, text_eq_iff e.key d.key, text_eq_iff d.key e.key) in
          let before : text_lt e.key d.key ≡ true = text_lt_of_ne e.key d.key not_after other in
          rw not_after
            ((before, All-map (λ x below. text_lt_trans e.key d.key x.key before below) es h.0), h)
    ]

Ascending-sort_by_key : (es : List Entry) → Distinct es → Ascending (sort_by_key es)
unfolding sort_by_key
Ascending-sort_by_key [] h = tt
Ascending-sort_by_key (e ∷ es) h =
    Ascending-insert_by_key e (sort_by_key es) ((sort_lem es h.1).1 e.key ∙ h.0)
      (Ascending-sort_by_key es h.1)

AreTables-snoc :
    (lists : List (List Entry)) (level : List SstableMetadata) (es : List Entry)
    (meta : SstableMetadata)
    → AreTables lists level
    → IsTable es meta
    → AreTables (lists ++ es ∷ []) (level ++ meta ∷ [])
AreTables-snoc [] [] es meta h t = (t, tt)
AreTables-snoc (ds ∷ lists) (m ∷ level) es meta h t =
    (h.0, AreTables-snoc lists level es meta h.1 t)
AreTables-snoc [] (m ∷ level) es meta h t = absurd h
AreTables-snoc (ds ∷ lists) [] es meta h t = absurd h

-- A state whose level 0 was written of entries in strict order of their keys.
pub record HasTables (st : SystemState) : Type 0 where
  pub lists : List (List Entry)
  pub level : List SstableMetadata
  pub levels : List (List SstableMetadata)
  pub is_level : st.sstables ≡ level ∷ levels
  pub tables : AreTables lists level

file_lem :
    (checksum : Text → ℕ) (id : ℕ) (es : List Entry) (st : SystemState)
    → (write_sorted_string_table checksum id es st.bloom_filter).0.file ≡ encode_rows es
unfolding write_sorted_string_table
file_lem checksum id es st = refl

module _ (hash checksum : Text → ℕ) where
  level_lem :
      (meta : SstableMetadata) (level : List SstableMetadata) (levels : List (List SstableMetadata))
      → add_to_level_zero hash checksum meta (level ∷ levels) ≡ (level ++ meta ∷ []) ∷ levels
  unfolding add_to_level_zero
  level_lem meta level levels = refl

  HasTables-flushed :
      (id : ℕ) (st : SystemState) (m : Contents) (waiting : List MemoryTable)
      → st.immutable_mem ≡ waiting
      → Refines hash checksum st m
      → HasTables st
      → HasTables (process_flush hash checksum id st)
  HasTables-flushed id st m [] e r h =
      subst HasTables (sym (process_flush-waits hash checksum id st e)) h
  HasTables-flushed id st m (table ∷ waiting) e r h =
      let sounds : All (IsSound hash checksum) (table ∷ waiting) = rw e at r.sound_immutable in
      let es : List Entry = sort_by_key (dump_to_slice table) in
      let s = searchable hash checksum id st table waiting e sounds.0 r.visible in
      let new : SstableMetadata =
        (written hash checksum id st table waiting e sounds.0 r.visible).0 in
      let is_table : IsTable es new = record {
        file = file_lem checksum id es st;
        found = s.found;
        fits =
            All-sort_by_key Fits (dump_to_slice table)
              (dump_to_slice-Fits hash checksum table sounds.0);
        ascending =
            Ascending-sort_by_key (dump_to_slice table)
              (Distinct-dump_to_slice hash table sounds.0.placed);
      } in
      rw (process_flush_lem hash checksum id st table waiting e sounds.0 r.visible) (record {
        lists = h.lists ++ es ∷ [];
        level = h.level ++ new ∷ [];
        levels = h.levels;
        is_level =
            ap (add_to_level_zero hash checksum new) h.is_level ∙ level_lem new h.level h.levels;
        tables = AreTables-snoc h.lists h.level es new h.tables is_table;
      })

  -- From a state that stands for a map, whose tables of level 0 were written of entries in strict order
  -- of their keys that fit the format, any rounds of the flush agent lead to such a state: they hold
  -- what a compaction needs of the files of level 0.
  pub flush_rounds-HasTables :
      (ids : List ℕ) (st : SystemState) (m : Contents)
      → Refines hash checksum st m
      → HasTables st
      → HasTables (flush_rounds hash checksum ids st)
  unfolding flush_rounds
  flush_rounds-HasTables [] st m r h = h
  flush_rounds-HasTables (id ∷ ids) st m r h =
      flush_rounds-HasTables ids _ m (Refines-process_flush hash checksum id st m r)
        (HasTables-flushed id st m st.immutable_mem refl r h)
