-- ===== src/Server/Store/Tables.antt =====
-- The tables on disk: how many stand in level 0, and which steps of the store leave them alone.
use sndv_kv.Prelude.{
  ℕ, ◌+◌, ◌≡◌, refl, ◌≤◌, Text, Bool-cases, inl, inr, List, [], ◌∷◌, ◌++◌, length, arith,
}
use sndv_kv.Server.Memory.{MemoryTable}
use sndv_kv.Server.Sstable.{SstableMetadata}
use sndv_kv.Server.Wal.{Entry}
use sndv_kv.Server.Store.{
  SystemState, process_flush, add_to_level_zero, apply_to_mem_table, apply_entries, apply_entry,
  rotate_mem_table, is_full,
}

-- The number of tables in level 0.
unfoldable pub level_zero_count : List (List SstableMetadata) → ℕ
level_zero_count [] = 0
level_zero_count (level ∷ levels) = length level

length-add :
    (level : List SstableMetadata) (meta : SstableMetadata)
    → length (level ++ meta ∷ []) ≡ 1 + length level
length-add [] meta = refl
length-add (t ∷ level) meta = omega (arith, length-add level meta)

add-level_zero_count :
    (hash checksum : Text → ℕ) (meta : SstableMetadata) (levels : List (List SstableMetadata))
    → level_zero_count (add_to_level_zero hash checksum meta levels) ≤ 1 + level_zero_count levels
unfolding level_zero_count add_to_level_zero
add-level_zero_count hash checksum meta [] = omega arith
add-level_zero_count hash checksum meta (level ∷ levels) = omega (arith, length-add level meta)

module _ (hash checksum : Text → ℕ) where
  pub process_flush-count :
      (id : ℕ) (st : SystemState) (tables : List MemoryTable)
      → st.immutable_mem ≡ tables
      → level_zero_count (process_flush hash checksum id st).sstables
        ≤ 1 + level_zero_count st.sstables
  unfolding process_flush
  process_flush-count id st [] e = rw (e, process_flush) (omega arith)
  process_flush-count id st (t ∷ tables) e =
      rw (e, process_flush) (add-level_zero_count hash checksum _ st.sstables)

  pub apply_to_mem_table-sstables :
      (maximum : ℕ) (e : Entry) (st : SystemState)
      → (apply_to_mem_table hash checksum maximum (e ∷ []) st).sstables ≡ st.sstables
  unfolding apply_to_mem_table apply_entries apply_entry rotate_mem_table
  apply_to_mem_table-sstables maximum e st =
      elim (Bool-cases (is_full hash checksum maximum (apply_entry hash checksum e st).mem_table)) [
        | inl full ↦ rw full refl
        | inr other ↦ rw other refl
      ]
