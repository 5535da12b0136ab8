-- ===== src/Server/Rotation.antt =====
-- The log files: `processBatch` and `rotateWal` of internal/agents/ingestion.go, `rotateFrozenWal` of
-- internal/agents/flush_agent.go, with durability on.
pub mod Logged
pub mod Runs
use sndv_kv.Prelude.{ℕ, Text, text, Bool, true, false, List, [], ◌∷◌, ◌++◌, decimal, if◌then◌else◌}
use sndv_kv.Server.Wal.{write_batch}
use sndv_kv.Server.Memory.{MemoryTable}
use sndv_kv.Server.Store.{SystemState, apply_entries, rotate_mem_table, is_full, process_flush}
use sndv_kv.Server.Ingestion.{IngestReq, prepare_entries, applied_entries}

-- DiskWAL, with the bytes of its file.
pub record DiskWal : Type 0 where
  pub path : Text
  pub content : List ℕ

-- The state with its logs, the oldest frozen one first.
pub record Node : Type 0 where
  pub state : SystemState
  pub active_wal : DiskWal
  pub frozen_wals : List DiskWal

-- rotateWal, at a time in nanoseconds: a file of that name is new. If it cannot be opened, the log
-- stays.
unfoldable pub rotate_wal : Text → ℕ → Bool → Node → Node
unfolding decimal
rotate_wal path now opens n =
    if opens
    then record n {
      active_wal = record { path = path ++ (text "." ++ decimal now); content = [] };
      frozen_wals = n.frozen_wals ++ n.active_wal ∷ [];
    }
    else n

unfoldable pub without_first : List DiskWal → List DiskWal
without_first [] = []
without_first (wal ∷ wals) = wals

-- A batch at a time, whether the active log takes it, and whether a new log can be opened; a round of
-- the flush agent with the number of its file.
pub data Step : Type 0 where
  batch_step : ℕ → Bool → Bool → List IngestReq → Step
  flush_step : ℕ → Step

module _ (hash checksum : Text → ℕ) (path : Text) (maximum : ℕ) where
  -- processBatch, with the configured path of the log and MaximumMemtableSizeInBytes.
  unfoldable pub process_batch : ℕ → Bool → Bool → List IngestReq → Node → Node
  unfolding prepare_entries applied_entries rotate_wal
  process_batch now accepts opens [] n = n
  process_batch now accepts opens (req ∷ batch) n =
      if accepts
      then (let applied = apply_entries hash checksum (applied_entries now (req ∷ batch)) n.state in
          let content = write_batch n.active_wal.content (prepare_entries now (req ∷ batch)) in
          let n' = record n {
            state = applied;
            active_wal = record n.active_wal { content = content };
          } in
          if is_full hash checksum maximum applied.mem_table
          then rotate_wal path now opens
              (record n' { state = rotate_mem_table hash checksum applied })
          else n')
      else n

  -- processFlush with rotateFrozenWal, which deletes the file of the oldest frozen log.
  unfoldable pub flush : ℕ → Node → Node
  unfolding without_first
  flush id n = elim n.state.immutable_mem [
    | [] ↦ n
    | table ∷ tables ↦ record n {
      state = process_flush hash checksum id n.state;
      frozen_wals = without_first n.frozen_wals;
    }
  ]

  unfoldable pub run_steps : List Step → Node → Node
  unfolding process_batch flush
  run_steps [] n = n
  run_steps (batch_step now accepts opens batch ∷ steps) n =
      run_steps steps (process_batch now accepts opens batch n)
  run_steps (flush_step id ∷ steps) n = run_steps steps (flush id n)
