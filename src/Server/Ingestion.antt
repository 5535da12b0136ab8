-- ===== src/Server/Ingestion.antt =====
-- `processBatch` of internal/agents/ingestion.go with one log, and `recoverWal` of
-- cmd/server/main.go.
pub mod Restart
use sndv_kv.Prelude.{
  ℕ, ◌+◌, ◌*◌, ◌%◌, ℤ, pos, negsuc, Text, Bool, true, false, not, List, [], ◌∷◌, map, length,
  replicate, ltb, ◌&&◌, if◌then◌else◌,
}
use sndv_kv.Server.Wal.{Entry, write_batch, End, complete, replay}
use sndv_kv.Server.Memory.{put}
use sndv_kv.Server.Store.{SystemState, apply_to_mem_table}

pub record IngestReq : Type 0 where
  pub key : Text
  pub val : Text
  pub ttl : ℤ
  pub is_deleted : Bool

-- The 64 bits of `exp`, at the time `now` in nanoseconds.
unfoldable pub expiry_of : ℕ → ℤ → ℕ
expiry_of now (pos n) = if ltb 0 n then (now + n * 1000000000) % 18446744073709551616 else 0
expiry_of now (negsuc n) = 0

-- createEntry: the copy of the value into the new buffer is commented out.
unfoldable pub create_entry : ℕ → IngestReq → Entry
unfolding expiry_of
create_entry now req = record {
  key = req.key;
  value = replicate (length req.val) 0;
  expiry_timestamp = expiry_of now req.ttl;
  is_deleted = req.is_deleted;
}

-- prepareEntries
unfoldable pub prepare_entries : ℕ → List IngestReq → List Entry
unfolding create_entry
prepare_entries now [] = []
prepare_entries now (req ∷ batch) = create_entry now req ∷ prepare_entries now batch

-- The arguments of `Put` in applyToMemTable.
unfoldable pub applied_entries : ℕ → List IngestReq → List Entry
unfolding create_entry
applied_entries now [] = []
applied_entries now (req ∷ batch) =
    record (create_entry now req) { value = req.val } ∷ applied_entries now batch

-- The state with the bytes of the active log.
pub record Server : Type 0 where
  pub state : SystemState
  pub log : List ℕ

module _ (hash checksum : Text → ℕ) where
  -- processBatch, and whether the callers are told that it succeeded. `durable` is
  -- EnableDiskDurability, and `accepts` says whether the file takes the buffer: if not, it stays as
  -- it was. The rotation of the log is in Server/Rotation.
  unfoldable pub process_batch : Bool → Bool → ℕ → ℕ → List IngestReq → Server → Bool × Server
  unfolding prepare_entries applied_entries
  process_batch durable accepts maximum now [] s = (true, s)
  process_batch durable accepts maximum now (req ∷ batch) s =
      if durable && not accepts then (false, s) else (
        true,
        record {
          state =
              apply_to_mem_table hash checksum maximum (applied_entries now (req ∷ batch)) s.state;
          log = if durable then write_batch s.log (prepare_entries now (req ∷ batch)) else s.log;
        },
      )

  -- The callback, for each entry of the log.
  unfoldable pub put_entries : List Entry → SystemState → SystemState
  put_entries [] st = st
  put_entries (e ∷ es) st = put_entries es (record st { mem_table = put hash e st.mem_table })

  -- recoverWal, for a log that can be opened; how the replay ended is its error.
  unfoldable pub recover_wal : Bool → List ℕ → SystemState → End × SystemState
  unfolding put_entries
  recover_wal durable log st =
      let r = replay log in if durable then (r.1, put_entries r.0 st) else (complete, st)
