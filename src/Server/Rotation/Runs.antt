-- ===== src/Server/Rotation/Runs.antt =====
-- Batches and flushes keep a log for each memory table.
use sndv_kv.Prelude.{
  ℕ, ◌≡◌, refl, sym, ap, ◌∙◌, inl, inr, Text, Bool, true, false, Bool-cases, List, [], ◌∷◌, All,
}
use mathlib.Core.Path.{subst}
use sndv_kv.Server.Wal.{write_batch}
use sndv_kv.Server.Memory.{MemoryTable, new_memory_table}
use sndv_kv.Server.Store.{SystemState, apply_entries, rotate_mem_table, is_full, process_flush}
use sndv_kv.Server.Ingestion.{IngestReq, prepare_entries, applied_entries}
use sndv_kv.Server.Ingestion.Restart.{IsShortReq}
use sndv_kv.Server.Rotation.{
  DiskWal, Node, rotate_wal, without_first, Step, batch_step, flush_step, process_batch, flush,
  run_steps,
}
use sndv_kv.Server.Rotation.Logged.{
  Paired, Paired-snoc, Paired-map, Logged, Recovers, Holds, Holds-Recovers, immutable-apply_entries,
  new-Holds, batch-Holds,
}

-- Steps whose batches are short, and where every new log can be opened.
abbrev pub IsOpened : Step → Type 0
IsOpened (batch_step now accepts opens batch) = (opens ≡ true) × All IsShortReq batch
IsOpened (flush_step id) = Unit

module _ (hash checksum : Text → ℕ) (path : Text) (maximum : ℕ) where
  abbrev Held : Node → Type 0
  Held n = Logged (Holds hash checksum) n

  process_batch-Logged :
      (now : ℕ) (accepts : Bool) (batch : List IngestReq) (n : Node)
      → All IsShortReq batch
      → Held n
      → Held (process_batch hash checksum path maximum now accepts true batch n)
  unfolding process_batch rotate_mem_table rotate_wal
  process_batch-Logged now accepts [] n short h = h
  process_batch-Logged now false (req ∷ batch) n short h = h
  process_batch-Logged now true (req ∷ batch) n short h =
      let applied : SystemState =
        apply_entries hash checksum (applied_entries now (req ∷ batch)) n.state in
      let wal : DiskWal = record n.active_wal {
        content = write_batch n.active_wal.content (prepare_entries now (req ∷ batch));
      } in
      let active : Holds hash checksum applied.mem_table wal =
        batch-Holds hash checksum now (req ∷ batch) n.state n.active_wal short h.active in
      let frozen : Paired (Holds hash checksum) applied.immutable_mem n.frozen_wals =
        subst (λ ts. Paired (Holds hash checksum) ts n.frozen_wals)
          (sym (immutable-apply_entries hash checksum (applied_entries now (req ∷ batch)) n.state))
          h.frozen in
      elim (Bool-cases (is_full hash checksum maximum applied.mem_table)) [
        | inl full ↦ rw full (record {
          active = new-Holds hash checksum _;
          frozen =
              Paired-snoc (Holds hash checksum) applied.immutable_mem n.frozen_wals
                applied.mem_table wal frozen active;
        })
        | inr room ↦ rw room (record { active = active; frozen = frozen })
      ]

  without_first_lem :
      (P : MemoryTable → DiskWal → Type 0) (table : MemoryTable) (tables : List MemoryTable)
      (wals : List DiskWal)
      → Paired P (table ∷ tables) wals
      → Paired P tables (without_first wals)
  unfolding without_first
  without_first_lem P table tables [] h = absurd h
  without_first_lem P table tables (w ∷ wals) h = h.1

  flush-waits :
      (id : ℕ) (n : Node) → n.state.immutable_mem ≡ [] → flush hash checksum path maximum id n ≡ n
  unfolding flush
  flush-waits id n e =
      let same : n ≡ record n { state = record n.state { immutable_mem = [] } } =
        ap (λ (ts : List MemoryTable). record n { state = record n.state { immutable_mem = ts } })
          e in
      ap (flush hash checksum path maximum id) same ∙ sym same

  flushed_tables :
      (id : ℕ) (st : SystemState) (table : MemoryTable) (tables : List MemoryTable)
      → st.immutable_mem ≡ table ∷ tables
      → ((process_flush hash checksum id st).mem_table ≡ st.mem_table)
        × ((process_flush hash checksum id st).immutable_mem ≡ tables)
  unfolding process_flush
  flushed_tables id st table tables e = rw (e, process_flush) (refl, refl)

  flush-Logged :
      (id : ℕ) (n : Node) (waiting : List MemoryTable)
      → n.state.immutable_mem ≡ waiting
      → Held n
      → Held (flush hash checksum path maximum id n)
  unfolding flush
  flush-Logged id n [] e h = subst Held (sym (flush-waits id n e)) h
  flush-Logged id n (table ∷ tables) e h =
      let (kept, rest) = flushed_tables id n.state table tables e in
      let paired : Paired (Holds hash checksum) (table ∷ tables) n.frozen_wals =
        subst (λ ts. Paired (Holds hash checksum) ts n.frozen_wals) e h.frozen in
      rw (e, flush)
        (record {
          active = subst (λ t. Holds hash checksum t n.active_wal) (sym kept) h.active;
          frozen =
              subst (λ ts. Paired (Holds hash checksum) ts (without_first n.frozen_wals)) (sym rest)
                (without_first_lem (Holds hash checksum) table tables n.frozen_wals paired);
        })

  run_steps-Held :
      (steps : List Step) (n : Node)
      → All IsOpened steps
      → Held n
      → Held (run_steps hash checksum path maximum steps n)
  unfolding run_steps
  run_steps-Held [] n opened h = h
  run_steps-Held (batch_step now accepts opens batch ∷ steps) n opened h =
      run_steps-Held steps _ opened.1 (
        subst (λ b. Held (process_batch hash checksum path maximum now accepts b batch n))
          (sym opened.0.0) (process_batch-Logged now accepts batch n opened.0.1 h))
  run_steps-Held (flush_step id ∷ steps) n opened h =
      run_steps-Held steps _ opened.1 (flush-Logged id n n.state.immutable_mem refl h)

  -- From a server without entries and with an empty log, with durability on: after any batches, taken by
  -- the log or not, whose keys and values are shorter than 4 GiB, and rounds of the flush agent, where
  -- every new log can be opened, the active log and the frozen ones belong to the memory table and the
  -- immutable ones, in order. A replay of each reaches its end, and gives for every key the entry of its
  -- table, with zeros for the bytes of its value.
  pub run_steps-Logged :
      (steps : List Step) (st : SystemState)
      → All IsOpened steps
      → st.mem_table ≡ new_memory_table
      → st.immutable_mem ≡ []
      → Logged (Recovers hash checksum) (
          run_steps hash checksum path maximum steps (record {
            state = st;
            active_wal = record { path = path; content = [] };
            frozen_wals = [];
          }))
  run_steps-Logged steps st opened new none_waits =
      let start : Node = record {
        state = st;
        active_wal = record { path = path; content = [] };
        frozen_wals = [];
      } in
      let held : Held start = record {
        active =
            subst (λ t. Holds hash checksum t start.active_wal) (sym new)
              (new-Holds hash checksum path);
        frozen = subst (λ ts. Paired (Holds hash checksum) ts []) (sym none_waits) tt;
      } in
      let h = run_steps-Held steps start opened held in
      record {
        active = Holds-Recovers hash checksum _ _ h.active;
        frozen =
            Paired-map (Holds hash checksum) (Recovers hash checksum) _ _
              (Holds-Recovers hash checksum) h.frozen;
      }
