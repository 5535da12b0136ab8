-- ===== src/Server/Store/Flushing.antt =====
-- Enough rounds of the flush agent write every memory table that waits.
use sndv_kv.Prelude.{ℕ, ◌-◌, ◌≡◌, ◌≤◌, refl, sym, ◌∙◌, ap, Text, List, [], ◌∷◌, length, arith}
use sndv_kv.Server.Memory.{MemoryTable}
use sndv_kv.Server.Store.{SystemState, find_and_serve, process_flush, flush_rounds}
use sndv_kv.Server.Store.Contents.{Contents, seen, Refines, Refines-process_flush}
use sndv_kv.Server.Store.Reads.{find_and_serve-Served}

no_tables : (tables : List MemoryTable) → length tables ≤ 0 → tables ≡ []
no_tables [] h = refl
no_tables (t ∷ tables) h = absurd (omega arith)

module _ (hash checksum : Text → ℕ) where
  pub Refines-flush_rounds :
      (ids : List ℕ) (st : SystemState) (m : Contents)
      → Refines hash checksum st m
      → Refines hash checksum (flush_rounds hash checksum ids st) m
  unfolding flush_rounds
  Refines-flush_rounds [] st m h = h
  Refines-flush_rounds (id ∷ ids) st m h =
      Refines-flush_rounds ids _ m (Refines-process_flush hash checksum id st m h)

  length-process_flush :
      (id : ℕ) (st : SystemState) (tables : List MemoryTable)
      → st.immutable_mem ≡ tables
      → length (process_flush hash checksum id st).immutable_mem ≡ length tables - 1
  unfolding process_flush
  length-process_flush id st [] e = rw (e, process_flush) (ap length e)
  length-process_flush id st (t ∷ tables) e = rw (e, process_flush) (omega arith)

  flush_rounds-empty :
      (ids : List ℕ) (st : SystemState)
      → length st.immutable_mem ≤ length ids
      → (flush_rounds hash checksum ids st).immutable_mem ≡ []
  unfolding flush_rounds
  flush_rounds-empty [] st h = no_tables st.immutable_mem h
  flush_rounds-empty (id ∷ ids) st h =
      flush_rounds-empty ids (process_flush hash checksum id st)
        (omega (arith, length-process_flush id st st.immutable_mem refl))

  -- From a state that stands for a map, as many rounds of the flush agent as there are immutable
  -- memory tables, or more, leave none of them, and every read then shows what it showed before.
  pub flush_rounds-drained :
      (ids : List ℕ) (st : SystemState) (m : Contents)
      → Refines hash checksum st m
      → length st.immutable_mem ≤ length ids
      → ((flush_rounds hash checksum ids st).immutable_mem ≡ [])
        × ((now : ℕ) (k : Text)
            → seen (find_and_serve hash checksum now k (flush_rounds hash checksum ids st)).0
              ≡ seen (find_and_serve hash checksum now k st).0)
  flush_rounds-drained ids st m h enough = (
    flush_rounds-empty ids st enough,
    λ now k.
        (find_and_serve-Served hash checksum now k _ m (Refines-flush_rounds ids st m h)).0
        ∙ sym (find_and_serve-Served hash checksum now k st m h).0,
  )
