-- ===== src/Tests/Store.antt =====
-- The theorems about the server's tables, with hash functions that add up the bytes.
use sndv_kv.Prelude.{
  ℕ, ◌+◌, ◌≡◌, refl, pos, Text, text, text_eq, true, false, List, [], ◌∷◌, none, some, All, arith,
  length, ◌≤◌,
}
use sndv_kv.Server.Wal.{Entry, complete}
use sndv_kv.Server.Memory.{get}
use sndv_kv.Server.Sstable.{first_of}
use sndv_kv.Server.Store.{
  SystemState, newest_entry, find_newest, search_levels, rotate_mem_table, apply_entry,
  flush_rounds, find_and_serve,
}
use sndv_kv.Server.Store.Contents.{
  assign, seen, Refines, Refines-apply_entry, Refines-rotate_mem_table,
}
use sndv_kv.Server.Store.Flushing.{flush_rounds-drained}
use sndv_kv.Server.Ingestion.{IngestReq, recover_wal}
use sndv_kv.Server.Ingestion.Restart.{after, zeroed_if_some, process_batch-restart}
use sndv_kv.Server.Wal.Recovery.{Fits}
use sndv_kv.Server.Memory.{find_entry}
use sndv_kv.Server.Memory.Lookups.{Distinct}
use sndv_kv.Server.Bloom.{SharedBloomFilter}
use sndv_kv.Server.Sstable.Search.{Searchable, write-Searchable}
use sndv_kv.Server.Store.Refinement.{
  Command, write_value, remove_value, read_value, flush_table, answers, map_answers, IsShort,
  new_system_state, new_system_state-Refines, entry_of, answers-map_answers,
}

abbrev pub sum : Text → ℕ
sum [] = 0
sum (c ∷ s) = c + sum s

abbrev pub no_bits : SharedBloomFilter
no_bits = record { bits = λ shard b. false; hash_count = 7; shard_size = 512 }

-- Each write fills the memory table, which is then flushed.
abbrev commands : List Command
commands =
    write_value (text "a") (text "1")
    ∷ read_value 5 (text "a")
    ∷ write_value (text "b") (text "2")
    ∷ flush_table 17
    ∷ remove_value (text "b")
    ∷ flush_table 18
    ∷ read_value 6 (text "a")
    ∷ read_value 7 (text "b")
    ∷ []

commands-IsShort : All (IsShort) commands
commands-IsShort = ground arith

answers-map_answers_example :
    answers sum sum 1 commands (new_system_state no_bits 2) ≡ map_answers commands (λ _. none)
answers-map_answers_example = answers-map_answers sum sum 1 commands no_bits 2 commands-IsShort

commands_test : map_answers commands (λ _. none) ≡ some (text "1") ∷ some (text "1") ∷ none ∷ []
unfolding map_answers text_eq
commands_test = refl

abbrev pub rows : List Entry
rows =
    record { key = text "a"; value = text "1"; expiry_timestamp = 0; is_deleted = false }
    ∷ record { key = text "b"; value = []; expiry_timestamp = 9; is_deleted = true }
    ∷ []

pub rows-Distinct : Distinct rows
unfolding find_entry text_eq
rows-Distinct = (refl, (refl, tt))

pub rows-Fits : All Fits rows
rows-Fits = (
  record { key = omega arith; value = omega arith; expiry = omega arith },
  (record { key = omega arith; value = omega arith; expiry = omega arith }, tt),
)

write-Searchable_example : Searchable sum 17 rows no_bits
write-Searchable_example = write-Searchable sum 17 rows no_bits rows-Distinct rows-Fits

abbrev pub request : IngestReq
request = record { key = text "a"; val = text "xyz"; ttl = pos 2; is_deleted = false }

abbrev pub fresh_state : SystemState
fresh_state = new_system_state no_bits 2

fresh_state-empty : (k : Text) → newest_entry sum sum k fresh_state ≡ none
unfolding newest_entry find_newest search_levels first_of get find_entry
fresh_state-empty k = refl

process_batch-restart_example :
    ((recover_wal sum sum true (after sum sum 100 5 (request ∷ []) fresh_state).log fresh_state).0
      ≡ complete)
    × ((k : Text)
        → newest_entry sum sum k
            (recover_wal sum sum true
              (after sum sum 100 5 (request ∷ []) fresh_state).log
              fresh_state).1
          ≡ zeroed_if_some
              (newest_entry sum sum k (after sum sum 100 5 (request ∷ []) fresh_state).state))
process_batch-restart_example =
    process_batch-restart sum sum 100 5 request [] fresh_state ((omega arith, omega arith), tt)
      fresh_state-empty

abbrev pub waiting : SystemState
waiting =
    rotate_mem_table sum sum
      (apply_entry sum sum (entry_of (text "a") (some (text "1"))) fresh_state)

pub waiting-Refines : Refines sum sum waiting (assign (text "a") (some (text "1")) (λ _. none))
waiting-Refines = Refines-rotate_mem_table sum sum _ _ (
    Refines-apply_entry sum sum (entry_of (text "a") (some (text "1"))) fresh_state _
      (record { key = omega arith; value = omega arith; expiry = omega arith }) refl
      (new_system_state-Refines sum sum no_bits 2))

one_waits : length waiting.immutable_mem ≤ 1
unfolding rotate_mem_table apply_entry
one_waits = omega arith

flush_rounds-drained_example :
    ((flush_rounds sum sum (17 ∷ []) waiting).immutable_mem ≡ [])
    × ((now : ℕ) (k : Text)
        → seen (find_and_serve sum sum now k (flush_rounds sum sum (17 ∷ []) waiting)).0
          ≡ seen (find_and_serve sum sum now k waiting).0)
flush_rounds-drained_example =
    flush_rounds-drained sum sum (17 ∷ []) waiting (assign (text "a") (some (text "1")) (λ _. none))
      waiting-Refines one_waits
