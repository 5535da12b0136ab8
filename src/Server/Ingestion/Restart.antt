-- ===== src/Server/Ingestion/Restart.antt =====
-- What is left of a batch after the server is started again.
use sndv_kv.Prelude.{
  ℕ, zero, suc, ◌≡◌, refl, sym, ap, ◌∙◌, ◌<◌, inl, inr, ℤ, pos, negsuc, Text, text_eq, Bool, true,
  false, Bool-cases, List, [], ◌∷◌, Option, none, some, All, length, replicate, arith,
  if◌then◌else◌,
}
use sndv_kv.Server.Wal.{Entry, write_batch, encode_all, complete, replay}
use sndv_kv.Server.Wal.Recovery.{Fits, replay-write_batch}
use sndv_kv.Server.Memory.{put}
use sndv_kv.Server.Memory.Lookups.{get-put}
use sndv_kv.Server.Sstable.{first_of}
use sndv_kv.Server.Store.{
  SystemState, newest_entry, apply_entry, apply_entries, apply_to_mem_table, is_full,
}
use sndv_kv.Server.Store.Steps.{newest-apply_entry, newest-rotate_mem_table}
use sndv_kv.Server.Ingestion.{
  IngestReq, expiry_of, create_entry, prepare_entries, applied_entries, Server, process_batch,
  put_entries, recover_wal,
}

-- The last of the entries with a key, or else the one before them.
unfoldable pub latest : Text → List Entry → Option Entry → Option Entry
latest k [] o = o
latest k (e ∷ es) o = latest k es (if text_eq e.key k then some e else o)

-- An entry with zeros for the bytes of its value.
abbrev pub zeroed : Entry → Entry
zeroed e = record e { value = replicate (length e.value) 0 }

abbrev pub zeroed_if_some : Option Entry → Option Entry
zeroed_if_some none = none
zeroed_if_some (some e) = some (zeroed e)

length-replicate : (n b : ℕ) → length (replicate n b) ≡ n
length-replicate zero b = refl
length-replicate (suc n) b = ap suc (length-replicate n b)

expiry_of-lt : (now : ℕ) (ttl : ℤ) → expiry_of now ttl < 18446744073709551616
unfolding expiry_of
expiry_of-lt now (pos n) = ground arith
expiry_of-lt now (negsuc n) = omega arith

-- Lengths that the format of the log holds.
abbrev pub IsShortReq : IngestReq → Type 0
IsShortReq req = (length req.key < 4294967296) × (length req.val < 4294967296)

pub prepare_entries-Fits :
    (now : ℕ) (batch : List IngestReq) → All IsShortReq batch → All Fits (prepare_entries now batch)
unfolding prepare_entries create_entry
prepare_entries-Fits now [] h = tt
prepare_entries-Fits now (req ∷ batch) h = (
  record {
    key = h.0.0;
    value = rw (length-replicate (length req.val) 0) h.0.1;
    expiry = expiry_of-lt now req.ttl;
  },
  prepare_entries-Fits now batch h.1,
)

zeroed_choice :
    (b : Bool) (e : Entry) (o : Option Entry)
    → zeroed_if_some (if b then some e else o) ≡ (if b then some (zeroed e) else zeroed_if_some o)
zeroed_choice true e o = refl
zeroed_choice false e o = refl

-- The log has the entries of the batch, with zeros for their values.
pub latest-prepared :
    (k : Text) (now : ℕ) (batch : List IngestReq) (o : Option Entry)
    → latest k (prepare_entries now batch) (zeroed_if_some o)
      ≡ zeroed_if_some (latest k (applied_entries now batch) o)
unfolding latest prepare_entries applied_entries create_entry
latest-prepared k now [] o = refl
latest-prepared k now (req ∷ batch) o =
    let e : Entry = record (create_entry now req) { value = req.val } in
    ap (latest k (prepare_entries now batch)) (sym (zeroed_choice (text_eq req.key k) e o))
    ∙ latest-prepared k now batch (if text_eq req.key k then some e else o)

pub replay_once : (es : List Entry) → All Fits es → replay (write_batch [] es) ≡ (es, complete)
unfolding write_batch encode_all
replay_once es fits = replay-write_batch [] es fits

module _ (hash checksum : Text → ℕ) where
  newest-apply_entries :
      (k : Text) (es : List Entry) (st : SystemState)
      → newest_entry hash checksum k (apply_entries hash checksum es st)
        ≡ latest k es (newest_entry hash checksum k st)
  unfolding apply_entries latest
  newest-apply_entries k [] st = refl
  newest-apply_entries k (e ∷ es) st =
      newest-apply_entries k es (apply_entry hash checksum e st)
      ∙ ap (latest k es) (newest-apply_entry hash checksum k e st)

  pub newest-apply_to_mem_table :
      (maximum : ℕ) (k : Text) (es : List Entry) (st : SystemState)
      → newest_entry hash checksum k (apply_to_mem_table hash checksum maximum es st)
        ≡ latest k es (newest_entry hash checksum k st)
  unfolding apply_to_mem_table
  newest-apply_to_mem_table maximum k es st =
      let applied : SystemState = apply_entries hash checksum es st in
      elim (Bool-cases (is_full hash checksum maximum applied.mem_table)) [
        | inl full ↦
            rw full (newest-rotate_mem_table hash checksum k applied ∙ newest-apply_entries k es st)
        | inr room ↦ rw room (newest-apply_entries k es st)
      ]

  newest-put :
      (k : Text) (e : Entry) (st : SystemState)
      → newest_entry hash checksum k (record st { mem_table = put hash e st.mem_table })
        ≡ (if text_eq e.key k then some e else newest_entry hash checksum k st)
  unfolding newest_entry first_of
  newest-put k e st = ground (arith, get-put hash k e st.mem_table)

  newest-put_entries :
      (k : Text) (es : List Entry) (st : SystemState)
      → newest_entry hash checksum k (put_entries hash checksum es st)
        ≡ latest k es (newest_entry hash checksum k st)
  unfolding put_entries latest
  newest-put_entries k [] st = refl
  newest-put_entries k (e ∷ es) st =
      newest-put_entries k es (record st { mem_table = put hash e st.mem_table })
      ∙ ap (latest k es) (newest-put k e st)

  -- The server after a batch that its log takes.
  abbrev pub after : ℕ → ℕ → List IngestReq → SystemState → Server
  after maximum now batch st =
      (process_batch hash checksum true true maximum now batch (record { state = st; log = [] })).1

  module _ (maximum now : ℕ) (req : IngestReq) (batch : List IngestReq) (st : SystemState)
      (short : All IsShortReq (req ∷ batch))
      (fresh : (k : Text) → newest_entry hash checksum k st ≡ none) where
    log_lem :
        replay (after maximum now (req ∷ batch) st).log
        ≡ (prepare_entries now (req ∷ batch), complete)
    unfolding process_batch
    log_lem =
        replay_once (prepare_entries now (req ∷ batch))
          (prepare_entries-Fits now (req ∷ batch) short)

    state_lem :
        (k : Text)
        → newest_entry hash checksum k (after maximum now (req ∷ batch) st).state
          ≡ latest k (applied_entries now (req ∷ batch)) (newest_entry hash checksum k st)
    unfolding process_batch
    state_lem k = newest-apply_to_mem_table maximum k (applied_entries now (req ∷ batch)) st

    -- A batch on a server without entries, with durability on and a log that takes it, whose keys
    -- and values are shorter than 4 GiB: when the server is started again with that log, the replay
    -- reaches its end, and a search then finds for every key the entry that it found before, with
    -- its key, expiry and tombstone, but with zeros for all the bytes of its value.
    pub process_batch-restart :
        ((recover_wal hash checksum true (after maximum now (req ∷ batch) st).log st).0 ≡ complete)
        × ((k : Text)
            → newest_entry hash checksum k
                (recover_wal hash checksum true (after maximum now (req ∷ batch) st).log st).1
              ≡ zeroed_if_some
                  (newest_entry hash checksum k (after maximum now (req ∷ batch) st).state))
    unfolding recover_wal
    process_batch-restart = (
      ap (λ r. r.1) log_lem,
      λ k.
          let logged : List Entry = prepare_entries now (req ∷ batch) in
          let put_lem : newest_entry hash checksum k
                (put_entries hash checksum (replay (after maximum now (req ∷ batch) st).log).0 st)
              ≡ latest k logged none =
            ap (λ r. newest_entry hash checksum k (put_entries hash checksum r.0 st)) log_lem
            ∙ newest-put_entries k logged st
            ∙ ap (latest k logged) (fresh k) in
          put_lem
          ∙ latest-prepared k now (req ∷ batch) none
          ∙ ap zeroed_if_some
              (sym (state_lem k ∙ ap (latest k (applied_entries now (req ∷ batch))) (fresh k))),
    )
