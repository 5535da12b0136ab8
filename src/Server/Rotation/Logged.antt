-- ===== src/Server/Rotation/Logged.antt =====
-- What the log files hold of the memory tables.
use sndv_kv.Prelude.{
  ℕ, ◌≡◌, refl, sym, ap, ◌∙◌, Text, text_eq, List, [], ◌∷◌, ◌++◌, Option, none, some, All,
  if◌then◌else◌,
}
use mathlib.Core.List.{append_assoc}
use sndv_kv.Server.Wal.{Entry, encode_all, write_batch, replay, complete}
use sndv_kv.Server.Wal.Recovery.{Fits}
use sndv_kv.Server.Memory.{MemoryTable, new_memory_table, get, find_entry}
use sndv_kv.Server.Memory.Lookups.{get-put}
use sndv_kv.Server.Store.{SystemState, apply_entry, apply_entries}
use sndv_kv.Server.Ingestion.{IngestReq, prepare_entries, applied_entries}
use sndv_kv.Server.Ingestion.Restart.{
  latest, zeroed_if_some, latest-prepared, replay_once, IsShortReq, prepare_entries-Fits,
}
use sndv_kv.Server.Rotation.{DiskWal, Node}

encode_all-append : (es ds : List Entry) → encode_all (es ++ ds) ≡ encode_all es ++ encode_all ds
unfolding encode_all
encode_all-append [] ds = refl
encode_all-append (e ∷ es) ds =
    rw (encode_all-append es ds) (sym (append_assoc _ (encode_all es) (encode_all ds)))

pub latest-append :
    (k : Text) (es ds : List Entry) (o : Option Entry)
    → latest k (es ++ ds) o ≡ latest k ds (latest k es o)
unfolding latest
latest-append k [] ds o = refl
latest-append k (e ∷ es) ds o = latest-append k es ds (if text_eq e.key k then some e else o)

All-append : (P : Entry → Type 0) (es ds : List Entry) → All P es → All P ds → All P (es ++ ds)
All-append P [] ds h g = g
All-append P (e ∷ es) ds h g = (h.0, All-append P es ds h.1 g)

-- Each table with its log.
abbrev pub Paired : (MemoryTable → DiskWal → Type 0) → List MemoryTable → List DiskWal → Type 0
Paired P [] [] = Unit
Paired P (table ∷ tables) (wal ∷ wals) = P table wal × Paired P tables wals
Paired P _ _ = ⊥

pub Paired-snoc :
    (P : MemoryTable → DiskWal → Type 0) (tables : List MemoryTable) (wals : List DiskWal)
    (table : MemoryTable) (wal : DiskWal)
    → Paired P tables wals
    → P table wal
    → Paired P (tables ++ table ∷ []) (wals ++ wal ∷ [])
Paired-snoc P [] [] table wal h p = (p, tt)
Paired-snoc P (t ∷ tables) (w ∷ wals) table wal h p =
    (h.0, Paired-snoc P tables wals table wal h.1 p)
Paired-snoc P [] (w ∷ wals) table wal h p = absurd h
Paired-snoc P (t ∷ tables) [] table wal h p = absurd h

pub Paired-map :
    (P Q : MemoryTable → DiskWal → Type 0) (tables : List MemoryTable) (wals : List DiskWal)
    → ((table : MemoryTable) (wal : DiskWal) → P table wal → Q table wal)
    → Paired P tables wals
    → Paired Q tables wals
Paired-map P Q [] [] f h = tt
Paired-map P Q (t ∷ tables) (w ∷ wals) f h = (f t w h.0, Paired-map P Q tables wals f h.1)
Paired-map P Q [] (w ∷ wals) f h = absurd h
Paired-map P Q (t ∷ tables) [] f h = absurd h

-- The active log belongs to the memory table, and the frozen logs to the immutable ones.
pub record Logged (P : MemoryTable → DiskWal → Type 0) (n : Node) : Type 0 where
  pub active : P n.state.mem_table n.active_wal
  pub frozen : Paired P n.state.immutable_mem n.frozen_wals

module _ (hash checksum : Text → ℕ) where
  -- A replay of the log gives the entries of the table, with zeros for their values.
  pub record Recovers (table : MemoryTable) (wal : DiskWal) : Type 0 where
    pub entries : List Entry
    pub replayed : replay wal.content ≡ (entries, complete)
    pub shows : (k : Text) → latest k entries none ≡ zeroed_if_some (get hash k table)

  pub record Holds (table : MemoryTable) (wal : DiskWal) : Type 0 where
    pub entries : List Entry
    pub content : wal.content ≡ encode_all entries
    pub fits : All Fits entries
    pub shows : (k : Text) → latest k entries none ≡ zeroed_if_some (get hash k table)

  pub Holds-Recovers : (table : MemoryTable) (wal : DiskWal) → Holds table wal → Recovers table wal
  unfolding write_batch
  Holds-Recovers table wal h = record {
    entries = h.entries;
    replayed = ap replay h.content ∙ replay_once h.entries h.fits;
    shows = h.shows;
  }

  get-apply_entries :
      (k : Text) (es : List Entry) (st : SystemState)
      → get hash k (apply_entries hash checksum es st).mem_table
        ≡ latest k es (get hash k st.mem_table)
  unfolding apply_entries apply_entry latest
  get-apply_entries k [] st = refl
  get-apply_entries k (e ∷ es) st =
      get-apply_entries k es (apply_entry hash checksum e st)
      ∙ ap (latest k es) (get-put hash k e st.mem_table)

  pub immutable-apply_entries :
      (es : List Entry) (st : SystemState)
      → (apply_entries hash checksum es st).immutable_mem ≡ st.immutable_mem
  unfolding apply_entries apply_entry
  immutable-apply_entries [] st = refl
  immutable-apply_entries (e ∷ es) st = immutable-apply_entries es (apply_entry hash checksum e st)

  pub new-Holds : (path : Text) → Holds new_memory_table (record { path = path; content = [] })
  unfolding latest get find_entry encode_all
  new-Holds path = record { entries = []; content = refl; fits = tt; shows = λ k. refl }

  pub batch-Holds :
      (now : ℕ) (batch : List IngestReq) (st : SystemState) (wal : DiskWal)
      → All IsShortReq batch
      → Holds st.mem_table wal
      → Holds
          (apply_entries hash checksum (applied_entries now batch) st).mem_table
          (record wal { content = write_batch wal.content (prepare_entries now batch) })
  unfolding write_batch
  batch-Holds now batch st wal short h =
      let new : List Entry = prepare_entries now batch in
      record {
        entries = h.entries ++ new;
        content = ap (λ c. c ++ encode_all new) h.content ∙ sym (encode_all-append h.entries new);
        fits = All-append Fits h.entries new h.fits (prepare_entries-Fits now batch short);
        shows = λ k.
            latest-append k h.entries new none
            ∙ ap (latest k new) (h.shows k)
            ∙ latest-prepared k now batch (get hash k st.mem_table)
            ∙ ap zeroed_if_some (sym (get-apply_entries k (applied_entries now batch) st));
      }
