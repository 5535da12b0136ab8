-- ===== src/Server/Store/Contents.antt =====
-- The map that a state of the server stands for, which the writes, the rotation and the flush keep.
use sndv_kv.Prelude.{
  ℕ, ◌≡◌, refl, sym, inl, inr, Text, text_eq, text_eq_iff, Bool-cases, List, [], ◌∷◌, Option, none,
  some, All, All-snoc, arith, if◌then◌else◌,
}
use mathlib.Core.Path.{subst}
use sndv_kv.Server.Wal.{Entry}
use sndv_kv.Server.Wal.Recovery.{Fits}
use sndv_kv.Server.Router.{Found, live}
use sndv_kv.Server.Cache.{lookup}
use sndv_kv.Server.Cache.Validity.{IsValid, cache-IsValid}
use sndv_kv.Server.Cache.Reads.{lookup-removed}
use sndv_kv.Server.Memory.{MemoryTable}
use sndv_kv.Server.Store.{SystemState, newest_entry, rotate_mem_table, apply_entry, process_flush}
use sndv_kv.Server.Store.Views.{IsSound, Visible, new_memory_table-IsSound, put-IsSound}
use sndv_kv.Server.Store.Steps.{
  newest-apply_entry, newest-rotate_mem_table, process_flush-waits, process_flush_lem,
  flushed-Visible, newest-flushed,
}

-- The map that the server stands for.
abbrev pub Contents : Type 0
Contents = Text → Option Text

-- What an entry says of its key.
abbrev pub value_of : Entry → Option Text
value_of e = if e.is_deleted then none else some e.value

abbrev pub assign : Text → Option Text → Contents → Contents
assign k o m j = if text_eq k j then o else m j

-- What a client sees of a search.
abbrev pub seen : Found → Option Text
seen (live v) = some v
seen _ = none

abbrev pub Holds : Text → Option Entry → Option Text → Type 0
Holds k none o = o ≡ none
Holds k (some e) o = (e.key ≡ k) × (e.expiry_timestamp ≡ 0) × (o ≡ value_of e)

module _ (hash checksum : Text → ℕ) where
  -- A state of the server that stands for a map.
  pub record Refines (st : SystemState) (m : Contents) : Type 0 where
    pub sound : IsSound hash checksum st.mem_table
    pub sound_immutable : All (IsSound hash checksum) st.immutable_mem
    pub visible : All (All (Visible hash checksum st.bloom_filter)) st.sstables
    pub holds : (k : Text) → Holds k (newest_entry hash checksum k st) (m k)
    pub cache_valid : IsValid st.key_cache
    pub cached : (k v : Text) → lookup k st.key_cache.entries ≡ some v → m k ≡ some v

  Holds-assign :
      (k : Text) (e : Entry) (o : Option Entry) (m : Contents)
      → e.expiry_timestamp ≡ 0
      → Holds k o (m k)
      → Holds k (if text_eq e.key k then some e else o) (assign e.key (value_of e) m k)
  Holds-assign k e o m expiry h = elim (Bool-cases (text_eq e.key k)) [
    | inl same ↦ rw same ((text_eq_iff e.key k).0 same, expiry, refl)
    | inr other ↦ rw other h
  ]

  pub Refines-apply_entry :
      (e : Entry) (st : SystemState) (m : Contents)
      → Fits e
      → e.expiry_timestamp ≡ 0
      → Refines st m
      → Refines (apply_entry hash checksum e st) (assign e.key (value_of e) m)
  unfolding apply_entry
  Refines-apply_entry e st m fits expiry h = record {
    sound = put-IsSound hash checksum e st.mem_table fits h.sound;
    sound_immutable = h.sound_immutable;
    visible = h.visible;
    holds = λ k.
        rw (newest-apply_entry hash checksum k e st)
          (Holds-assign k e (newest_entry hash checksum k st) m expiry (h.holds k));
    cache_valid = (cache-IsValid st.key_cache e.key [] h.cache_valid).2;
    cached = λ k v found.
        ground (arith, lookup-removed st.key_cache e.key k h.cache_valid, h.cached k v, found);
  }

  pub Refines-rotate_mem_table :
      (st : SystemState) (m : Contents)
      → Refines st m
      → Refines (rotate_mem_table hash checksum st) m
  unfolding rotate_mem_table
  Refines-rotate_mem_table st m h = record {
    sound = new_memory_table-IsSound hash checksum;
    sound_immutable =
        All-snoc (IsSound hash checksum) st.immutable_mem st.mem_table h.sound_immutable h.sound;
    visible = h.visible;
    holds = λ k. rw (newest-rotate_mem_table hash checksum k st) (h.holds k);
    cache_valid = h.cache_valid;
    cached = h.cached;
  }

  Refines-flushed :
      (id : ℕ) (st : SystemState) (m : Contents) (tables : List MemoryTable)
      → st.immutable_mem ≡ tables
      → Refines st m
      → Refines (process_flush hash checksum id st) m
  Refines-flushed id st m [] e h =
      subst (λ s. Refines s m) (sym (process_flush-waits hash checksum id st e)) h
  Refines-flushed id st m (table ∷ tables) e h =
      let sounds : All (IsSound hash checksum) (table ∷ tables) = rw e at h.sound_immutable in
      rw (process_flush_lem hash checksum id st table tables e sounds.0 h.visible) (record {
        sound = h.sound;
        sound_immutable = sounds.1;
        visible = flushed-Visible hash checksum id st table tables e sounds.0 h.visible;
        holds = λ k.
            rw (newest-flushed hash checksum id st table tables e sounds.0 h.visible k) (h.holds k);
        cache_valid = h.cache_valid;
        cached = h.cached;
      })

  pub Refines-process_flush :
      (id : ℕ) (st : SystemState) (m : Contents)
      → Refines st m
      → Refines (process_flush hash checksum id st) m
  Refines-process_flush id st m h = Refines-flushed id st m st.immutable_mem refl h
