-- ===== src/Server/Store/Reads.antt =====
-- A read of the server shows the map that its state stands for.
use sndv_kv.Prelude.{
  ℕ, ◌≡◌, refl, sym, ap, ◌∙◌, inl, inr, Text, text_eq_iff, true, false, Bool-cases, Option-cases,
  [], none, some, if◌then◌else◌,
}
use mathlib.Core.Path.{subst}
use sndv_kv.Server.Wal.{Entry}
use sndv_kv.Server.Router.{Found, dead, live}
use sndv_kv.Server.Cache.{LruCache, lookup, retrieve_from_cache, insert_into_cache}
use sndv_kv.Server.Cache.Validity.{IsValid, cache-IsValid, retrieve-lookup}
use sndv_kv.Server.Cache.Reads.{lookup-retrieved, lookup-inserted}
use sndv_kv.Server.Store.{SystemState, newest_entry, process_entry, is_expired, find_and_serve}
use sndv_kv.Server.Store.Contents.{Contents, seen, Holds, Refines}

module _ (hash checksum : Text → ℕ) where
  -- A search shows the contents, and only the cache changes.
  abbrev pub Served : Text → SystemState → Contents → Found × SystemState → Type 0
  Served k st m r =
      (seen r.0 ≡ m k)
      × ((cache : LruCache) × (r.1 ≡ record st { key_cache = cache })
          × IsValid cache
          × ((j v : Text) → lookup j cache.entries ≡ some v → m j ≡ some v))

  process_entry-dead :
      (now : ℕ) (e : Entry) (st : SystemState)
      → e.is_deleted ≡ true
      → process_entry hash checksum now e st ≡ (dead, st)
  unfolding process_entry
  process_entry-dead now e st h = rw (h, process_entry) refl

  process_entry-live :
      (now : ℕ) (e : Entry) (st : SystemState)
      → e.is_deleted ≡ false
      → e.expiry_timestamp ≡ 0
      → process_entry hash checksum now e st
        ≡ (live e.value, record st { key_cache = insert_into_cache st.key_cache e.key e.value })
  unfolding process_entry is_expired
  process_entry-live now e st h expiry = rw (h, expiry, process_entry) refl

  process_entry-Served :
      (now : ℕ) (k : Text) (e : Entry) (st : SystemState) (m : Contents) (cache : LruCache)
      → Holds k (some e) (m k)
      → IsValid cache
      → ((j v : Text) → lookup j cache.entries ≡ some v → m j ≡ some v)
      → Served k st m (process_entry hash checksum now e (record st { key_cache = cache }))
  process_entry-Served now k e st m cache (key, expiry, shown) valid cached =
      elim (Bool-cases e.is_deleted) [
        | inl deleted ↦ rw (process_entry-dead now e (record st { key_cache = cache }) deleted) (
          sym (shown ∙ ap (λ b. if b then none else some e.value) deleted),
          (cache, refl, valid, cached),
        )
        | inr kept ↦
            let here : m k ≡ some e.value =
              shown ∙ ap (λ b. if b then none else some e.value) kept in
            let new : LruCache = insert_into_cache cache e.key e.value in
            let shows : (j v : Text) → lookup j new.entries ≡ some v → m j ≡ some v = λ j v found.
              elim (lookup-inserted cache e.key j e.value v valid found) [
                | inr before ↦ cached j v before
                | inl both ↦
                    let (same, value) = both in
                    ap m (sym ((text_eq_iff e.key j).0 same) ∙ key) ∙ here ∙ ap some (sym value)
              ] in
            rw (process_entry-live now e (record st { key_cache = cache }) kept expiry)
              (sym here, (new, refl, (cache-IsValid cache e.key e.value valid).1, shows))
      ]

  pub find_and_serve-Served :
      (now : ℕ) (k : Text) (st : SystemState) (m : Contents)
      → Refines hash checksum st m
      → Served k st m (find_and_serve hash checksum now k st)
  unfolding find_and_serve
  find_and_serve-Served now k st m h =
      let cache : LruCache = (retrieve_from_cache st.key_cache k).1 in
      let valid : IsValid cache = (cache-IsValid st.key_cache k [] h.cache_valid).0 in
      let cached : (j v : Text) → lookup j cache.entries ≡ some v → m j ≡ some v =
        λ j v found. h.cached j v (sym (lookup-retrieved st.key_cache k j h.cache_valid) ∙ found) in
      elim (Option-cases (retrieve_from_cache st.key_cache k).0) [
        | inr (v, hit) ↦
            rw (hit, find_and_serve)
              (
                sym (h.cached k v (sym (retrieve-lookup st.key_cache k) ∙ hit)),
                (cache, refl, valid, cached),
              )
        | inl miss ↦
            rw (miss, find_and_serve)
              (elim (Option-cases (newest_entry hash checksum k st)) [
                | inl gone ↦ rw gone (sym (rw gone at (h.holds k)), (cache, refl, valid, cached))
                | inr (e, found) ↦
                    rw found (
                      process_entry-Served now k e st m cache (rw found at (h.holds k)) valid
                        cached)
              ])
      ]

  -- A search leaves the map as it is.
  pub Refines-find_and_serve :
      (now : ℕ) (k : Text) (st : SystemState) (m : Contents)
      → Refines hash checksum st m
      → Refines hash checksum (find_and_serve hash checksum now k st).1 m
  unfolding newest_entry
  Refines-find_and_serve now k st m h =
      let (shown, (cache, same, valid, cached)) = find_and_serve-Served now k st m h in
      subst (λ st'. Refines hash checksum st' m) (sym same)
        (record {
          sound = h.sound;
          sound_immutable = h.sound_immutable;
          visible = h.visible;
          holds = h.holds;
          cache_valid = valid;
          cached = cached;
        })
