-- ===== src/Tests/Server.antt =====
-- The theorems about the server, at a store that is an association list.
use sndv_kv.Prelude.{
  ℕ, ◌≡◌, ◌≢◌, refl, ◌++◌, ◌⊎◌, Text, text, text_eq, ◌&&◌, true, false, List, [], ◌∷◌, none, some,
  arith, pos, if◌then◌else◌,
}
use sndv_kv.Server.Router.{
  Inbound, Engine, Auth, Found, missing, live, Payload, check_auth, handle_request,
}
use sndv_kv.Server.Router.Access.{is_routed, handle_request-guarded}
use sndv_kv.Server.Cache.{
  LruCache, lookup, retrieve_from_cache, insert_into_cache, remove_from_cache,
}
use sndv_kv.Server.Cache.Validity.{IsValid, cache-IsValid}
use sndv_kv.Server.Wal.{
  Entry, write_batch, replay, complete, truncated, encode, encode_meta, le_bytes,
}
use sndv_kv.Server.Wal.Torn.{replay-torn}
use sndv_kv.Server.Wal.Recovery.{Fits, replay-write_batch}

abbrev Store : Type 0
Store = List (Text × Text)

abbrev search : Text → Store → Found
search k [] = missing
search k ((j, v) ∷ l) = if text_eq j k then live v else search k l

abbrev put_all : List Payload → Store → Store
put_all [] s = s
put_all (p ∷ ps) s = put_all ps ((p.key, p.value) ∷ s)

-- Bodies are the key alone here.
abbrev pub engine : Engine Store
engine = record {
  ingest = λ k v ttl deleted s. (none, (k, v) ∷ s);
  ingest_batch = λ ps s. (none, put_all ps s);
  find = λ k s. (search k s, s);
  metrics = λ s. text "{}";
  unmarshal_put = λ b. some (record { key = b; value = b; ttl = pos 0 });
  unmarshal_batch = λ b. none;
}

abbrev pub no_auth : Auth
no_auth = record { authentication_token = []; authentication_secret = []; decrypts = λ t k. false }

abbrev refused : Inbound
refused = record {
  method = text "POST";
  path = text "/put";
  authorization = text "wrong";
  key = [];
  body = text "a";
}

refused_lem : check_auth no_auth refused.authorization && is_routed refused.path ≡ false
unfolding check_auth text_eq
refused_lem = refl

handle_request-guarded_example :
    ((handle_request engine no_auth refused []).1 ≡ [])
    × (((handle_request engine no_auth refused []).0.status ≡ 401)
        ⊎ ((handle_request engine no_auth refused []).0.status ≡ 404))
handle_request-guarded_example = handle_request-guarded engine no_auth refused [] refused_lem

abbrev read : Inbound
read = record refused {
  method = text "GET";
  path = text "/get";
  authorization = [];
  key = text "a";
}

abbrev store : Store
store = (text "a", text "b") ∷ []

abbrev two_items : LruCache
two_items = record {
  capacity_count = 2;
  entries = (text "b", text "2") ∷ (text "a", text "1") ∷ [];
}

two_items-IsValid : IsValid two_items
unfolding lookup text_eq
two_items-IsValid = record { distinct = (refl, (refl, tt)); bounded = omega arith }

cache-IsValid_example :
    IsValid (retrieve_from_cache two_items (text "c")).1
    × IsValid (insert_into_cache two_items (text "c") (text "3"))
    × IsValid (remove_from_cache two_items (text "c"))
cache-IsValid_example = cache-IsValid two_items (text "c") (text "3") two_items-IsValid

abbrev written : Entry
written = record {
  key = text "a";
  value = text "1";
  expiry_timestamp = 1700000000000000000;
  is_deleted = false;
}

abbrev tombstone : Entry
tombstone = record written { value = []; is_deleted = true }

written-Fits : Fits written
written-Fits = record { key = omega arith; value = omega arith; expiry = omega arith }

tombstone-Fits : Fits tombstone
tombstone-Fits = record { key = omega arith; value = omega arith; expiry = omega arith }

replay-write_batch_example :
    replay (write_batch (write_batch [] (written ∷ [])) (tombstone ∷ []))
    ≡ (written ∷ tombstone ∷ [], complete)
replay-write_batch_example =
    replay-write_batch (written ∷ []) (tombstone ∷ []) (written-Fits, (tombstone-Fits, tt))

abbrev last_entry : Entry
last_entry = record written { value = []; expiry_timestamp = 5 }

last_entry-Fits : Fits last_entry
last_entry-Fits = record { key = omega arith; value = omega arith; expiry = omega arith }

-- The length of the key and the key are there, and the rest is lost.
abbrev kept : List ℕ
kept = 1 ∷ 0 ∷ 0 ∷ 0 ∷ 97 ∷ []

abbrev lost : List ℕ
lost = 0 ∷ 0 ∷ 0 ∷ 0 ∷ 5 ∷ 0 ∷ 0 ∷ 0 ∷ 0 ∷ 0 ∷ 0 ∷ 0 ∷ 0 ∷ []

kept-lost : kept ++ lost ≡ encode last_entry
unfolding encode encode_meta le_bytes
kept-lost = refl

some_kept : kept ≢ []
some_kept h = cc

some_lost : lost ≢ []
some_lost h = cc

replay-torn_example : replay (write_batch [] (written ∷ []) ++ kept) ≡ (written ∷ [], truncated)
replay-torn_example =
    replay-torn (written ∷ []) last_entry kept lost (written-Fits, tt) last_entry-Fits kept-lost
      some_kept some_lost
