-- ===== src/Server/Api/Exchanges.antt =====
-- What one request of the client leaves in the server, and what its answer is to the client.
use sndv_kv.Prelude.{
  ℕ, ◌≡◌, refl, ◌<◌, inl, inr, pos, Text, text, text_eq, Bool, Bool-cases, List, ◌∷◌, Option, none,
  some, length, arith, if◌then◌else◌,
}
use mathlib.Core.Path.{subst}
use sndv_kv.Python.{
  Json, string, object, end, field, Wire, answered, arrived, ok, exchange, Trace, Host,
}
use sndv_kv.Python.Actions.{Py, pure, ◌>>=◌, logged}
use sndv_kv.Client.{SndvClient, get_field, put, get, delete}
use sndv_kv.Client.Outcomes.{
  discard, put_request, get_request, delete_request, outcome, get_outcome, get-get_outcome,
  put-outcome, delete-outcome,
}
use sndv_kv.Server.Router.{Answer, Engine, Found, missing, dead, live, write_json, served}
use sndv_kv.Server.Wal.{Entry}
use sndv_kv.Server.Store.Contents.{Contents, assign, seen, Refines}
use sndv_kv.Server.Store.Refinement.{Refines-apply_to_mem_table}
use sndv_kv.Server.Store.Tables.{apply_to_mem_table-sstables}
use sndv_kv.Server.Ingestion.{Server, process_batch, applied_entries, create_entry, expiry_of}
use sndv_kv.Server.Api.{Settings, process, submit_ingestion_request, engine}
use sndv_kv.Server.Api.Plain.{IsPlain, json_of, Writes}

module _ (hash checksum : Text → ℕ) (settings : Settings) where
  pub Refines-submit :
      (now : ℕ) (k v : Text) (deleted : Bool) (s : Server) (m : Contents)
      → Writes settings
      → length k < 4294967296
      → length v < 4294967296
      → Refines hash checksum s.state m
      → let r : Option Text × Server =
          submit_ingestion_request hash checksum settings now k v (pos 0) deleted s in
        (r.0 ≡ none)
        × Refines hash checksum r.1.state (assign k (if deleted then none else some v) m)
        × (r.1.state.sstables ≡ s.state.sstables)
  unfolding submit_ingestion_request process process_batch applied_entries create_entry expiry_of
  Refines-submit now k v deleted s m writes short_key short_value h =
      let e : Entry = record { key = k; value = v; expiry_timestamp = 0; is_deleted = deleted } in
      rw (writes s) (
        refl,
        Refines-apply_to_mem_table hash checksum settings.maximum_memtable_size_in_bytes e s.state m
            (record { key = short_key; value = short_value; expiry = omega arith }) refl h,
        apply_to_mem_table-sstables hash checksum settings.maximum_memtable_size_in_bytes e s.state,
      )

unfoldable pub PlainContents : Contents → Type 0
PlainContents m = (k v : Text) → m k ≡ some v → IsPlain v

pub PlainContents-assign :
    (k : Text) (o : Option Text) (m : Contents)
    → ((v : Text) → o ≡ some v → IsPlain v)
    → PlainContents m
    → PlainContents (assign k o m)
unfolding PlainContents
PlainContents-assign k o m h rest j v found = elim (Bool-cases (text_eq k j)) [
  | inl same ↦ h v (rw same at found)
  | inr other ↦ rest j v (rw other at found)
]

module _ (loads : Text → Option Json) (reason : ℕ → Text) where
  -- The answer to a read, as the client sees it.
  pub served-outcome :
      (engine : Engine Server) (k : Text) (f : Found) (s : Server)
      → ((v : Text)
          → f ≡ live v
          → loads (write_json k v)
            ≡ some (object (field (text "key") (string k) (field (text "val") (string v) end))))
      → let a : Answer = (served engine k (f, s)).0 in
        (get_outcome loads (arrived (answered a.status (reason a.status) a.body))
          ≡ ok (json_of (seen f)))
        × ((served engine k (f, s)).1 ≡ s)
  unfolding get_outcome get_field text_eq write_json
  served-outcome engine k missing s law = (refl, refl)
  served-outcome engine k dead s law = (refl, refl)
  served-outcome engine k (live v) s law = (rw (law v refl), refl)

pub keep_read :
    (j : Json) (m : Py (List Json)) (w : Trace) (js : List Json)
    → (m w).0 ≡ ok js
    → ((m >>= λ rest. pure (j ∷ rest)) w).0 ≡ ok (j ∷ js)
keep_read j m w js e = rw e

-- A call of which the answer is known.
pub put_at :
    {Float : Type 0} (host : Host Float) (c : SndvClient) (k v : Text) (w : Trace) (a : Wire)
    → host.urlopen w (put_request c k v (pos 0)) ≡ arrived a
    → put host c k v (pos 0) w
      ≡ (discard (outcome host.loads (arrived a)), exchange (put_request c k v (pos 0)) a ∷ w)
unfolding logged
put_at host c k v w a e =
    subst
      (λ a'.
        put host c k v (pos 0) w
        ≡ (discard (outcome host.loads a'), logged (put_request c k v (pos 0)) a' w))
      e (put-outcome host c k v (pos 0) w)

pub get_at :
    {Float : Type 0} (host : Host Float) (c : SndvClient) (k : Text) (w : Trace) (a : Wire)
    → host.urlopen w (get_request c k) ≡ arrived a
    → get host c k w ≡ (get_outcome host.loads (arrived a), exchange (get_request c k) a ∷ w)
unfolding logged
get_at host c k w a e =
    subst (λ a'. get host c k w ≡ (get_outcome host.loads a', logged (get_request c k) a' w)) e
      (get-get_outcome host c k w)

pub delete_at :
    {Float : Type 0} (host : Host Float) (c : SndvClient) (k : Text) (w : Trace) (a : Wire)
    → host.urlopen w (delete_request c k) ≡ arrived a
    → delete host c k w
      ≡ (discard (outcome host.loads (arrived a)), exchange (delete_request c k) a ∷ w)
unfolding logged
delete_at host c k w a e =
    subst
      (λ a'.
        delete host c k w ≡ (discard (outcome host.loads a'), logged (delete_request c k) a' w))
      e (delete-outcome host c k w)
