-- ===== src/Server/Api/Refused.antt =====
-- What clients are told when the log refuses a batch.
use sndv_kv.Prelude.{◌≡◌, refl, ap, ◌∙◌, ℕ, Text, text, true, false, List, [], ◌∷◌, some, none}
use sndv_kv.Server.Router.{Inbound, Payload, Auth, handle_request, ingested}
use sndv_kv.Server.Router.Answers.{Arrives, put-ingested, batch-ingested}
use sndv_kv.Server.Ingestion.{IngestReq, Server, process_batch}
use sndv_kv.Server.Api.{
  Settings, process, submit_ingestion_request, dispatch_groups, submit_batch_ingestion, engine,
  group_of,
}

module _ (hash checksum : Text → ℕ) (settings : Settings) (now : ℕ) (s : Server)
    (durable : settings.enable_disk_durability ≡ true) (refused : settings.accepts s ≡ false) where
  process-refused : (reqs : List IngestReq) → (process hash checksum settings now reqs s).1 ≡ s
  unfolding process process_batch
  process-refused [] = refl
  process-refused (req ∷ reqs) = rw (durable, refused)

  dispatch_groups-refused :
      (shards : List ℕ) (items : List Payload)
      → dispatch_groups hash checksum settings now shards items s ≡ s
  unfolding dispatch_groups
  dispatch_groups-refused [] items = refl
  dispatch_groups-refused (shard ∷ shards) items =
      ap (dispatch_groups hash checksum settings now shards items)
        (process-refused (group_of hash checksum settings shard items))
      ∙ dispatch_groups-refused shards items

  submit_batch_ingestion-refused :
      (items : List Payload) → submit_batch_ingestion hash checksum settings now items s ≡ (none, s)
  unfolding submit_batch_ingestion
  submit_batch_ingestion-refused [] = refl
  submit_batch_ingestion-refused (p ∷ items) =
      ap (λ s'. (none, s')) (dispatch_groups-refused settings.order (p ∷ items))

  submit_ingestion_request-refused :
      (p : Payload)
      → submit_ingestion_request hash checksum settings now p.key p.value p.ttl false s
        ≡ (some settings.wal_error, s)
  unfolding submit_ingestion_request process process_batch
  submit_ingestion_request-refused p = rw (durable, refused)

  -- With durability on and a log that refuses the buffer, an authorised put with a payload is
  -- answered with status 500 and the log's error, but an authorised batch with items with status
  -- 201. Neither changes the state.
  pub handle_request-refused :
      (auth : Auth) (one many : Inbound) (p : Payload) (items : List Payload)
      → Arrives auth (text "POST") (text "/put") one
      → settings.unmarshal_put one.body ≡ some p
      → Arrives auth (text "POST") (text "/batch") many
      → settings.unmarshal_batch many.body ≡ some items
      → (handle_request (engine hash checksum settings now) auth one s
          ≡ (record { status = 500; body = settings.wal_error }, s))
        × (handle_request (engine hash checksum settings now) auth many s
            ≡ (record { status = 201; body = [] }, s))
  handle_request-refused auth one many p items put payload batch payloads = (
    put-ingested (engine hash checksum settings now) auth one s p put payload
        ∙ ap (ingested 201) (submit_ingestion_request-refused p),
    batch-ingested (engine hash checksum settings now) auth many s items batch payloads
        ∙ ap (ingested 201) (submit_batch_ingestion-refused items),
  )
