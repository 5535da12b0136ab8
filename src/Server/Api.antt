-- ===== src/Server/Api.antt =====
-- `SubmitIngestionRequest` and `SubmitBatchIngestion` of internal/agents/ingestion.go, and the
-- server that internal/api/http_router.go reaches with them: an instance of its interface.
pub mod Network
pub mod Plain
pub mod Background
pub mod Exchanges
pub mod Calls
pub mod Batches
pub mod Refused
pub mod Queue
use sndv_kv.Prelude.{
  ℕ, ◌%◌, ℤ, Text, Bool, true, false, not, List, [], ◌∷◌, Option, none, some, ◌==◌, ◌&&◌,
  if◌then◌else◌,
}
use sndv_kv.Server.Router.{Payload, Engine}
use sndv_kv.Server.Store.{find_and_serve}
use sndv_kv.Server.Ingestion.{IngestReq, Server, process_batch}

-- The configuration, and what the server uses from outside: whether the log's file takes a buffer,
-- with the text of the error if not, the shards in the order in which the groups of a batch get
-- their turn, and the JSON decoder.
pub record Settings : Type 0 where
  pub enable_disk_durability : Bool
  pub maximum_memtable_size_in_bytes : ℕ
  pub level_zero_compaction_trigger_count : ℕ
  pub num_shards : ℕ
  pub accepts : Server → Bool
  pub wal_error : Text
  pub order : List ℕ
  pub metrics : Server → Text
  pub unmarshal_put : Text → Option Payload
  pub unmarshal_batch : Text → Option (List Payload)

abbrev pub new_req : Text → Text → ℤ → Bool → IngestReq
new_req key val ttl deleted = record { key = key; val = val; ttl = ttl; is_deleted = deleted }

module _ (hash checksum : Text → ℕ) (settings : Settings) where
  -- processBatch with the configuration.
  unfoldable pub process : ℕ → List IngestReq → Server → Bool × Server
  process now batch s =
      process_batch hash checksum settings.enable_disk_durability (settings.accepts s)
        settings.maximum_memtable_size_in_bytes now batch s

  -- SubmitIngestionRequest, for a request that its shard takes alone.
  unfoldable pub submit_ingestion_request :
      ℕ → Text → Text → ℤ → Bool → Server → Option Text × Server
  unfolding process
  submit_ingestion_request now key val ttl deleted s =
      let (done, s') = process now (new_req key val ttl deleted ∷ []) s in
      (if done then none else some settings.wal_error, s')

  -- `int(h.Sum32()) % numShards`
  unfoldable pub shard_of : Text → ℕ
  shard_of key = hash key % settings.num_shards

  -- The group of a shard, as groupItemsByShard makes it.
  unfoldable pub group_of : ℕ → List Payload → List IngestReq
  unfolding shard_of
  group_of shard [] = []
  group_of shard (p ∷ items) =
      let rest = group_of shard items in
      if shard_of p.key == shard then new_req p.key p.value p.ttl false ∷ rest else rest

  -- dispatchAndAwaitBatches, each group as runShard takes it. A shard without items has no group,
  -- and an empty batch changes nothing. The result of processBatch is not asked for.
  unfoldable pub dispatch_groups : ℕ → List ℕ → List Payload → Server → Server
  unfolding group_of process
  dispatch_groups now [] items s = s
  dispatch_groups now (shard ∷ shards) items s =
      dispatch_groups now shards items (process now (group_of shard items) s).1

  -- SubmitBatchIngestion: every shard answers `nil`.
  unfoldable pub submit_batch_ingestion : ℕ → List Payload → Server → Option Text × Server
  unfolding dispatch_groups
  submit_batch_ingestion now [] s = (none, s)
  submit_batch_ingestion now (p ∷ items) s =
      (none, dispatch_groups now settings.order (p ∷ items) s)

  -- The server at a time, as the handlers reach it.
  abbrev pub engine : ℕ → Engine Server
  engine now = record {
    ingest = submit_ingestion_request now;
    ingest_batch = submit_batch_ingestion now;
    find = λ key s.
        let (found, st) = find_and_serve hash checksum now key s.state in
        (found, record s { state = st });
    metrics = settings.metrics;
    unmarshal_put = settings.unmarshal_put;
    unmarshal_batch = settings.unmarshal_batch;
  }
