-- ===== src/Tests/Api.antt =====
-- The client on the server, over a network that takes URLs and bodies apart.
use sndv_kv.Prelude.{
  ℕ, ◌≡◌, ◌<◌, ◌≤◌, ◌+◌, refl, pos, Text, text, text_eq, true, false, List, [], ◌∷◌, ◌++◌, Option,
  none, some, All, arith, ◌==◌, if◌then◌else◌,
}
use sndv_kv.Python.{Host, Trace, Event, exchange, Json, null, string, object, end, field, ok}
use sndv_kv.Client.{SndvClient}
use sndv_kv.Server.Router.{Inbound, Payload, Auth, check_auth, write_json, handle_request}
use sndv_kv.Server.Router.Answers.{Arrives}
use sndv_kv.Server.Sstable.{drop}
use sndv_kv.Server.Store.{newest_entry}
use sndv_kv.Server.Ingestion.{IngestReq, Server}
use sndv_kv.Server.Store.Refinement.{new_system_state}
use sndv_kv.Server.Api.{new_req, Settings, process, submit_batch_ingestion, engine}
use sndv_kv.Server.Api.Network.{
  Call, put_call, get_call, delete_call, run_calls, Network, connected, flush_round,
  compaction_check, Round,
}
use sndv_kv.Server.Api.Plain.{IsPlain, map_values, IsPlainCall, Carries}
use sndv_kv.Server.Api.Background.{flushes, flush_count}
use sndv_kv.Server.Api.Calls.{run_calls-map_values}
use sndv_kv.Server.Api.Batches.{reqs_of, is_among, submit_batch_ingestion-process}
use sndv_kv.Server.Api.Queue.{shard_rounds, shard_rounds-process}
use sndv_kv.Server.Api.Refused.{handle_request-refused}
use sndv_kv.Tests.{host}
use sndv_kv.Tests.Compaction.{heap}
use sndv_kv.Tests.Store.{sum, no_bits}

-- A text up to a character, and after it.
until : ℕ → Text → Text
until c [] = []
until c (b ∷ s) = if b == c then [] else b ∷ until c s

after : ℕ → Text → Text
after c [] = []
after c (b ∷ s) = let rest = after c s in if b == c then s else rest

until_lem : (k t : Text) → IsPlain k → until b'"' (k ++ b'"' ∷ t) ≡ k
unfolding until
until_lem [] t h = refl
until_lem (b ∷ k) t h = ground (arith, until_lem k t h.1, h.0)

after_lem : (k t : Text) → IsPlain k → after b'"' (k ++ b'"' ∷ t) ≡ t
unfolding after
after_lem [] t h = refl
after_lem (b ∷ k) t h = ground (arith, after_lem k t h.1, h.0)

header : Text → List (Text × Text) → Text
header name [] = []
header name ((n, v) ∷ hs) = if text_eq n name then v else header name hs

-- The body of a put as its key and its value with a quotation mark between them.
body_of : Option Json → Text
body_of (some (object (field _ (string k) (field _ (string v) _)))) = k ++ b'"' ∷ v
body_of _ = []

unmarshal : Text → Option Payload
unmarshal b = some (record { key = until b'"' b; value = after b'"' b; ttl = pos 0 })

-- The two texts of a flat object, which stand between quotation marks.
loads_pair : Text → Option Json
loads_pair t =
    let rest = drop 8 t in
    some (
      object (
        field (text "key") (string (until b'"' rest))
          (field (text "val") (string (until b'"' (drop 8 (after b'"' rest)))) end)))

abbrev client : SndvClient
client = record {
  base_url = text "http://h";
  token = text "t";
  headers = (text "Authorization", text "t") ∷ [];
}

abbrev auth : Auth
auth = record {
  authentication_token = text "t";
  authentication_secret = [];
  decrypts = λ token key. text_eq token (text "t");
}

-- The rounds of the agents: two each after the first request.
rounds_at : Trace → List Round
rounds_at (e ∷ []) =
    flush_round 17 ∷ compaction_check 19 ∷ flush_round 18 ∷ compaction_check 20 ∷ []
rounds_at w = []

-- The agents run between the first two requests, and the shards take turns from the last.
abbrev net : Network
net = record {
  inbound = λ r. record {
    method = r.method;
    path = until b'?' (drop 8 r.url);
    authorization = header (text "Authorization") r.headers;
    key = after b'=' r.url;
    body = body_of r.body;
  };
  reason = λ status. [];
  now = λ w. 5;
  background = rounds_at;
}

abbrev settings : Settings
settings = record {
  enable_disk_durability = true;
  maximum_memtable_size_in_bytes = 2;
  level_zero_compaction_trigger_count = 3;
  num_shards = 2;
  accepts = λ s. true;
  wal_error = text "disk full";
  order = 1 ∷ 0 ∷ [];
  metrics = λ s. [];
  unmarshal_put = unmarshal;
  unmarshal_batch = λ b. some (record { key = b; value = b; ttl = pos 0 } ∷ []);
}

net-Carries : Carries settings auth net client loads_pair
unfolding until after header drop text_eq check_auth body_of unmarshal loads_pair write_json
net-Carries = record {
  put_law = λ k v hk hv. (
    record { authorised = refl; method_is = refl; path_is = refl },
    rw (until_lem k v hk, after_lem k v hk) refl,
  );
  get_law = λ k hk. (record { authorised = refl; method_is = refl; path_is = refl }, refl);
  delete_law = λ k hk. (record { authorised = refl; method_is = refl; path_is = refl }, refl);
  value_law = λ k v hk hv.
      let rest : Text = text "\",\"val\":\"" ++ (v ++ text "\"}") in
      rw (until_lem k (drop 1 rest) hk, after_lem k (drop 1 rest) hk, until_lem v (text "}") hv)
        refl;
}

abbrev server : Server
server = record { state = new_system_state no_bits 2; log = [] }

abbrev calls : List Call
calls =
    put_call (text "a") (text "1")
    ∷ get_call (text "a")
    ∷ delete_call (text "a")
    ∷ get_call (text "a")
    ∷ []

calls-IsPlainCall : All IsPlainCall calls
unfolding text_eq
calls-IsPlainCall = ground arith

abbrev kv_host : Host ℕ
kv_host = connected sum sum heap settings auth net server (record host { loads = loads_pair })

event_flushes :
    (e : Event) (w : Trace) → flushes net (e ∷ w) ≤ flushes net w + flush_count (net.background w)
unfolding flushes
event_flushes (exchange r a) w = omega arith
event_flushes _ w = omega arith

few_flushes : (w : Trace) → flushes net w ≤ 2
unfolding flushes flush_count rounds_at
few_flushes [] = omega arith
few_flushes (e ∷ []) = omega (arith, event_flushes e [])
few_flushes (e ∷ d ∷ []) = omega (arith, event_flushes e (d ∷ []), event_flushes d [])
few_flushes (e ∷ d ∷ f ∷ w) = omega (arith, event_flushes e (d ∷ f ∷ w), few_flushes (d ∷ f ∷ w))

run_calls-map_values_example :
    (run_calls kv_host client calls []).0 ≡ ok (map_values calls (λ _. none))
run_calls-map_values_example =
    run_calls-map_values sum sum heap settings auth net client (record host { loads = loads_pair })
      server net-Carries (λ s. refl) calls no_bits 2 refl calls-IsPlainCall
      (omega (arith, few_flushes (run_calls kv_host client calls []).1))

calls_test : map_values calls (λ _. none) ≡ string (text "1") ∷ null ∷ []
unfolding map_values text_eq
calls_test = refl

abbrev items : List Payload
items =
    record { key = text "a"; value = text "1"; ttl = pos 0 }
    ∷ record { key = text "b"; value = text "2"; ttl = pos 0 }
    ∷ record { key = text "a"; value = text "3"; ttl = pos 0 }
    ∷ []

turns : (i : ℕ) → i < 2 → is_among i (1 ∷ 0 ∷ []) ≡ true
unfolding is_among
turns i h = ground arith

submit_batch_ingestion-process_example :
    newest_entry sum sum (text "a") (submit_batch_ingestion sum sum settings 5 items server).1.state
    ≡ newest_entry sum sum (text "a") (process sum sum settings 5 (reqs_of items) server).1.state
submit_batch_ingestion-process_example =
    submit_batch_ingestion-process sum sum settings 5 (text "a") items server (λ s. refl)
      (omega arith) turns

abbrev full_disk : Settings
full_disk = record settings { accepts = λ s. false }

abbrev put_inbound : Inbound
put_inbound = record {
  method = text "POST";
  path = text "/put";
  authorization = text "t";
  key = [];
  body = text "a\"1";
}

abbrev batch_inbound : Inbound
batch_inbound = record put_inbound { path = text "/batch" }

put_inbound-Arrives : Arrives auth (text "POST") (text "/put") put_inbound
unfolding check_auth text_eq
put_inbound-Arrives = record { authorised = refl; method_is = refl; path_is = refl }

batch_inbound-Arrives : Arrives auth (text "POST") (text "/batch") batch_inbound
unfolding check_auth text_eq
batch_inbound-Arrives = record { authorised = refl; method_is = refl; path_is = refl }

abbrev one_item : Payload
one_item = record { key = text "a"; value = text "1"; ttl = pos 0 }

unmarshal_lem : unmarshal (text "a\"1") ≡ some one_item
unfolding unmarshal until after
unmarshal_lem = refl

handle_request-refused_example :
    (handle_request (engine sum sum full_disk 5) auth put_inbound server
      ≡ (record { status = 500; body = text "disk full" }, server))
    × (handle_request (engine sum sum full_disk 5) auth batch_inbound server
        ≡ (record { status = 201; body = [] }, server))
handle_request-refused_example =
    handle_request-refused sum sum full_disk 5 server refl refl auth put_inbound batch_inbound
      one_item (record { key = text "a\"1"; value = text "a\"1"; ttl = pos 0 } ∷ [])
      put_inbound-Arrives unmarshal_lem batch_inbound-Arrives refl

abbrev queue : List IngestReq
queue = new_req (text "a") (text "1") (pos 0) false ∷ new_req (text "a") [] (pos 0) true ∷ []

shard_rounds-process_example :
    ((shard_rounds sum sum settings (5 ∷ 6 ∷ []) queue server).0 ≡ [])
    × ((k : Text)
        → newest_entry sum sum k (shard_rounds sum sum settings (5 ∷ 6 ∷ []) queue server).1.state
          ≡ newest_entry sum sum k (process sum sum settings 0 queue server).1.state)
shard_rounds-process_example =
    shard_rounds-process sum sum settings (5 ∷ 6 ∷ []) queue server (λ s. refl) (refl, (refl, tt))
      (omega arith)
