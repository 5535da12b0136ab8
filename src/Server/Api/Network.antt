-- ===== src/Server/Api/Network.antt =====
-- The client of clients/python/sndv.py on the server: a host whose answers are those of the
-- router, in the state that the requests before left. The flush agent and the compaction agent may
-- run before any request.
use sndv_kv.Prelude.{ℕ, pos, Text, List, [], ◌∷◌, none, some}
use sndv_kv.Python.{Json, Request, Wire, answered, arrived, exchange, Trace, Host}
use sndv_kv.Python.Actions.{Py, pure, ◌>>=◌, ◌>>◌}
use sndv_kv.Client.{SndvClient, put, get, delete}
use sndv_kv.Server.Router.{Inbound, Answer, Auth, handle_request}
use sndv_kv.Server.Store.{SystemState, process_flush}
use sndv_kv.Server.Compaction.{Heap, check_and_run_compaction}
use sndv_kv.Server.Ingestion.{Server}
use sndv_kv.Server.Api.{Settings, engine}

-- A call of a client without a time to live.
pub data Call : Type 0 where
  put_call : Text → Text → Call
  get_call delete_call : Text → Call

-- The calls in order, with what the reads returned.
unfoldable pub run_calls : {Float : Type 0} → Host Float → SndvClient → List Call → Py (List Json)
run_calls host c [] = pure []
run_calls host c (put_call k v ∷ calls) = do put host c k v (pos 0); run_calls host c calls
run_calls host c (get_call k ∷ calls) = do
  j ← get host c k
  js ← run_calls host c calls
  pure (j ∷ js)
run_calls host c (delete_call k ∷ calls) = do delete host c k; run_calls host c calls

-- A round of the flush agent, or a tick of the compaction agent, with the number that a new file
-- gets.
pub data Round : Type 0 where
  flush_round compaction_check : ℕ → Round

-- What happens between the client and the router: the request that arrives (fasthttp), the reason
-- that a status has, the server's clock in nanoseconds, and the rounds of the agents since the
-- request before.
pub record Network : Type 0 where
  pub inbound : Request → Inbound
  pub reason : ℕ → Text
  pub now : Trace → ℕ
  pub background : Trace → List Round

abbrev pub wire_of : Network → Answer → Wire
wire_of net a = answered a.status (net.reason a.status) a.body

module _ (hash checksum : Text → ℕ) (heap : Heap) (settings : Settings) where
  -- checkAndRunCompaction, with the trigger of the configuration; the fuel of the merge is enough
  -- for its files.
  unfoldable pub run_compaction : ℕ → SystemState → SystemState
  run_compaction id st =
      elim (check_and_run_compaction heap checksum settings.level_zero_compaction_trigger_count id
        st) [ none ↦ st | some st' ↦ st' ]

  -- Rounds of the two agents that main starts.
  unfoldable pub run_rounds : List Round → SystemState → SystemState
  unfolding run_compaction
  run_rounds [] st = st
  run_rounds (flush_round id ∷ rounds) st = run_rounds rounds (process_flush hash checksum id st)
  run_rounds (compaction_check id ∷ rounds) st = run_rounds rounds (run_compaction id st)

module _ (hash checksum : Text → ℕ) (heap : Heap) (settings : Settings) (auth : Auth)
    (net : Network) where
  -- The server when a request arrives.
  unfoldable pub on_arrival : Trace → Server → Server
  unfolding run_rounds
  on_arrival w s = record s {
    state = run_rounds hash checksum heap settings (net.background w) s.state;
  }

  -- The answer to a request, and the server after it.
  unfoldable pub respond : Trace → Request → Server → Answer × Server
  unfolding on_arrival
  respond w r s =
      handle_request (engine hash checksum settings (net.now w)) auth (net.inbound r)
        (on_arrival w s)

  -- The server after the requests of a trace.
  unfoldable pub server_after : Server → Trace → Server
  unfolding respond
  server_after s [] = s
  server_after s (exchange r a ∷ w) = (respond w r (server_after s w)).1
  server_after s (_ ∷ w) = server_after s w

  -- A host whose network reaches the server.
  abbrev pub connected : {Float : Type 0} → Server → Host Float → Host Float
  connected s host = record host {
    urlopen = λ w r. arrived (wire_of net (respond w r (server_after s w)).0);
  }
