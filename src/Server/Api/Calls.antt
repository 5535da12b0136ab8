-- ===== src/Server/Api/Calls.antt =====
-- Calls of the client on the server: they behave as operations on a map.
use sndv_kv.Prelude.{
  ℕ, ◌≡◌, refl, sym, ap, ◌∙◌, pos, Text, true, false, ◌≤◌, ◌<◌, ◌+◌, List, [], ◌∷◌, none, some, All,
  arith,
}
use mathlib.Core.Path.{subst}
use sndv_kv.Python.{Json, Result, exchange, Request, Wire, answered, arrived, ok, Trace, Host}
use sndv_kv.Client.{SndvClient, get}
use sndv_kv.Client.Outcomes.{
  discard, put_request, get_request, delete_request, outcome, get_outcome,
}
use sndv_kv.Server.Router.{Answer, Auth, Found}
use sndv_kv.Server.Router.Answers.{put-ingested, get-served, delete-ingested}
use sndv_kv.Server.Bloom.{SharedBloomFilter}
use sndv_kv.Server.Store.{SystemState, find_and_serve}
use sndv_kv.Server.Store.Contents.{Contents, assign, seen, Refines}
use sndv_kv.Server.Store.Tables.{level_zero_count}
use sndv_kv.Server.Compaction.{Heap}
use sndv_kv.Server.Store.Reads.{find_and_serve-Served, Refines-find_and_serve}
use sndv_kv.Server.Store.Refinement.{new_system_state, new_system_state-Refines}
use sndv_kv.Server.Ingestion.{Server}
use sndv_kv.Server.Api.{Settings, engine}
use sndv_kv.Server.Api.Network.{
  Call, put_call, get_call, delete_call, run_calls, Network, on_arrival, respond, server_after,
  wire_of, connected,
}
use sndv_kv.Server.Api.Plain.{IsPlain, json_of, map_values, IsPlainCall, Carries, Writes}
use sndv_kv.Server.Api.Background.{
  flush_count, flushes, run_rounds-Refines, run_calls-asked, bind_pure-trace,
}
use sndv_kv.Server.Api.Exchanges.{
  Refines-submit, PlainContents, PlainContents-assign, served-outcome, keep_read, put_at, get_at,
  delete_at,
}

module _ (hash checksum : Text → ℕ) (heap : Heap) (settings : Settings) (auth : Auth)
    (net : Network) (c : SndvClient) {Float : Type 0} (host : Host Float) (s₀ : Server)
    (carries : Carries settings auth net c host.loads) (writes : Writes settings) where
  -- The rounds of the flush agent up to the next request.
  abbrev flushes_at : Trace → ℕ
  flushes_at w = flushes net w + flush_count (net.background w)

  abbrev reply : Request → Trace → Answer × Server
  reply r w =
      respond hash checksum heap settings auth net w r
        (server_after hash checksum heap settings auth net s₀ w)

  -- The state stands for a map, and has no more tables in level 0 than were flushed.
  abbrev Holds : SystemState → Contents → ℕ → Type 0
  Holds st m n = Refines hash checksum st m × (level_zero_count st.sstables ≤ n)

  -- What a request leaves, and what its client sees.
  abbrev Responds : Request → Trace → Wire → Contents → Type 0
  Responds r w a m = (wire_of net (reply r w).0 ≡ a) × Holds (reply r w).1.state m (flushes_at w)

  abbrev Stands : Trace → Contents → Type 0
  Stands w m =
      Holds (server_after hash checksum heap settings auth net s₀ w).state m (flushes net w)

  abbrev Few : ℕ → Type 0
  Few n = n < settings.level_zero_compaction_trigger_count

  abbrev server_at : Trace → Server
  server_at w =
      on_arrival hash checksum heap settings auth net w
        (server_after hash checksum heap settings auth net s₀ w)

  server_at-Holds :
      (w : Trace) (m : Contents)
      → Stands w m
      → Few (flushes_at w)
      → Holds (server_at w).state m (flushes_at w)
  unfolding on_arrival
  server_at-Holds w m h few =
      let (refines, count) =
        run_rounds-Refines hash checksum heap settings (net.background w) _ m h.0
          (omega (arith, few, h.1)) in
      (refines, omega (arith, count, h.1))

  -- A write keeps the tables.
  kept :
      (st st' : SystemState) (m : Contents) (n : ℕ)
      → Refines hash checksum st' m
      → st'.sstables ≡ st.sstables
      → level_zero_count st.sstables ≤ n
      → Holds st' m n
  kept st st' m n refines same h =
      (refines, subst (λ levels. level_zero_count levels ≤ n) (sym same) h)

  respond-put :
      (k v : Text) (w : Trace) (m : Contents)
      → IsPlainCall (put_call k v)
      → Stands w m
      → Few (flushes_at w)
      → Responds
          (put_request c k v (pos 0))
          w
          (answered 201 (net.reason 201) [])
          (assign k (some v) m)
  unfolding respond
  respond-put k v w m plain h few =
      let (plain_key, plain_value, short_key, short_value) = plain in
      let (arrives, payload) = carries.put_law k v plain_key plain_value in
      let here : Holds (server_at w).state m (flushes_at w) = server_at-Holds w m h few in
      let (done, refines, same) =
        Refines-submit hash checksum settings (net.now w) k v false (server_at w) m writes short_key
          short_value here.0 in
      rw
        (
          put-ingested (engine hash checksum settings (net.now w)) auth
              (net.inbound (put_request c k v (pos 0))) (server_at w) _ arrives payload,
          done,
        )
        (refl, kept (server_at w).state _ _ _ refines same here.1)

  respond-delete :
      (k : Text) (w : Trace) (m : Contents)
      → IsPlainCall (delete_call k)
      → Stands w m
      → Few (flushes_at w)
      → Responds (delete_request c k) w (answered 200 (net.reason 200) []) (assign k none m)
  unfolding respond
  respond-delete k w m plain h few =
      let (plain_key, some_key, short_key) = plain in
      let (arrives, key) = carries.delete_law k plain_key in
      let here : Holds (server_at w).state m (flushes_at w) = server_at-Holds w m h few in
      let (done, refines, same) =
        Refines-submit hash checksum settings (net.now w) k [] true (server_at w) m writes short_key
          (omega arith) here.0 in
      rw
        (
          delete-ingested (engine hash checksum settings (net.now w)) auth
              (net.inbound (delete_request c k)) (server_at w) arrives (rw key some_key),
          key,
          done,
        )
        (refl, kept (server_at w).state _ _ _ refines same here.1)

  respond-get :
      (k : Text) (w : Trace) (m : Contents)
      → IsPlainCall (get_call k)
      → PlainContents m
      → Stands w m
      → Few (flushes_at w)
      → let r : Answer × Server = reply (get_request c k) w in
        (get_outcome host.loads (arrived (wire_of net r.0)) ≡ ok (json_of (m k)))
        × Holds r.1.state m (flushes_at w)
  unfolding respond PlainContents
  respond-get k w m plain plain_values h few =
      let (arrives, key) = carries.get_law k plain.0 in
      let s : Server = server_at w in
      let now : ℕ = net.now w in
      let r : Found × SystemState = find_and_serve hash checksum now k s.state in
      let here : Holds s.state m (flushes_at w) = server_at-Holds w m h few in
      let (shown, (cache, found, valid, cached)) =
        find_and_serve-Served hash checksum now k s.state m here.0 in
      let (outcome, same) =
        served-outcome host.loads net.reason (engine hash checksum settings now) k r.0
          (record s { state = r.1 })
          (λ v f. carries.value_law k v plain.0 (plain_values k v (sym shown ∙ ap seen f))) in
      rw
        (
          get-served (engine hash checksum settings now) auth (net.inbound (get_request c k)) s
              arrives (rw key plain.1),
          key,
        )
        (
          outcome ∙ ap (λ o. ok (json_of o)) shown,
          subst (λ (s' : Server). Holds s'.state m (flushes_at w)) (sym same)
              (kept s.state r.1 m (flushes_at w)
                (Refines-find_and_serve hash checksum now k s.state m here.0)
                (ap (λ (st : SystemState). st.sstables) found) here.1),
        )

  abbrev reached : Host Float
  reached = connected hash checksum heap settings auth net s₀ host

  asked :
      (call : Call) (calls : List Call) (w : Trace)
      → Few (flushes net (run_calls reached c (call ∷ calls) w).1)
      → Few (flushes_at w)
  asked call calls w few = omega (
    arith,
    few,
    run_calls-asked net reached c (λ v r. wire_of net (reply r v).0) (λ v r. refl) call calls w,
  )

  run_calls-Stands :
      (calls : List Call) (w : Trace) (m : Contents)
      → All IsPlainCall calls
      → PlainContents m
      → Stands w m
      → Few (flushes net (run_calls reached c calls w).1)
      → (run_calls reached c calls w).0 ≡ ok (map_values calls m)
  unfolding run_calls map_values server_after outcome discard flushes
  run_calls-Stands [] w m plain values h few = refl
  run_calls-Stands (put_call k v ∷ calls) w m plain values h few =
      let (answer, stands) = respond-put k v w m plain.0 h (asked (put_call k v) calls w few) in
      let call = put_at reached c k v w _ (ap arrived answer) in
      rw call (
        run_calls-Stands calls _ (assign k (some v) m) plain.1
          (PlainContents-assign k (some v) m (λ u e. subst IsPlain (cc e) plain.0.1) values) stands
          (rw call at few))
  run_calls-Stands (get_call k ∷ calls) w m plain values h few =
      let (answer, stands) = respond-get k w m plain.0 values h (asked (get_call k) calls w few) in
      let after : Trace =
        exchange (get_request c k) (wire_of net (reply (get_request c k) w).0) ∷ w in
      let call : get reached c k w ≡ (ok (json_of (m k)), after) =
        get_at reached c k w _ refl ∙ ap (λ (o : Result Json). (o, after)) answer in
      rw call (
        keep_read (json_of (m k)) (run_calls reached c calls) _ (map_values calls m) (
          run_calls-Stands calls _ m plain.1 values stands (
            rw (call, bind_pure-trace (run_calls reached c calls) (λ js. json_of (m k) ∷ js) after)
              at few)))
  run_calls-Stands (delete_call k ∷ calls) w m plain values h few =
      let (answer, stands) = respond-delete k w m plain.0 h (asked (delete_call k) calls w few) in
      let call = delete_at reached c k w _ (ap arrived answer) in
      rw call (
        run_calls-Stands calls _ (assign k none m) plain.1
          (PlainContents-assign k none m (λ u e. absurd (cc e)) values) stands (rw call at few))

  -- On a server that is started without files, whose log takes every batch, or which has none, over a
  -- network that carries plain keys and values, with a token that is accepted: between the requests
  -- the flush agent and the compaction agent run any rounds, in any order, but over the whole run the
  -- flush agent has fewer rounds than the count of tables that triggers a compaction, so that none
  -- takes place. Then, whatever the clock, the sizes and the filter of the server are, any calls of
  -- put, without a time to live, get and delete of the client raise nothing, and the reads return
  -- what a map returns that is empty at first, `None` for no value. The keys and values are plain and
  -- shorter than 4 GiB, and a key in a URL is not empty.
  pub run_calls-map_values :
      (calls : List Call) (bloom : SharedBloomFilter) (capacity : ℕ)
      → s₀.state ≡ new_system_state bloom capacity
      → All IsPlainCall calls
      → flushes net (run_calls reached c calls []).1 < settings.level_zero_compaction_trigger_count
      → (run_calls reached c calls []).0 ≡ ok (map_values calls (λ _. none))
  unfolding server_after PlainContents flushes level_zero_count
  run_calls-map_values calls bloom capacity started plain few =
      run_calls-Stands calls [] (λ _. none) plain (λ k v e. absurd (cc e))
        (subst (λ (st : SystemState). Holds st (λ _. none) 0) (sym started)
          (new_system_state-Refines hash checksum bloom capacity, omega arith))
        few
