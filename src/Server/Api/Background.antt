-- ===== src/Server/Api/Background.antt =====
-- The rounds of the agents between the requests: how many tables the flush agent can have put into
-- level 0, and that the compaction agent leaves the state as it is while they are too few.
use sndv_kv.Prelude.{
  ℕ, ◌+◌, ◌≡◌, refl, sym, ap, ◌≤◌, ◌<◌, Text, true, List, [], ◌∷◌, some, length, ltb, arith, pos,
}
use mathlib.Core.Path.{subst}
use sndv_kv.Python.{Request, Wire, arrived, Result, ok, raise, exchange, Trace, Host}
use sndv_kv.Python.Actions.{Py, pure, ◌>>=◌}
use sndv_kv.Client.{SndvClient, put, get, delete}
use sndv_kv.Client.Outcomes.{put_request, get_request, delete_request}
use sndv_kv.Server.Api.Exchanges.{put_at, delete_at, get_at}
use sndv_kv.Server.Sstable.{SstableMetadata}
use sndv_kv.Server.Store.{SystemState, process_flush}
use sndv_kv.Server.Store.Tables.{level_zero_count, process_flush-count}
use sndv_kv.Server.Store.Contents.{Contents, Refines, Refines-process_flush}
use sndv_kv.Server.Compaction.{Heap, check_and_run_compaction}
use sndv_kv.Server.Api.{Settings}
use sndv_kv.Server.Api.Network.{
  Call, put_call, get_call, delete_call, run_calls, Round, flush_round, compaction_check, Network,
  run_compaction, run_rounds,
}

-- The rounds of the flush agent.
unfoldable pub flush_count : List Round → ℕ
flush_count [] = 0
flush_count (flush_round id ∷ rounds) = 1 + flush_count rounds
flush_count (compaction_check id ∷ rounds) = flush_count rounds

-- The rounds of the flush agent before the requests of a trace.
unfoldable pub flushes : Network → Trace → ℕ
unfolding flush_count
flushes net [] = 0
flushes net (exchange r a ∷ w) = flushes net w + flush_count (net.background w)
flushes net (_ ∷ w) = flushes net w

module _ (hash checksum : Text → ℕ) where
  module _ (heap : Heap) (settings : Settings) where
    check-few :
        (id : ℕ) (st : SystemState) (levels : List (List SstableMetadata))
        → st.sstables ≡ levels
        → level_zero_count levels < settings.level_zero_compaction_trigger_count
        → check_and_run_compaction heap checksum settings.level_zero_compaction_trigger_count id st
          ≡ some st
    unfolding check_and_run_compaction level_zero_count
    check-few id st [] e h =
        rw (e, check_and_run_compaction) (ap (λ levels. some (record st { sstables = levels })) e)
    check-few id st (level ∷ levels) e h =
        let few : ltb (length level) settings.level_zero_compaction_trigger_count ≡ true =
          ground (arith, h) in
        rw (e, few, check_and_run_compaction)
          (ap (λ levels. some (record st { sstables = levels })) e)

    run_compaction-few :
        (id : ℕ) (st : SystemState)
        → level_zero_count st.sstables < settings.level_zero_compaction_trigger_count
        → run_compaction hash checksum heap settings id st ≡ st
    unfolding run_compaction
    run_compaction-few id st h = rw (check-few id st st.sstables refl h, run_compaction) refl

    -- Fewer flushes than the trigger: the rounds of the agents keep the map.
    pub run_rounds-Refines :
        (rounds : List Round) (st : SystemState) (m : Contents)
        → Refines hash checksum st m
        → level_zero_count st.sstables + flush_count rounds
          < settings.level_zero_compaction_trigger_count
        → let st' : SystemState = run_rounds hash checksum heap settings rounds st in
          Refines hash checksum st' m
          × (level_zero_count st'.sstables ≤ level_zero_count st.sstables + flush_count rounds)
    unfolding run_rounds flush_count
    run_rounds-Refines [] st m h few = (h, omega arith)
    run_rounds-Refines (flush_round id ∷ rounds) st m h few =
        let flushed : SystemState = process_flush hash checksum id st in
        let one : level_zero_count flushed.sstables ≤ 1 + level_zero_count st.sstables =
          process_flush-count hash checksum id st st.immutable_mem refl in
        let (refines, count) =
          run_rounds-Refines rounds flushed m (Refines-process_flush hash checksum id st m h)
            (omega (arith, one, few)) in
        (refines, omega (arith, one, count))
    run_rounds-Refines (compaction_check id ∷ rounds) st m h few =
        let r : SystemState → SystemState = run_rounds hash checksum heap settings rounds in
        subst
          (λ st'.
            Refines hash checksum (r st') m
            × (level_zero_count (r st').sstables
                ≤ level_zero_count st.sstables + flush_count rounds))
          (sym (run_compaction-few id st (omega (arith, few))))
          (run_rounds-Refines rounds st m h few)

bind_grows :
    {A B : Type 0} (size : Trace → ℕ) (m : Py A) (f : A → Py B) (w w' : Trace) (x : Result A)
    → m w ≡ (x, w')
    → ((a : A) → size w' ≤ size (f a w').1)
    → size w' ≤ size ((m >>= f) w).1
bind_grows size m f w w' (ok a) e h = rw e (h a)
bind_grows size m f w w' (raise x) e h = rw e (omega arith)

pub bind_pure-trace :
    {A B : Type 0} (m : Py A) (g : A → B) (w : Trace) → ((m >>= λ a. pure (g a)) w).1 ≡ (m w).1
bind_pure-trace {A = A} m g w = go (m w).0
  where
    go : (x : Result A) → (((λ _. (x, (m w).1)) >>= λ a. pure (g a)) w).1 ≡ (m w).1
    go (ok a) = refl
    go (raise e) = refl

module _ (net : Network) {Float : Type 0} (host : Host Float) (c : SndvClient)
    (answer : Trace → Request → Wire)
    (answers : (w : Trace) (r : Request) → host.urlopen w r ≡ arrived (answer w r)) where
  run_calls-next :
      (call : Call) (calls : List Call) (w : Trace)
      → ((v : Trace) → flushes net v ≤ flushes net (run_calls host c calls v).1)
      → flushes net w + flush_count (net.background w)
        ≤ flushes net (run_calls host c (call ∷ calls) w).1
  unfolding run_calls flushes
  run_calls-next (put_call k v) calls w grows =
      bind_grows (flushes net) (put host c k v (pos 0)) (λ _. run_calls host c calls) w _ _
        (put_at host c k v w _ (answers w (put_request c k v (pos 0)))) λ _. grows _
  run_calls-next (delete_call k) calls w grows =
      bind_grows (flushes net) (delete host c k) (λ _. run_calls host c calls) w _ _
        (delete_at host c k w _ (answers w (delete_request c k))) λ _. grows _
  run_calls-next (get_call k) calls w grows =
      bind_grows (flushes net) (get host c k) (λ j. run_calls host c calls >>= λ js. pure (j ∷ js))
        w _ _ (get_at host c k w _ (answers w (get_request c k)))
        λ j. rw (bind_pure-trace (run_calls host c calls) (λ js. j ∷ js) _) (grows _)

  run_calls-grows :
      (calls : List Call) (w : Trace) → flushes net w ≤ flushes net (run_calls host c calls w).1
  unfolding run_calls
  run_calls-grows [] w = omega arith
  run_calls-grows (call ∷ calls) w =
      omega (arith, run_calls-next call calls w (run_calls-grows calls))

  -- The rounds before the next request are counted when a call begins, whatever comes of it.
  pub run_calls-asked :
      (call : Call) (calls : List Call) (w : Trace)
      → flushes net w + flush_count (net.background w)
        ≤ flushes net (run_calls host c (call ∷ calls) w).1
  run_calls-asked call calls w = run_calls-next call calls w (run_calls-grows calls)
