-- ===== src/Tests/Rotation.antt =====
-- The theorem about the log files, where each batch fills the memory table.
use sndv_kv.Prelude.{refl, true, false, text, List, [], ◌∷◌, All, arith}
use sndv_kv.Server.Rotation.{Step, batch_step, flush_step, run_steps}
use sndv_kv.Server.Rotation.Logged.{Logged, Recovers}
use sndv_kv.Server.Rotation.Runs.{IsOpened, run_steps-Logged}
use sndv_kv.Tests.Store.{sum, request, fresh_state}

abbrev steps : List Step
steps =
    batch_step 5 true true (request ∷ [])
    ∷ batch_step 6 false true (request ∷ [])
    ∷ batch_step 7 true true (request ∷ [])
    ∷ flush_step 17
    ∷ batch_step 8 true true (request ∷ [])
    ∷ []

steps-IsOpened : All IsOpened steps
steps-IsOpened = ground arith

run_steps-Logged_example : Logged (Recovers sum sum) (
    run_steps sum sum (text "wal.log") 1 steps (record {
      state = fresh_state;
      active_wal = record { path = text "wal.log"; content = [] };
      frozen_wals = [];
    }))
run_steps-Logged_example =
    run_steps-Logged sum sum (text "wal.log") 1 steps fresh_state steps-IsOpened refl refl
