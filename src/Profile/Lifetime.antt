-- ===== src/Profile/Lifetime.antt =====
-- The server process of profile_server.py: it does not outlive a run unsignalled.
use sndv_kv.Prelude.{◌≡◌, refl, inl, inr, Bool, true, false, Bool-cases, ◌∷◌, [], text, ◌==◌}
use sndv_kv.Python.{
  Ran, exited, not_run, timed_out, Wire, answered, unreachable, Trace, Host, slept, spawned,
  terminated, ran, Exn,
}
use sndv_kv.Python.Floats.{Floats}
use sndv_kv.Python.Loops.{Ends, Ends-bind}
use sndv_kv.Python.Processes.{signalled, finally-Always, Always}
use sndv_kv.Bench.{get}
use sndv_kv.Profile.{
  build_cmd, server_cmd, start_server_with_profiling, run_profile, stop_server, main,
}

module _ {Float : Type 0} (fl : Floats Float) (host : Host Float) where
  abbrev Quiet : Exn → Trace → Type 0
  Quiet e v = signalled v ≡ true

  -- The server runs, or every process that was started has been sent a signal.
  abbrev Launched : Bool → Trace → Type 0
  Launched true v = Unit
  Launched false v = signalled v ≡ true

  started_at :
      (w : Trace) (r : Ran) (b : Bool) (a : Wire)
      → host.run w build_cmd ≡ r
      → host.starts (ran build_cmd r ∷ w) server_cmd ≡ b
      → host.http
          (slept ∷ spawned server_cmd ∷ ran build_cmd r ∷ w)
          (get (text "http://localhost:8080/metrics") [])
        ≡ a
      → signalled w ≡ true
      → Ends Launched Quiet (start_server_with_profiling fl host w)
  unfolding start_server_with_profiling signalled
  started_at w not_run b a e f g h = rw e h
  started_at w timed_out b a e f g h = rw e h
  started_at w (exited code out) false a e f g h = elim (Bool-cases (code == 0)) [
    | inr failed ↦ rw (e, failed) h
    | inl built ↦ rw (e, built, f) h
  ]
  started_at w (exited code out) true (unreachable reason) e f g h = elim (Bool-cases (code == 0)) [
    | inr failed ↦ rw (e, failed) h
    | inl built ↦ rw (e, built, f, g) refl
  ]
  started_at w (exited code out) true (answered status reason body) e f g h =
      elim (Bool-cases (code == 0)) [
        | inr failed ↦ rw (e, failed) h
        | inl built ↦ elim (Bool-cases (status == 200)) [
          | inl up ↦ rw (e, built, f, g, up) tt
          | inr down ↦ rw (e, built, f, g, down) refl
        ]
      ]

  stop_server-signalled : (w : Trace) → Always (λ v. signalled v ≡ true) (stop_server fl host w)
  unfolding stop_server signalled
  stop_server-signalled w = elim (Bool-cases (host.stops (terminated ∷ w))) [
    | inl e ↦ rw e refl
    | inr e ↦ rw e refl
  ]

  -- If every process that was started before has been sent a signal to end, then the same holds
  -- whenever `main` ends, with or without an exception.
  pub main-signalled :
      (w : Trace) → signalled w ≡ true → Always (λ v. signalled v ≡ true) (main fl host w)
  unfolding main
  main-signalled w h =
      Ends-bind Launched (λ _ v. signalled v ≡ true) Quiet (start_server_with_profiling fl host) _ w
        (started_at w _ _ _ refl refl refl h)
        (elim [
          | false ↦ λ v e. e
          | true ↦ λ v e.
              finally-Always (run_profile fl host) (stop_server fl host) (λ u. signalled u ≡ true) v
                stop_server-signalled
        ])
