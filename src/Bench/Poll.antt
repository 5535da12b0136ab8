-- ===== src/Bench/Poll.antt =====
-- The loop by which the programs wait for the server: `wait_for_server` of bench_orchestrator.py
-- and `wait_for_ready` of scripts/docker_integration.py, which differ in the path that they ask for.
use sndv_kv.Prelude.{
  ℕ, zero, suc, ◌+◌, ◌≡◌, refl, ◌≤◌, ◌⊎◌, inl, inr, Bool, true, false, Bool-cases, [], ◌∷◌, ◌++◌,
  Option, none, some, arith, ◌==◌, if◌then◌else◌,
}
use sndv_kv.Python.{Wire, answered, unreachable, Request, Trace, read_clock, exchange, slept, Host}
use sndv_kv.Python.Actions.{Py, pure, ◌>>=◌, ◌>>◌, catch, now, sleep, send_request}
use sndv_kv.Python.Floats.{Floats}
use sndv_kv.Python.Loops.{Ends, Never}
use sndv_kv.Python.Counts.{answers, has_status, naps}

module _ {Float : Type 0} (fl : Floats Float) (host : Host Float) (request : Request)
    (timeout : Float) where
  -- One request, with `except: pass`: whether the answer had status 200.
  abbrev ask : Py Bool
  ask = catch (do resp ← send_request host request; pure (resp.status == 200)) (λ _. pure false)

  -- `while time.time() - start < timeout`; `none` when the fuel runs out.
  poll_from : Float → ℕ → Py (Option Bool)
  poll_from start zero = pure none
  poll_from start (suc fuel) =
      let rest = poll_from start fuel in
      do
        t ← now host
        if fl.lt (fl.sub t start) timeout
            then (do up ← ask; if up then pure (some true) else (do sleep; rest))
            else pure (some false)

  unfoldable pub poll : ℕ → Py (Option Bool)
  unfolding poll_from
  poll fuel = do start ← now host; poll_from start fuel

  -- What the loop returns: true with the first answer of status 200, false if there was none.
  abbrev pub Polled : Trace → Option Bool → Trace → Type 0
  Polled w r v =
      ((u : Trace) × (r ≡ some true)
        × (answers (has_status 200) v ≡ answers (has_status 200) w + 1)
        × (has_status 200 (host.http u request) ≡ true))
      ⊎ ((r ≡ some false) × (answers (has_status 200) v ≡ answers (has_status 200) w))

  asked-Ends :
      (Q : Option Bool → Trace → Type 0) (u : Trace) (rest : Py (Option Bool)) (a : Wire)
      → host.http u request ≡ a
      → (has_status 200 a ≡ true → Q (some true) (exchange request a ∷ u))
      → (has_status 200 a ≡ false → Ends Q Never (rest (slept ∷ exchange request a ∷ u)))
      → Ends Q Never ((do up ← ask; if up then pure (some true) else (do sleep; rest)) u)
  asked-Ends Q u rest (unreachable reason) e h k = rw e (k refl)
  asked-Ends Q u rest (answered status reason body) e h k = elim (Bool-cases (status == 200)) [
    | inl up ↦ rw (e, up) (h up)
    | inr down ↦ rw (e, down) (k down)
  ]

  -- Whatever the clock does, the loop does not raise.
  poll_from-returns :
      (start : Float) (fuel : ℕ) (u : Trace) → Ends (λ _ _. Unit {0}) Never (poll_from start fuel u)
  unfolding poll_from
  poll_from-returns start zero u = tt
  poll_from-returns start (suc fuel) u =
      elim (Bool-cases (fl.lt (fl.sub (host.clock u) start) timeout)) [
        | inr up ↦ rw up tt
        | inl more ↦ rw more (
            asked-Ends (λ _ _. Unit) (read_clock ∷ u) (poll_from start fuel) _ refl (λ _. tt)
              (λ _. poll_from-returns start fuel _))
      ]

  pub poll-returns : (fuel : ℕ) (w : Trace) → Ends (λ _ _. Unit {0}) Never (poll fuel w)
  unfolding poll
  poll-returns fuel w = poll_from-returns (host.clock w) fuel (read_clock ∷ w)

  -- After `n` sleeps the time is up.
  module _ (w : Trace) (n : ℕ)
      (runs : (v : Trace)
        → n ≤ naps v
        → fl.lt (fl.sub (host.clock (v ++ w)) (host.clock w)) timeout ≡ false) where
    poll_from-Polled :
        (fuel : ℕ) (v : Trace)
        → n ≤ naps v + fuel
        → answers (has_status 200) (v ++ w) ≡ answers (has_status 200) w
        → Ends (Polled w) Never (poll_from (host.clock w) (suc fuel) (v ++ w))
    unfolding poll_from answers naps
    poll_from-Polled zero v le h = rw (runs v (omega arith)) (inr (refl, h))
    poll_from-Polled (suc fuel) v le h =
        let late : Bool = fl.lt (fl.sub (host.clock (v ++ w)) (host.clock w)) timeout in
        elim (Bool-cases late) [
          | inr up ↦ rw up (inr (refl, h))
          | inl more ↦
              let u : Trace = read_clock ∷ (v ++ w) in
              rw more (
                asked-Ends (Polled w) u (poll_from (host.clock w) (suc fuel)) (host.http u request)
                  refl (λ yes_200. inl (u, refl, ground arith, yes_200))
                  λ down.
                    poll_from-Polled fuel
                      (slept ∷ exchange request (host.http u request) ∷ read_clock ∷ v)
                      (omega arith) (ground arith))
        ]

    -- If the time is up after `n` sleeps, `n` + 1 rounds are enough for the loop to end without an
    -- exception: with true after exactly one answer of status 200, which this request got, or with
    -- false after none.
    pub poll-Polled : (fuel : ℕ) → n ≤ fuel → Ends (Polled w) Never (poll (suc fuel) w)
    unfolding poll answers naps
    poll-Polled fuel le = poll_from-Polled fuel (read_clock ∷ []) (omega arith) refl
