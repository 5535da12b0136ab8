-- ===== src/Integration/Benchmarks.antt =====
-- The tests and benchmarks of scripts/docker_integration.py: what they count, and how they fail.
use sndv_kv.Prelude.{
  ℕ, ◌+◌, ◌≡◌, refl, ◌≤◌, ◌<◌, ◌⊎◌, inl, inr, Bool-cases, Bool, Text, text, decimal, List, [], ◌∷◌,
  ◌++◌, arith, length, length-snoc, get_elem?, get_elem?_of_lt, map, range_from, ◌==◌,
}
use sndv_kv.Python.{
  Wire, answered, unreachable, Exn, request_exception, zero_division_error, index_error, Trace,
  Host, Request, read_clock,
}
use sndv_kv.Python.Actions.{Py, ◌>>=◌, now}
use sndv_kv.Python.Floats.{Floats, is_zero}
use sndv_kv.Python.Sort.{sort, length-sort}
use sndv_kv.Python.Loops.{Ends, Ends-bind, for_range, for_range-Ends}
use sndv_kv.Python.Counts.{answers, has_status, created, sent}
use sndv_kv.Bench.{item, post, post_batch, index, index_found}
use sndv_kv.Integration.{
  report, Tally, headers, critical_item, single_round, per_second, benchmark_single,
}

-- A test that has no other way to fail than a request.
abbrev pub RequestFailed : Exn → Trace → Type 0
RequestFailed e _ = (reason : Text) × (e ≡ request_exception reason)

-- The exceptions of a benchmark: a request failed, the duration was 0, or there was nothing to read
-- a percentile from.
abbrev pub Failed : ℕ → Exn → Trace → Type 0
Failed count e _ =
    ((reason : Text) × (e ≡ request_exception reason))
    ⊎ (e ≡ zero_division_error)
    ⊎ ((count ≡ 0) × (e ≡ index_error))

module _ {Float : Type 0} (fl : Floats Float) (host : Host Float) (base_url token : Text) where
  record Verified (w₀ : Trace) (i verified : ℕ) (w : Trace) : Type 0 where
    found : answers (has_status 200) w ≡ answers (has_status 200) w₀ + verified
    requests : sent w ≡ sent w₀ + i
    bounded : verified ≤ i

  -- What a finished critical path has counted.
  abbrev Critical : Trace → Bool → ℕ → Trace → Type 0
  Critical w passed verified v =
      (verified ≤ 100)
      × (passed ≡ (verified == 100))
      × (answers (has_status 200) w + verified ≤ answers (has_status 200) v)
      × (sent v ≡ sent w + 101)

  abbrev batch_request : Request
  batch_request =
      post_batch (base_url ++ text "/batch") (headers token) (map critical_item (range_from 0 100))

  record Counted (w₀ : Trace) (i : ℕ) (s : Tally Float) (w : Trace) : Type 0 where
    successes : created w ≡ created w₀ + s.success
    requests : sent w ≡ sent w₀ + i
    measured : length s.latencies ≡ i
    bounded : s.success ≤ i

  round_at :
      (count : ℕ) (w₀ : Trace) (i : ℕ) (s : Tally Float) (w : Trace) (a : Wire)
      → host.http
          (read_clock ∷ w)
          (post (base_url ++ text "/put") (headers token) (item (text "s" ++ decimal i) 64))
        ≡ a
      → Counted w₀ i s w
      → Ends (Counted w₀ (i + 1)) (Failed count) (single_round fl host base_url token i s w)
  unfolding single_round answers
  round_at count w₀ i s w (unreachable reason) e h = rw e (inl (reason, refl))
  round_at count w₀ i s w (answered status reason body) e h = rw e (grind (arith, length-snoc {0}))

  per_second-Ends :
      (count success : ℕ) (duration : Float) (w : Trace)
      → Ends (λ _ v. v ≡ w) (Failed count) (per_second fl host base_url token success duration w)
  per_second-Ends count success duration w = elim (Bool-cases (is_zero fl duration)) [
    | inl zero_time ↦ rw zero_time (inr (inl refl))
    | inr some_time ↦ rw some_time refl
  ]

  index-Ends :
      (count : ℕ) (l : List Float) (i : ℕ) (w : Trace)
      → length l ≡ count
      → (0 < count → i < count)
      → Ends (λ _ v. v ≡ w) (Failed count) (index l i w)
  unfolding get_elem?
  index-Ends count [] i w e h = inr (inr (omega arith, refl))
  index-Ends count (x ∷ xs) i w e h =
      let (a, found) = get_elem?_of_lt (x ∷ xs) i (omega (arith, h (omega arith))) in
      rw (index_found (x ∷ xs) i a found) refl

  -- A read in range, and what follows it.
  read_Ends :
      {B : Type 0} (Q : B → Trace → Type 0) (count : ℕ) (l : List Float) (i : ℕ) (k : Float → Py B)
      (w : Trace)
      → length l ≡ count
      → (0 < count → i < count)
      → ((x : Float) → Ends Q (Failed count) (k x w))
      → Ends Q (Failed count) ((index l i >>= k) w)
  read_Ends Q count l i k w e h next =
      Ends-bind (λ _ v. v ≡ w) Q (Failed count) (index l i) k w (index-Ends count l i w e h)
        λ x v same. rw same (next x)

  module _ (count : ℕ) (w : Trace) where
    -- What a finished benchmark has counted.
    abbrev Done : ℕ → Trace → Type 0
    Done success v =
        (success ≤ count) × (created v ≡ created w + success) × (sent v ≡ sent w + count)

    report-Ends :
        (s : Tally Float) (v : Trace)
        → Counted (read_clock ∷ w) count s v
        → Ends
            (λ st u. (st.count ≡ count) × Done st.success u)
            (Failed count)
            ((do
              stop ← now host
              report fl host base_url token count s (fl.sub stop (host.clock w)))
              v)
    unfolding report answers
    report-Ends s v h =
        let l : List Float = sort fl s.latencies in
        let duration : Float = fl.sub (host.clock v) (host.clock w) in
        let size : length l ≡ count = omega (arith, length-sort fl s.latencies, h.measured) in
        Ends-bind (λ _ u. u ≡ read_clock ∷ v) _ (Failed count)
          (per_second fl host base_url token s.success duration) _ (read_clock ∷ v)
          (per_second-Ends count s.success duration (read_clock ∷ v))
          λ tps u same. rw same (
            read_Ends _ count l _ _ (read_clock ∷ v) size (λ p. omega arith)
              λ p50.
                read_Ends _ count l _ _ (read_clock ∷ v) size (λ p. omega arith)
                  λ p95.
                    read_Ends _ count l _ _ (read_clock ∷ v) size (λ p. omega arith)
                      λ p99. omega arith)

    -- An exception of this benchmark is that of a failed request, a division by zero, or, at a
    -- count of 0, an index error. If it returns, it has sent one request for each count, and it
    -- reports as its successes the answers with status 201, at most as many as the count.
    pub benchmark_single-created :
        Ends
          (λ st v.
            (st.count ≡ count)
            × ((st.success ≤ count)
                × (created v ≡ created w + st.success)
                × (sent v ≡ sent w + count)))
          (Failed count)
          (benchmark_single fl host base_url token count w)
    unfolding benchmark_single answers
    benchmark_single-created =
        Ends-bind (Counted (read_clock ∷ w) count) _ (Failed count)
          (for_range count 0 (single_round fl host base_url token)
            (record { latencies = []; success = 0 }))
          _ (read_clock ∷ w)
          (for_range-Ends (Counted (read_clock ∷ w)) (Failed count)
            (single_round fl host base_url token)
            (λ i s v. round_at count (read_clock ∷ w) i s v _ refl) count 0 count
            (record { latencies = []; success = 0 }) (read_clock ∷ w) (omega arith) (omega arith))
          report-Ends
