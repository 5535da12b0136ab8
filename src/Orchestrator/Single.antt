-- ===== src/Orchestrator/Single.antt =====
-- `benchmark_single` of bench_orchestrator.py: what it counts and what it reports.
use sndv_kv.Prelude.{
  ℕ, ◌+◌, ◌*◌, ◌/◌, ◌≡◌, refl, ◌≤◌, ◌<◌, false, Text, text, decimal, List, [], ◌∷◌, ◌++◌, none,
  some, arith, length, length-snoc, get_elem?, get_elem?_of_lt,
}
use sndv_kv.Python.{Wire, answered, unreachable, Trace, read_clock, Host, Request}
use sndv_kv.Python.Actions.{pure}
use sndv_kv.Python.Floats.{Floats, IsOrdered, rate}
use sndv_kv.Python.Loops.{Ends, Never, Ends-bind, for_range, for_range-Ends}
use sndv_kv.Python.Counts.{answers, created, sent}
use sndv_kv.Python.Sort.{le_refl, IsAscending, sort-IsAscending, get_elem?-ascending}
use sndv_kv.Bench.{item, post, index_found}
use sndv_kv.Orchestrator.{
  SingleStats, Tally, index_or_zero, mean_or_zero, single_stats, single_round, benchmark_single,
}

module _ {Float : Type 0} (fl : Floats Float) (host : Host Float) (server_url : Text) where
  -- After `i` rounds from the trace `w₀`.
  record Counted (w₀ : Trace) (i : ℕ) (s : Tally Float) (w : Trace) : Type 0 where
    successes : created w ≡ created w₀ + s.success
    requests : sent w ≡ sent w₀ + i
    measured : length s.latencies ≡ i
    bounded : s.success ≤ i

  abbrev round_request : ℕ → Request
  round_request i = post (server_url ++ text "/put") [] (item (text "single_" ++ decimal i) 128)

  round_at :
      (w₀ : Trace) (i : ℕ) (s : Tally Float) (w : Trace) (a : Wire)
      → host.http (read_clock ∷ w) (round_request i) ≡ a
      → Counted w₀ i s w
      → Ends (Counted w₀ (i + 1)) Never (single_round fl host server_url i s w)
  unfolding single_round answers
  round_at w₀ i s w (unreachable reason) e h =
      rw e (ground (arith, length-snoc s.latencies (fl.of_ℕ 3000)))
  round_at w₀ i s w (answered status reason body) e h = rw e (grind (arith, length-snoc {0}))

  rounds_Counted :
      (n : ℕ) (w : Trace)
      → Ends (Counted w n) Never (
          for_range n 0
            (single_round fl host server_url)
            (record { latencies = []; success = 0 })
            w)
  rounds_Counted n w =
      for_range-Ends (Counted w) Never (single_round fl host server_url)
        (λ i s v. round_at w i s v _ refl) n 0 n (record { latencies = []; success = 0 }) w
        (omega arith) (omega arith)

module _ {Float : Type 0} (fl : Floats Float) where
  -- The value that `latencies[i] if latencies else 0` reads in range.
  value_at : List Float → ℕ → Float
  value_at l i = elim (get_elem? l i) [ none ↦ fl.of_ℕ 0 | some x ↦ x ]

  index_or_zero_in_range :
      (l : List Float) (i : ℕ)
      → (0 < length l → i < length l)
      → index_or_zero fl l i ≡ pure (value_at l i)
  unfolding index_or_zero value_at get_elem?
  index_or_zero_in_range [] i h = refl
  index_or_zero_in_range (x ∷ xs) i h =
      let (a, found) = get_elem?_of_lt (x ∷ xs) i (h (omega arith)) in
      rw (found, value_at) (index_found (x ∷ xs) i a found)

  -- The reads by position are in range, and so the dictionary is built.
  stats_of : ℕ → ℕ → Float → List Float → SingleStats Float
  stats_of count success duration l = record {
    count = count;
    success = success;
    tps = rate fl success duration;
    p50_ms = value_at l (length l / 2);
    p95_ms = value_at l (length l * 95 / 100);
    p99_ms = value_at l (length l * 99 / 100);
    avg_ms = mean_or_zero fl l;
  }

  single_stats-stats_of :
      (count success : ℕ) (duration : Float) (l : List Float)
      → single_stats fl count success duration l ≡ pure (stats_of count success duration l)
  unfolding single_stats stats_of
  single_stats-stats_of count success duration l = rw (
    index_or_zero_in_range l (length l / 2) (λ h. omega arith),
    index_or_zero_in_range l (length l * 95 / 100) (λ h. omega arith),
    index_or_zero_in_range l (length l * 99 / 100) (λ h. omega arith),
  )

  module _ (ord : IsOrdered fl) where
    value_at_ascending :
        (l : List Float) (i j : ℕ)
        → IsAscending fl l
        → i ≤ j
        → (0 < length l → j < length l)
        → fl.lt (value_at l j) (value_at l i) ≡ false
    unfolding value_at get_elem?
    value_at_ascending [] i j h le k = le_refl fl ord _
    value_at_ascending (x ∷ xs) i j h le k =
        let l : List Float = x ∷ xs in
        let (a, ea) = get_elem?_of_lt l i (omega (arith, k (omega arith))) in
        let (b, eb) = get_elem?_of_lt l j (k (omega arith)) in
        rw (ea, eb, value_at) (get_elem?-ascending fl ord l i j a b h le ea eb)

    -- The percentiles of ascending latencies ascend.
    stats_of-ascending :
        (count success : ℕ) (duration : Float) (l : List Float)
        → IsAscending fl l
        → let st : SingleStats Float = stats_of count success duration l in
          (fl.lt st.p95_ms st.p50_ms ≡ false) × (fl.lt st.p99_ms st.p95_ms ≡ false)
    unfolding stats_of
    stats_of-ascending count success duration l h = (
      value_at_ascending l _ _ h (omega arith) (λ p. omega arith),
      value_at_ascending l _ _ h (omega arith) (λ p. omega arith),
    )

module _ {Float : Type 0} (fl : Floats Float) (host : Host Float) (server_url : Text) where
  -- The benchmark never raises. It sends one request for each count, and reports the count and,
  -- as its successes, the answers with status 201, no more than the count.
  pub benchmark_single-counts :
      (count : ℕ) (w : Trace)
      → Ends
          (λ st v.
            (st.count ≡ count)
            × (st.success ≤ count)
            × (created v ≡ created w + st.success)
            × (sent v ≡ sent w + count))
          Never
          (benchmark_single fl host server_url count w)
  unfolding benchmark_single answers
  benchmark_single-counts count w =
      Ends-bind (Counted fl host server_url (read_clock ∷ w) count) _ Never
        (for_range count 0 (single_round fl host server_url)
          (record { latencies = []; success = 0 }))
        _ (read_clock ∷ w) (rounds_Counted fl host server_url count (read_clock ∷ w))
        λ s v h. rw single_stats-stats_of (unfold stats_of in ground arith)

  -- On ordered floats the reported percentiles ascend: p50 ≤ p95 ≤ p99.
  pub benchmark_single-percentiles :
      (ord : IsOrdered fl) (count : ℕ) (w : Trace)
      → Ends
          (λ st _. (fl.lt st.p95_ms st.p50_ms ≡ false) × (fl.lt st.p99_ms st.p95_ms ≡ false))
          Never
          (benchmark_single fl host server_url count w)
  unfolding benchmark_single
  benchmark_single-percentiles ord count w =
      Ends-bind (Counted fl host server_url (read_clock ∷ w) count) _ Never
        (for_range count 0 (single_round fl host server_url)
          (record { latencies = []; success = 0 }))
        _ (read_clock ∷ w) (rounds_Counted fl host server_url count (read_clock ∷ w))
        λ s v h.
          rw single_stats-stats_of
            (stats_of-ascending fl ord count s.success _ _ (sort-IsAscending fl ord s.latencies))
