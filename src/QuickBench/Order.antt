-- ===== src/QuickBench/Order.antt =====
-- The order in which the futures of quick_bench.py complete does not change what is reported.
use mathlib.Core.List.{Permᴰ, append-nil, append_assoc}
use mathlib.Core.List.Permᴰ
use sndv_kv.Prelude.{
  ℕ, suc, ◌+◌, ◌≡◌, refl, ap, ◌∙◌, Bool, true, false, List, [], ◌∷◌, ◌++◌, arith, length,
}
use sndv_kv.Python.Floats.{Floats}
use sndv_kv.Python.Linear.{IsLinear, sort-eq_of_perm}
use sndv_kv.QuickBench.{BenchmarkMetrics, new_metrics, add_success, add_error, collect, get_stats}

module _ {Float : Type 0} where
  -- The latencies of the requests that succeeded, in order.
  latencies_of : List (Bool × Float) → List Float
  latencies_of [] = []
  latencies_of ((true, x) ∷ done) = x ∷ latencies_of done
  latencies_of ((false, x) ∷ done) = latencies_of done

  failures : List (Bool × Float) → ℕ
  failures [] = 0
  failures ((true, x) ∷ done) = failures done
  failures ((false, x) ∷ done) = failures done + 1

  -- The loop adds to its metrics what the list holds.
  collect_lem :
      (m : BenchmarkMetrics Float) (done : List (Bool × Float))
      → ((collect m done).latencies ≡ m.latencies ++ latencies_of done)
        × ((collect m done).errors ≡ m.errors + failures done)
        × ((collect m done).success ≡ m.success + length (latencies_of done))
  unfolding collect add_success add_error latencies_of failures
  collect_lem m [] = (rw append-nil, omega arith, omega arith)
  collect_lem m ((true, x) ∷ done) =
      let (ls, es, ss) = collect_lem (add_success m x) done in
      (ls ∙ append_assoc m.latencies (x ∷ []) (latencies_of done), es, omega (arith, ss))
  collect_lem m ((false, x) ∷ done) =
      let (ls, es, ss) = collect_lem (add_error m) done in (ls, omega (arith, es), ss)

  latencies_of-perm :
      {xs ys : List (Bool × Float)} → Permᴰ xs ys → Permᴰ (latencies_of xs) (latencies_of ys)
  unfolding latencies_of
  latencies_of-perm Permᴰ.nil = Permᴰ.nil
  latencies_of-perm (Permᴰ.cons {a = (true, x)} e p) =
      rw (← e) (Permᴰ.cons refl (latencies_of-perm p))
  latencies_of-perm (Permᴰ.cons {a = (false, x)} e p) = rw (← e) (latencies_of-perm p)
  latencies_of-perm (Permᴰ.swap {a = (true, x)} {b = (true, y)} e f) =
      rw (← e, ← f) (Permᴰ.swap refl refl)
  latencies_of-perm (Permᴰ.swap {a = (true, x)} {b = (false, y)} e f) = rw (← e, ← f) (Permᴰ.refl _)
  latencies_of-perm (Permᴰ.swap {a = (false, x)} {b = (true, y)} e f) = rw (← e, ← f) (Permᴰ.refl _)
  latencies_of-perm (Permᴰ.swap {a = (false, x)} {b = (false, y)} e f) =
      rw (← e, ← f) (Permᴰ.refl _)
  latencies_of-perm (Permᴰ.trans p q) = Permᴰ.trans (latencies_of-perm p) (latencies_of-perm q)

  -- Every future is counted once.
  failures_lem :
      (done : List (Bool × Float)) → length (latencies_of done) + failures done ≡ length done
  unfolding latencies_of failures
  failures_lem [] = omega arith
  failures_lem ((true, x) ∷ done) = omega (arith, failures_lem done)
  failures_lem ((false, x) ∷ done) = omega (arith, failures_lem done)

length-perm : {A : Type 0} {xs ys : List A} → Permᴰ xs ys → length xs ≡ length ys
length-perm Permᴰ.nil = refl
length-perm (Permᴰ.cons e p) = ap suc (length-perm p)
length-perm (Permᴰ.swap e f) = refl
length-perm (Permᴰ.trans p q) = length-perm p ∙ length-perm q

module _ {Float : Type 0} (fl : Floats Float) (lin : IsLinear fl) where
  -- On linearly ordered floats, whatever the order in which the same results come in, the counts
  -- and the statistics are the same. Every result is counted once, as a success or as an error.
  pub get_stats-order :
      (xs ys : List (Bool × Float))
      → Permᴰ xs ys
      → (get_stats fl (collect new_metrics xs) ≡ get_stats fl (collect new_metrics ys))
        × ((collect new_metrics xs).success ≡ (collect new_metrics ys).success)
        × ((collect new_metrics xs).errors ≡ (collect new_metrics ys).errors)
        × ((collect new_metrics xs).success + (collect new_metrics xs).errors ≡ length xs)
  unfolding get_stats
  get_stats-order xs ys p =
      let (lx, ex, sx) = collect_lem new_metrics xs in
      let (ly, ey, sy) = collect_lem new_metrics ys in
      let q : Permᴰ (latencies_of xs) (latencies_of ys) = latencies_of-perm p in
      (
        rw (lx, ly, sort-eq_of_perm fl lin q),
        omega (arith, sx, sy, length-perm q),
        omega (arith, ex, ey, failures_lem xs, failures_lem ys, length-perm p, length-perm q),
        omega (arith, sx, ex, failures_lem xs),
      )
