-- ===== src/Tests/QuickBench.antt =====
-- The theorems about quick_bench.py, at a few results.
use mathlib.Core.List.{Permᴰ}
use sndv_kv.Prelude.{
  ℕ, ◌+◌, ◌≡◌, refl, inl, inr, Bool, true, false, List, [], ◌∷◌, length, All, arith,
}
use sndv_kv.QuickBench.{collect, new_metrics, get_stats}
use sndv_kv.QuickBench.Order.{get_stats-order}
use sndv_kv.QuickBench.Totals.{IsBatch}
use sndv_kv.Tests.{floats, floats-IsLinear}

abbrev first : List (Bool × ℕ)
first = (true, 7) ∷ (false, 3) ∷ []

abbrev second : List (Bool × ℕ)
second = (false, 3) ∷ (true, 7) ∷ []

get_stats-order_example :
    (get_stats floats (collect new_metrics first) ≡ get_stats floats (collect new_metrics second))
    × ((collect new_metrics first).success ≡ (collect new_metrics second).success)
    × ((collect new_metrics first).errors ≡ (collect new_metrics second).errors)
    × ((collect new_metrics first).success + (collect new_metrics first).errors ≡ length first)
get_stats-order_example = get_stats-order floats floats-IsLinear first second (Permᴰ.swap refl refl)

abbrev batches : List (ℕ × ℕ)
batches = (5, 40) ∷ (0, 90) ∷ []

batches-IsBatch : All (IsBatch 5 (omega arith)) batches
batches-IsBatch = (inr refl, (inl refl, tt))
