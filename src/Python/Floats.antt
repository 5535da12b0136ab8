-- ===== src/Python/Floats.antt =====
-- Floats as the programs use them: an abstract type with the operations of the source.
use sndv_kv.Prelude.{ℕ, ◌≡◌, Bool, true, false, List, not, ◌&&◌, if◌then◌else◌}

-- `mean` is `statistics.mean`. A division by zero raises in Python: its callers test for it.
pub record Floats (Float : Type 0) : Type 0 where
  pub of_ℕ : ℕ → Float
  pub half : Float
  pub add : Float → Float → Float
  pub sub : Float → Float → Float
  pub mul : Float → Float → Float
  pub div : Float → Float → Float
  pub lt : Float → Float → Bool
  pub mean : List Float → Float

-- The order of the floats that are no NaN: total, as a weak order below.
pub record IsOrdered {Float : Type 0} (fl : Floats Float) : Type 0 where
  pub asymm : (a b : Float) → fl.lt a b ≡ true → fl.lt b a ≡ false
  pub le_trans : (a b c : Float) → fl.lt b a ≡ false → fl.lt c b ≡ false → fl.lt c a ≡ false

module _ {Float : Type 0} (fl : Floats Float) where
  -- `x == 0`
  abbrev pub is_zero : Float → Bool
  is_zero x = not (fl.lt x (fl.of_ℕ 0)) && not (fl.lt (fl.of_ℕ 0) x)

  -- `success / duration if duration > 0 else 0`
  unfoldable pub rate : ℕ → Float → Float
  rate success duration =
      if fl.lt (fl.of_ℕ 0) duration then fl.div (fl.of_ℕ success) duration else fl.of_ℕ 0
