-- ===== src/Bench/Keys.antt =====
-- The keys `f"{prefix}{i}_{j}"` of the batches: no two items share one.
use sndv_kv.Prelude.{
  ℕ, ◌≡◌, refl, Text, text, decimal, decimal-injective, IsNumeral, decimal-IsNumeral, [], ◌∷◌, ◌++◌,
  arith,
}
use sndv_kv.Bench.{batch_key}

append-cancel : (p s t : Text) → p ++ s ≡ p ++ t → s ≡ t
append-cancel [] s t e = e
append-cancel (c ∷ p) s t e = append-cancel p s t (cc e)

-- Texts of digits that end at the same "_" are the same.
numeral-cut :
    (s t u v : Text)
    → IsNumeral s
    → IsNumeral t
    → s ++ (b'_' ∷ u) ≡ t ++ (b'_' ∷ v)
    → (s ≡ t) × (u ≡ v)
numeral-cut [] [] u v h k e = (refl, cc e)
numeral-cut [] (d ∷ t) u v h k e = ground arith
numeral-cut (c ∷ s) [] u v h k e = ground arith
numeral-cut (c ∷ s) (d ∷ t) u v h k e =
    let (x, y) = numeral-cut s t u v h.1 k.1 (cc e) in (cc (x, e), y)

-- Two items of batches with the same prefix have the same key only if they are the same item of the
-- same batch.
pub batch_key-injective :
    (prefix : Text) (i j k l : ℕ) → batch_key prefix i j ≡ batch_key prefix k l → (i ≡ k) × (j ≡ l)
unfolding batch_key
batch_key-injective prefix i j k l e =
    let rest : decimal i ++ (text "_" ++ decimal j) ≡ decimal k ++ (text "_" ++ decimal l) =
      append-cancel prefix _ _ e in
    let (x, y) =
      numeral-cut (decimal i) (decimal k) (decimal j) (decimal l) (decimal-IsNumeral i)
        (decimal-IsNumeral k) rest in
    (decimal-injective i k x, decimal-injective j l y)
