-- ===== src/Python/Linear.antt =====
-- Floats in a linear order, such as the measured times: sorting forgets the order of a list.
use mathlib.Core.List.{Permᴰ}
use sndv_kv.Prelude.{◌≡◌, refl, ◌∙◌, true, false, List, [], ◌∷◌, arith}
use sndv_kv.Python.Floats.{Floats}
use sndv_kv.Python.Sort.{insert, sort}

-- The order of the floats with no NaN and one zero.
pub record IsLinear {Float : Type 0} (fl : Floats Float) : Type 0 where
  pub asymm : (a b : Float) → fl.lt a b ≡ true → fl.lt b a ≡ false
  pub le_trans : (a b c : Float) → fl.lt b a ≡ false → fl.lt c b ≡ false → fl.lt c a ≡ false
  pub le_antisymm : (a b : Float) → fl.lt a b ≡ false → fl.lt b a ≡ false → a ≡ b

module _ {Float : Type 0} (fl : Floats Float) (lin : IsLinear fl) where
  insert_comm :
      (x y : Float) (l : List Float) → insert fl x (insert fl y l) ≡ insert fl y (insert fl x l)
  unfolding insert
  insert_comm x y [] = ground (arith, lin.asymm x y, lin.le_antisymm x y)
  insert_comm x y (z ∷ l) = ground (
    arith,
    insert_comm x y l,
    lin.asymm x y,
    lin.asymm y x,
    lin.le_antisymm x y,
    lin.le_trans y x z,
    lin.le_trans x y z,
  )

  pub sort-eq_of_perm : {xs ys : List Float} → Permᴰ xs ys → sort fl xs ≡ sort fl ys
  unfolding sort
  sort-eq_of_perm Permᴰ.nil = refl
  sort-eq_of_perm (Permᴰ.cons e p) = cc (e, sort-eq_of_perm p)
  sort-eq_of_perm (Permᴰ.swap {a} {b} {l = l} e f) = cc (e, f, insert_comm a b (sort fl l))
  sort-eq_of_perm (Permᴰ.trans p q) = sort-eq_of_perm p ∙ sort-eq_of_perm q
