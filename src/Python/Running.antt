-- ===== src/Python/Running.antt =====
-- What a trace says of something that one command starts and another one ends, such as a container.
use sndv_kv.Prelude.{
  ◌≡◌, refl, Text, text_eq, text_eq_iff, Bool, true, false, List, [], ◌∷◌, ◌==◌, ◌&&◌, arith,
  if◌then◌else◌,
}
use sndv_kv.Python.{Ran, exited, ran, Trace}

unfoldable pub texts_eq : List Text → List Text → Bool
texts_eq [] [] = true
texts_eq (s ∷ xs) (t ∷ ys) = text_eq s t && texts_eq xs ys
texts_eq _ _ = false

pub texts_eq_refl : (xs : List Text) → texts_eq xs xs ≡ true
unfolding texts_eq
texts_eq_refl [] = refl
texts_eq_refl (s ∷ xs) = ground (arith, text_eq_iff s s, texts_eq_refl xs)

abbrev pub succeeded : Ran → Bool
succeeded (exited code out) = code == 0
succeeded _ = false

-- Whether the container that one command starts was left running: the command succeeded, and the
-- other one was not run since.
unfoldable pub left_running : List Text → List Text → Trace → Bool
left_running start stop [] = false
left_running start stop (ran args r ∷ w) =
    if texts_eq args stop
    then false
    else if texts_eq args start && succeeded r
    then true
    else left_running start stop w
left_running start stop (_ ∷ w) = left_running start stop w

pub left_running-ran :
    (start stop args : List Text) (r : Ran) (w : Trace)
    → left_running start stop (ran args r ∷ w) ≡ (
        if texts_eq args stop
        then false
        else if texts_eq args start && succeeded r
        then true
        else left_running start stop w)
unfolding left_running
left_running-ran start stop args r w = refl
