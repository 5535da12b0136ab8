-- ===== src/Orchestrator/Resources/Figures.antt =====
-- The memory that `collect_resource_metrics` of bench_orchestrator.py reads off `docker stats`.
use sndv_kv.Prelude.{
  ℕ, ◌≡◌, ◌≢◌, ap, ◌≤◌, ◌<◌, refl, ◌⊎◌, Text, text, Bool, true, false, [], ◌∷◌, ◌++◌, Option, none,
  some, All, arith, ◌==◌, if◌then◌else◌,
}
use sndv_kv.Python.{Trace, Host, Result, ok, raise, value_error}
use sndv_kv.Python.Actions.{Py, pure, throw, ◌>>=◌}
use mathlib.Core.List.{append-nil}
use sndv_kv.Python.Floats.{Floats}
use sndv_kv.Python.Texts.{
  cut, after_prefix, strip, strip_left, strip_right, remove, remove_from, contains, is_space,
}
use sndv_kv.Orchestrator.Resources.{first_part, used_part, without_unit, memory_of}

-- A digit or a point.
abbrev pub IsFigure : ℕ → Type 0
IsFigure c = ((48 ≤ c) × (c < 58)) ⊎ (c ≡ 46)

-- What is no white space, and no slash.
abbrev IsInk : ℕ → Type 0
IsInk c = (is_space c ≡ false) × (c ≢ 47)

All-append : (P : ℕ → Type 0) (s t : Text) → All P s → All P t → All P (s ++ t)
All-append P [] t h k = k
All-append P (c ∷ s) t h k = (h.0, All-append P s t h.1 k)

IsFigure-IsInk : (s : Text) → All IsFigure s → All IsInk s
IsFigure-IsInk [] h = tt
IsFigure-IsInk (c ∷ s) h = ((ground arith, ground arith), IsFigure-IsInk s h.1)

cut-ink :
    (s rest : Text)
    → All IsInk s
    → cut (text "/") (s ++ (text " / " ++ rest)) ≡ some (s ++ text " ", text " " ++ rest)
unfolding cut after_prefix
cut-ink [] rest h = refl
cut-ink (c ∷ s) rest h =
    let other : (47 == c) ≡ false = ground (arith, h.0) in
    rw (other, cut) (rw (cut-ink s rest h.1, cut) refl)

strip_right-ink : (s : Text) → All IsInk s → strip_right (s ++ text " ") ≡ s
unfolding strip_right
strip_right-ink [] h = refl
strip_right-ink (c ∷ []) h = rw (h.0.0, strip_right) refl
strip_right-ink (c ∷ d ∷ s) h = rw (strip_right-ink (d ∷ s) h.1, strip_right) refl

strip_left-ink : (s : Text) → All IsInk s → strip_left s ≡ s
unfolding strip_left
strip_left-ink [] h = refl
strip_left-ink (c ∷ s) h = rw (h.0.0, strip_left) refl

used_part-ink : (s rest : Text) → All IsInk s → used_part (s ++ (text " / " ++ rest)) ≡ s
unfolding used_part
used_part-ink s rest h =
    rw (cut-ink s rest h, first_part)
      (unfold strip in rw (strip_right-ink s h) (strip_left-ink s h))

strip_right-fixed : (s : Text) → All IsInk s → strip_right s ≡ s
unfolding strip_right
strip_right-fixed [] h = refl
strip_right-fixed (c ∷ []) h = rw (h.0.0, strip_right) refl
strip_right-fixed (c ∷ d ∷ s) h = rw (strip_right-fixed (d ∷ s) h.1, strip_right) refl

-- Text without white space is left as it is.
strip-ink : (s : Text) → All IsInk s → strip s ≡ s
unfolding strip
strip-ink s h = rw (strip_right-fixed s h) (strip_left-ink s h)

-- A pattern that begins with a letter stands nowhere in figures.
remove-figures :
    (c : ℕ) (p s t : Text)
    → 58 ≤ c
    → All IsFigure s
    → remove (c ∷ p) (s ++ t) ≡ s ++ remove (c ∷ p) t
unfolding remove remove_from after_prefix
remove-figures c p [] t le h = refl
remove-figures c p (d ∷ s) t le h =
    let other : (c == d) ≡ false = ground (arith, h.0) in
    rw (other, remove_from) (ap (λ r. d ∷ r) (remove-figures c p s t le h.1))

contains-figures :
    (c : ℕ) (p s t : Text)
    → 58 ≤ c
    → All IsFigure s
    → contains (c ∷ p) (s ++ t) ≡ contains (c ∷ p) t
unfolding contains cut after_prefix
contains-figures c p [] t le h = refl
contains-figures c p (d ∷ s) t le h =
    let other : (c == d) ≡ false = ground (arith, h.0) in
    rw (other, contains) (ground (arith, contains-figures c p s t le h.1))

-- The figures of a size in MiB, in GiB and in KiB, as `docker stats` prints them, before the limit.
module _ {Float : Type 0} (fl : Floats Float) (host : Host Float) (s limit : Text)
    (figures : All IsFigure s) (w : Trace) where
  -- `float` of the figures.
  abbrev pub value_of : (Float → Float) → Result Float
  value_of f = elim (host.parse s) [ none ↦ raise value_error | some x ↦ ok (f x) ]

  ink : (u : Text) → All IsInk u → All IsInk (s ++ u)
  ink u h = All-append IsInk s u (IsFigure-IsInk s figures) h

  used_lem : (u : Text) → All IsInk u → used_part ((s ++ u) ++ (text " / " ++ limit)) ≡ s ++ u
  used_lem u h = used_part-ink (s ++ u) limit (ink u h)

  unit_lem :
      (u v : Text)
      → remove (text "GiB") (remove (text "MiB") u) ≡ v
      → All IsInk v
      → without_unit (s ++ u) ≡ s ++ v
  unfolding without_unit
  unit_lem u v e h =
      rw
        (
          remove-figures b'M' (text "iB") s u (omega arith) figures,
          remove-figures b'G' (text "iB") s (remove (text "MiB") u) (omega arith) figures,
          e,
        )
        (strip-ink (s ++ v) (ink v h))

  float_lem :
      (o : Option Float) (f : Float → Float)
      → (elim o as (λ _. Py Float) [ none ↦ throw value_error | some x ↦ pure x ] >>= λ x.
            pure (f x))
          w
        ≡ (elim o [ none ↦ raise value_error | some x ↦ ok (f x) ], w)
  float_lem none f = refl
  float_lem (some x) f = refl

  memory_lem :
      (u v : Text) (giga : Bool)
      → All IsInk u
      → All IsInk v
      → remove (text "GiB") (remove (text "MiB") u) ≡ v
      → contains (text "GiB") u ≡ giga
      → memory_of fl host ((s ++ u) ++ (text " / " ++ limit)) w ≡ (
        elim (host.parse (s ++ v)) [
          | none ↦ raise value_error
          | some x ↦ ok (if giga then fl.mul x (fl.of_ℕ 1024) else x)
        ],
        w,
      )
  unfolding memory_of
  memory_lem u v giga hu hv e g =
      rw
        (
          used_lem u hu,
          unit_lem u v e hv,
          contains-figures b'G' (text "iB") s u (omega arith) figures,
          g,
        )
        (float_lem (host.parse (s ++ v)) (λ x. if giga then fl.mul x (fl.of_ℕ 1024) else x))

  -- What is read of a memory in MiB is the value of its figures, and of one in GiB 1024 times that.
  -- No other unit is taken off: one in KiB raises if the figures with their unit are no number.
  pub memory_of_units :
      host.parse (s ++ text "KiB") ≡ none
      → (memory_of fl host ((s ++ text "MiB") ++ (text " / " ++ limit)) w ≡ (value_of (λ x. x), w))
        × (memory_of fl host ((s ++ text "GiB") ++ (text " / " ++ limit)) w
            ≡ (value_of (λ x. fl.mul x (fl.of_ℕ 1024)), w))
        × (memory_of fl host ((s ++ text "KiB") ++ (text " / " ++ limit)) w
            ≡ (raise value_error, w))
  unfolding remove remove_from after_prefix contains cut
  memory_of_units none_kib = (
    rw (append-nil s) at (memory_lem (text "MiB") [] false (ground arith) tt refl refl),
    rw (append-nil s) at (memory_lem (text "GiB") [] true (ground arith) tt refl refl),
    rw none_kib at
        (memory_lem (text "KiB") (text "KiB") false (ground arith) (ground arith) refl refl),
  )
