-- ===== src/Python/Texts.antt =====
-- Methods of Python's `str`.
use sndv_kv.Prelude.{
  ℕ, zero, suc, ◌-◌, Text, Bool, true, false, [], ◌∷◌, Option, none, some, length, leb, ◌==◌, ◌||◌,
  ◌&&◌, if◌then◌else◌,
}

-- The rest of `s` behind the prefix `p`.
unfoldable pub after_prefix : Text → Text → Option Text
after_prefix [] s = some s
after_prefix (c ∷ p) [] = none
after_prefix (c ∷ p) (d ∷ s) = if c == d then after_prefix p s else none

-- `s` around the first place where `p` stands: `s.split(p)` up to there, and what follows.
unfoldable pub cut : Text → Text → Option (Text × Text)
unfolding after_prefix
cut p [] = elim (after_prefix p []) [ none ↦ none | some r ↦ some ([], r) ]
cut p (c ∷ s) =
    let rest = cut p s in
    elim (after_prefix p (c ∷ s)) [
      | some r ↦ some ([], r)
      | none ↦ elim rest [ none ↦ none | some (before, r) ↦ some (c ∷ before, r) ]
    ]

-- The white space of ASCII: tab to carriage return, the four separators, and the space.
abbrev pub is_space : ℕ → Bool
is_space c = leb 9 c && leb c 13 || leb 28 c && leb c 32

unfoldable pub strip_left : Text → Text
strip_left [] = []
strip_left (c ∷ s) = if is_space c then strip_left s else c ∷ s

unfoldable pub strip_right : Text → Text
strip_right [] = []
strip_right (c ∷ s) = elim (strip_right s) [
  | [] ↦ if is_space c then [] else c ∷ []
  | d ∷ t ↦ c ∷ d ∷ t
]

-- `s.strip()`
unfoldable pub strip : Text → Text
unfolding strip_left strip_right
strip s = strip_left (strip_right s)

-- `p in s`
unfoldable pub contains : Text → Text → Bool
unfolding cut
contains p s = elim (cut p s) [ none ↦ false | some _ ↦ true ]

-- `s.startswith(p)` and `s.endswith(p)`
unfoldable pub starts_with : Text → Text → Bool
unfolding after_prefix
starts_with p s = elim (after_prefix p s) [ none ↦ false | some _ ↦ true ]

unfoldable pub ends_with : Text → Text → Bool
unfolding after_prefix
ends_with p [] = elim (after_prefix p []) [ some [] ↦ true | _ ↦ false ]
ends_with p (c ∷ s) = elim (after_prefix p (c ∷ s)) [ some [] ↦ true | _ ↦ ends_with p s ]

-- `s.replace(p, "")`, behind `skip` characters that are left out.
unfoldable pub remove_from : Text → ℕ → Text → Text
unfolding after_prefix
remove_from p skip [] = []
remove_from p (suc skip) (c ∷ s) = remove_from p skip s
remove_from p zero (c ∷ s) = elim (after_prefix p (c ∷ s)) [
  | none ↦ c ∷ remove_from p zero s
  | some _ ↦ remove_from p (length p - 1) s
]

unfoldable pub remove : Text → Text → Text
unfolding remove_from
remove p s = remove_from p 0 s
