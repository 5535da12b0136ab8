-- ===== src/Prelude/Strings.antt =====
-- Text as a list of code points, and the decimal notation that an f-string gives a number.
use Prim.Native.Char.{code}
use Prim.Native.String.{String}
use Prim.Native.Nat.{ℕ, zero, suc, ◌+◌, ◌-◌, ◌*◌, ◌/◌, ◌%◌, ◌≤◌, ◌<◌}
use mathlib.Core.Path.{◌≡◌, refl}
use mathlib.Core.Logic.{◌↔◌, inl, inr}
use mathlib.Core.Bool.{Bool, true, false, ◌&&◌}
use mathlib.Core.List.{List, [], ◌∷◌, ◌++◌}
use native.Mathlib.Omega.{arith}
use sndv_kv.Prelude.Tests.{Bool-cases, ltb, ◌==◌, if◌then◌else◌}

abbrev pub Text : Type 0
Text = List ℕ

-- The text of a literal. `String` has its own `[]` and `∷`.
abbrev pub text : String → Text
text String.[] = []
text (String.◌∷◌ c s) = code c ∷ text s

unfoldable pub text_eq : Text → Text → Bool
text_eq [] [] = true
text_eq (a ∷ s) (b ∷ t) = a == b && text_eq s t
text_eq _ _ = false

pub text_eq_iff : (s t : Text) → (text_eq s t ≡ true) ↔ (s ≡ t)
unfolding text_eq
text_eq_iff [] [] = (λ _. refl, λ _. refl)
text_eq_iff [] (b ∷ t) = (λ h. cc, λ h. cc)
text_eq_iff (a ∷ s) [] = (λ h. cc, λ h. cc)
text_eq_iff (a ∷ s) (b ∷ t) = ground (arith, text_eq_iff s t)

-- The digits of `n`, most significant first; `n` rounds are enough.
digits_from : ℕ → ℕ → Text
digits_from zero n = []
digits_from (suc f) n =
    let high = digits_from f (n / 10) in
    if ltb n 10 then (n + 48) ∷ [] else high ++ (n % 10 + 48) ∷ []

-- `str(n)` for a natural number.
unfoldable pub decimal : ℕ → Text
unfolding digits_from
decimal n = digits_from (suc n) n

decimal_example : decimal 2048 ≡ text "2048"
unfolding decimal
decimal_example = refl

-- The number that a text of digits denotes.
unfoldable pub number_of : ℕ → Text → ℕ
number_of acc [] = acc
number_of acc (c ∷ s) = number_of (acc * 10 + (c - 48)) s

number_of-append :
    (acc : ℕ) (s : Text) (c : ℕ) → number_of acc (s ++ c ∷ []) ≡ number_of acc s * 10 + (c - 48)
unfolding number_of
number_of-append acc [] c = refl
number_of-append acc (d ∷ s) c = number_of-append (acc * 10 + (d - 48)) s c

number_of-digits_from : (f n : ℕ) → n < f → number_of 0 (digits_from f n) ≡ n
unfolding digits_from number_of
number_of-digits_from zero n h = elim h [ ]
number_of-digits_from (suc f) n h = ground (
  arith,
  number_of-append 0 (digits_from f (n / 10)) (n % 10 + 48),
  number_of-digits_from f (n / 10),
)

pub number_of-decimal : (n : ℕ) → number_of 0 (decimal n) ≡ n
unfolding decimal
number_of-decimal n = number_of-digits_from (suc n) n (omega arith)

pub decimal-injective : (m n : ℕ) → decimal m ≡ decimal n → m ≡ n
decimal-injective m n e = cc (number_of-decimal m, number_of-decimal n)

-- A text of digits.
abbrev pub IsNumeral : Text → Type 0
IsNumeral [] = Unit
IsNumeral (c ∷ s) = ((48 ≤ c) × (c < 58)) × IsNumeral s

IsNumeral-snoc : (s : Text) (c : ℕ) → IsNumeral s → 48 ≤ c → c < 58 → IsNumeral (s ++ c ∷ [])
IsNumeral-snoc [] c h low high = ((low, high), tt)
IsNumeral-snoc (d ∷ s) c h low high = (h.0, IsNumeral-snoc s c h.1 low high)

digits_from-IsNumeral : (f n : ℕ) → IsNumeral (digits_from f n)
unfolding digits_from
digits_from-IsNumeral zero n = tt
digits_from-IsNumeral (suc f) n = elim (Bool-cases (ltb n 10)) [
  | inl one ↦ rw one ((omega arith, ground arith), tt)
  | inr more ↦ rw more (
      IsNumeral-snoc (digits_from f (n / 10)) (n % 10 + 48) (digits_from-IsNumeral f (n / 10))
        (omega arith) (omega arith))
]

pub decimal-IsNumeral : (n : ℕ) → IsNumeral (decimal n)
unfolding decimal
decimal-IsNumeral n = digits_from-IsNumeral (suc n) n
