-- ===== src/Python/Sort.antt =====
-- `list.sort()` and `sorted` of a list of floats: a stable sort by `<`, and the positions that the
-- percentiles of the benchmarks read.
use mathlib.Core.List.Perm
use sndv_kv.Prelude.{
  ℕ, zero, suc, ◌≡◌, refl, ◌≤◌, false, List, [], ◌∷◌, some, arith, All, Perm, inl, inr, Bool-cases,
  length, get_elem?, if◌then◌else◌,
}
use sndv_kv.Python.Floats.{Floats, IsOrdered}

module _ {Float : Type 0} (fl : Floats Float) where
  unfoldable pub insert : Float → List Float → List Float
  insert x [] = x ∷ []
  insert x (y ∷ ys) = if fl.lt y x then y ∷ insert x ys else x ∷ y ∷ ys

  unfoldable pub sort : List Float → List Float
  unfolding insert
  sort [] = []
  sort (x ∷ xs) = insert x (sort xs)

  -- No element is below an earlier one.
  abbrev pub IsAscending : List Float → Type 0
  IsAscending [] = Unit
  IsAscending (x ∷ xs) = All (λ y. fl.lt y x ≡ false) xs × IsAscending xs

  insert-perm : (x : Float) (xs : List Float) → Perm (insert x xs) (x ∷ xs)
  unfolding insert
  insert-perm x [] = Perm.refl (x ∷ [])
  insert-perm x (y ∷ ys) = elim (Bool-cases (fl.lt y x)) [
    | inl h ↦ rw h (Perm.trans (Perm.cons y (insert-perm x ys)) (Perm.swap x y ys))
    | inr h ↦ rw h (Perm.refl (x ∷ y ∷ ys))
  ]

  pub sort-perm : (xs : List Float) → Perm (sort xs) xs
  unfolding sort
  sort-perm [] = Perm.refl []
  sort-perm (x ∷ xs) = Perm.trans (insert-perm x (sort xs)) (Perm.cons x (sort-perm xs))

  length-insert : (x : Float) (xs : List Float) → length (insert x xs) ≡ suc (length xs)
  unfolding insert
  length-insert x [] = refl
  length-insert x (y ∷ ys) = ground (arith, length-insert x ys)

  pub length-sort : (xs : List Float) → length (sort xs) ≡ length xs
  unfolding sort
  length-sort [] = refl
  length-sort (x ∷ xs) = omega (arith, length-insert x (sort xs), length-sort xs)

  All-insert :
      (P : Float → Type 0) (x : Float) (xs : List Float) → P x → All P xs → All P (insert x xs)
  unfolding insert
  All-insert P x [] p ps = (p, ps)
  All-insert P x (y ∷ ys) p ps = elim (Bool-cases (fl.lt y x)) [
    | inl h ↦ rw h (ps.0, All-insert P x ys p ps.1)
    | inr h ↦ rw h (p, ps)
  ]

  module _ (ord : IsOrdered fl) where
    All-le :
        (a b : Float) (xs : List Float)
        → fl.lt b a ≡ false
        → All (λ y. fl.lt y b ≡ false) xs
        → All (λ y. fl.lt y a ≡ false) xs
    All-le a b [] h ps = tt
    All-le a b (x ∷ xs) h ps = (ord.le_trans a b x h ps.0, All-le a b xs h ps.1)

    insert-IsAscending : (x : Float) (xs : List Float) → IsAscending xs → IsAscending (insert x xs)
    unfolding insert
    insert-IsAscending x [] h = (tt, tt)
    insert-IsAscending x (y ∷ ys) h = elim (Bool-cases (fl.lt y x)) [
      | inl p ↦ rw p (
        All-insert (λ z. fl.lt z y ≡ false) x ys (ord.asymm y x p) h.0,
        insert-IsAscending x ys h.1,
      )
      | inr p ↦ rw p ((p, All-le x y ys p h.0), h)
    ]

    pub sort-IsAscending : (xs : List Float) → IsAscending (sort xs)
    unfolding sort
    sort-IsAscending [] = tt
    sort-IsAscending (x ∷ xs) = insert-IsAscending x (sort xs) (sort-IsAscending xs)

    pub le_refl : (a : Float) → fl.lt a a ≡ false
    le_refl a = elim (Bool-cases (fl.lt a a)) [ inl h ↦ ord.asymm a a h | inr h ↦ h ]

    All-get_elem? :
        (c : Float) (xs : List Float) (i : ℕ) (a : Float)
        → All (λ y. fl.lt y c ≡ false) xs
        → get_elem? xs i ≡ some a
        → fl.lt a c ≡ false
    unfolding get_elem?
    All-get_elem? c [] i a ps h = cc
    All-get_elem? c (x ∷ xs) zero a ps h = cc (ps.0)
    All-get_elem? c (x ∷ xs) (suc i) a ps h = All-get_elem? c xs i a ps.1 h

    -- In an ascending list a later position holds no smaller value.
    pub get_elem?-ascending :
        (xs : List Float) (i j : ℕ) (a b : Float)
        → IsAscending xs
        → i ≤ j
        → get_elem? xs i ≡ some a
        → get_elem? xs j ≡ some b
        → fl.lt b a ≡ false
    unfolding get_elem?
    get_elem?-ascending [] i j a b h le p q = cc
    get_elem?-ascending (x ∷ xs) zero zero a b h le p q = cc (le_refl x)
    get_elem?-ascending (x ∷ xs) (suc i) zero a b h le p q = absurd (omega arith)
    get_elem?-ascending (x ∷ xs) zero (suc j) a b h le p q =
        let e : x ≡ a = cc in rw (← e) (All-get_elem? x xs j b h.0 q)
    get_elem?-ascending (x ∷ xs) (suc i) (suc j) a b h le p q =
        get_elem?-ascending xs i j a b h.1 (omega arith) p q
