-- ===== src/Server/Compaction/Order.antt =====
-- The order of keys by which the entries of a table stand.
use sndv_kv.Prelude.{
  ◌≡◌, refl, All, inl, inr, text_eq_iff, Bool-cases, Text, text_eq, true, false, List, [], ◌∷◌,
  arith,
}
use mathlib.Core.Path.{subst}
use sndv_kv.Server.Wal.{Entry}
use sndv_kv.Server.Store.{text_lt}
use sndv_kv.Server.Compaction.{add_entry, reversed}

pub text_lt_irrefl : (s : Text) → text_lt s s ≡ false
unfolding text_lt
text_lt_irrefl [] = refl
text_lt_irrefl (a ∷ s) = ground (arith, text_lt_irrefl s)

-- `not (t < s)` is an order.
pub text_le_trans : (s t u : Text) → text_lt t s ≡ false → text_lt u t ≡ false → text_lt u s ≡ false
unfolding text_lt
text_le_trans [] t [] h k = refl
text_le_trans [] [] (c ∷ u) h k = refl
text_le_trans [] (b ∷ t) (c ∷ u) h k = refl
text_le_trans (a ∷ s) [] u h k = absurd (cc h)
text_le_trans (a ∷ s) (b ∷ t) [] h k = absurd (cc k)
text_le_trans (a ∷ s) (b ∷ t) (c ∷ u) h k = ground (arith, text_le_trans s t u, h, k)

pub text_lt_of_ne : (s t : Text) → text_lt t s ≡ false → text_eq s t ≡ false → text_lt s t ≡ true
unfolding text_lt text_eq
text_lt_of_ne [] [] h k = absurd (cc k)
text_lt_of_ne [] (b ∷ t) h k = refl
text_lt_of_ne (a ∷ s) [] h k = absurd (cc h)
text_lt_of_ne (a ∷ s) (b ∷ t) h k = ground (arith, text_lt_of_ne s t, h, k)

pub text_lt_asymm : (s t : Text) → text_lt s t ≡ true → text_lt t s ≡ false
unfolding text_lt
text_lt_asymm [] [] h = refl
text_lt_asymm [] (b ∷ t) h = refl
text_lt_asymm (a ∷ s) [] h = absurd (cc h)
text_lt_asymm (a ∷ s) (b ∷ t) h = ground (arith, text_lt_asymm s t, h)

pub text_lt_trans : (s t u : Text) → text_lt s t ≡ true → text_lt t u ≡ true → text_lt s u ≡ true
unfolding text_lt
text_lt_trans [] [] u h k = absurd (cc h)
text_lt_trans [] (b ∷ t) [] h k = absurd (cc k)
text_lt_trans [] (b ∷ t) (c ∷ u) h k = refl
text_lt_trans (a ∷ s) [] u h k = absurd (cc h)
text_lt_trans (a ∷ s) (b ∷ t) [] h k = absurd (cc k)
text_lt_trans (a ∷ s) (b ∷ t) (c ∷ u) h k = ground (arith, text_lt_trans s t u, h, k)

-- Entries by key, with equal keys or without.
abbrev pub Sorted : List Entry → Type 0
Sorted [] = Unit
Sorted (e ∷ es) = All (λ d. text_lt d.key e.key ≡ false) es × Sorted es

abbrev pub Ascending : List Entry → Type 0
Ascending [] = Unit
Ascending (e ∷ es) = All (λ d. text_lt e.key d.key ≡ true) es × Ascending es

abbrev pub Descending : List Entry → Type 0
Descending [] = Unit
Descending (e ∷ es) = All (λ d. text_lt d.key e.key ≡ true) es × Descending es

-- An entry that does not stand before the last one.
abbrev pub Leads : List Entry → Entry → Type 0
Leads [] e = Unit
Leads (d ∷ es) e = text_lt e.key d.key ≡ false

pub All-map :
    {A : Type 0} {P Q : A → Type 0} (f : (x : A) → P x → Q x) (xs : List A) → All P xs → All Q xs
All-map f [] h = tt
All-map f (x ∷ xs) h = (f x h.0, All-map f xs h.1)

pub below_trans :
    (s t : Text) (es : List Entry)
    → text_lt s t ≡ true
    → All (λ d. text_lt d.key s ≡ true) es
    → All (λ d. text_lt d.key t ≡ true) es
below_trans s t es h k = All-map (λ d below. text_lt_trans d.key s t below h) es k

pub add_entry-Descending :
    (top : Entry) (entries : List Entry)
    → Leads entries top
    → Descending entries
    → Descending (add_entry top entries)
unfolding add_entry
add_entry-Descending top [] h d = (tt, tt)
add_entry-Descending top (e ∷ entries) h d = elim (Bool-cases (text_eq e.key top.key)) [
  | inl same ↦ rw same (
    subst (λ k. All (λ c. text_lt c.key k ≡ true) entries) ((text_eq_iff e.key top.key).0 same) d.0,
    d.1,
  )
  | inr other ↦
      let after : text_lt e.key top.key ≡ true = text_lt_of_ne e.key top.key h other in
      rw other ((after, below_trans e.key top.key entries after d.0), d)
]

pub Leads-add_entry :
    (top e : Entry) (entries : List Entry)
    → text_lt e.key top.key ≡ false
    → Leads (add_entry top entries) e
unfolding add_entry
Leads-add_entry top e [] h = h
Leads-add_entry top e (d ∷ entries) h = elim (Bool-cases (text_eq d.key top.key)) [
  | inl same ↦ rw same h
  | inr other ↦ rw other h
]

Ascending-reversed_onto :
    (entries es : List Entry)
    → Descending entries
    → Ascending es
    → All (λ a. All (λ d. text_lt d.key a.key ≡ true) entries) es
    → Ascending (reversed entries es)
unfolding reversed
Ascending-reversed_onto [] es d a h = a
Ascending-reversed_onto (e ∷ entries) es d a h =
    Ascending-reversed_onto entries (e ∷ es) d.1 (All-map (λ c below. below.0) es h, a)
      (d.0, All-map (λ c below. below.1) es h)

pub reversed-Ascending :
    (entries : List Entry) → Descending entries → Ascending (reversed entries [])
reversed-Ascending entries d = Ascending-reversed_onto entries [] d tt tt
