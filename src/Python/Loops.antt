-- ===== src/Python/Loops.antt =====
-- `for i in range(n)`, and the rules to reason about actions and loops.
use sndv_kv.Prelude.{ℕ, zero, suc, ◌+◌, ◌≡◌, arith}
use sndv_kv.Python.{Result, ok, raise, Exn, Trace}
use sndv_kv.Python.Actions.{Py, pure, ◌>>=◌, catch}

-- `n` rounds, from `i` on.
unfoldable pub for_range : {S : Type 0} → ℕ → ℕ → (ℕ → S → Py S) → S → Py S
for_range zero i body s = pure s
for_range (suc n) i body s = body i s >>= for_range n (i + 1) body

-- `Q` of what an action returns, or `E` of what it raises, with the trace that it leaves.
abbrev pub Ends :
    {A : Type 0} → (A → Trace → Type 0) → (Exn → Trace → Type 0) → Result A × Trace → Type 0
Ends Q E (ok a, w) = Q a w
Ends Q E (raise e, w) = E e w

-- No exception leaves the action.
abbrev pub Never : Exn → Trace → Type 0
Never e w = ⊥

module _ {A B : Type 0} (Q : A → Trace → Type 0) (R : B → Trace → Type 0)
    (E : Exn → Trace → Type 0) where
  pub Ends-bind :
      (m : Py A) (f : A → Py B) (w : Trace)
      → Ends Q E (m w)
      → ((a : A) (v : Trace) → Q a v → Ends R E (f a v))
      → Ends R E ((m >>= f) w)
  Ends-bind m f w h k = go (m w).0 (m w).1 h
    where
      go : (r : Result A) (v : Trace) → Ends Q E (r, v) → Ends R E (((λ _. (r, v)) >>= f) w)
      go (ok a) v q = k a v q
      go (raise e) v q = q

module _ {A : Type 0} (Q : A → Trace → Type 0) (E F : Exn → Trace → Type 0) where
  pub Ends-catch :
      (m : Py A) (h : Exn → Py A) (w : Trace)
      → Ends Q E (m w)
      → ((e : Exn) (v : Trace) → E e v → Ends Q F (h e v))
      → Ends Q F (catch m h w)
  Ends-catch m h w q k = go (m w).0 (m w).1 q
    where
      go : (r : Result A) (v : Trace) → Ends Q E (r, v) → Ends Q F (catch (λ _. (r, v)) h w)
      go (ok a) v q = q
      go (raise e) v q = k e v q

pub Ends-map :
    {A : Type 0} (Q R : A → Trace → Type 0) (E : Exn → Trace → Type 0) (r : Result A × Trace)
    → ((a : A) (v : Trace) → Q a v → R a v)
    → Ends Q E r
    → Ends R E r
Ends-map Q R E (ok a, w) k h = k a w h
Ends-map Q R E (raise e, w) k h = h

pub Ends-mono :
    {A : Type 0} (Q R : A → Trace → Type 0) (E F : Exn → Trace → Type 0) (r : Result A × Trace)
    → ((a : A) (v : Trace) → Q a v → R a v)
    → ((e : Exn) (v : Trace) → E e v → F e v)
    → Ends Q E r
    → Ends R F r
Ends-mono Q R E F (ok a, w) k l h = k a w h
Ends-mono Q R E F (raise e, w) k l h = l e w h

-- Rounds that keep an invariant.
pub for_range-Ends :
    {S : Type 0} (P : ℕ → S → Trace → Type 0) (E : Exn → Trace → Type 0) (body : ℕ → S → Py S)
    → ((i : ℕ) (s : S) (w : Trace) → P i s w → Ends (P (i + 1)) E (body i s w))
    → (n i j : ℕ) (s : S) (w : Trace) → i + n ≡ j
    → P i s w
    → Ends (P j) E (for_range n i body s w)
unfolding for_range
for_range-Ends P E body keep zero i j s w e h = let e' : i ≡ j = omega arith in rw e' at h
for_range-Ends P E body keep (suc n) i j s w e h =
    Ends-bind (P (i + 1)) (P j) E (body i s) (for_range n (i + 1) body) w (keep i s w h)
      λ t v q. for_range-Ends P E body keep n (i + 1) j t v (omega arith) q

pub Ends-Never :
    {A : Type 0} (Q : A → Trace → Type 0) (E : Exn → Trace → Type 0) (r : Result A × Trace)
    → Ends Q Never r
    → Ends Q E r
Ends-Never Q E (ok a, w) h = h
Ends-Never Q E (raise e, w) h = elim h [ ]

pub Ends-both :
    {A : Type 0} (Q R : A → Trace → Type 0) (E : Exn → Trace → Type 0) (s : Result A × Trace)
    → Ends Q Never s
    → Ends R E s
    → Ends (λ a v. Q a v × R a v) Never s
Ends-both Q R E (ok a, v) h k = (h, k)
Ends-both Q R E (raise e, v) h k = h

-- An action that returns, whatever it returns.
abbrev pub Quiet : {A : Type 0} → Result A × Trace → Type 0
Quiet = Ends (λ _ _. Unit {0}) Never

pub Quiet-bind :
    {A B : Type 0} (Q : B → Trace → Type 0) (m : Py A) (f : A → Py B) (w : Trace)
    → Quiet (m w)
    → ((a : A) (v : Trace) → Ends Q Never (f a v))
    → Ends Q Never ((m >>= f) w)
Quiet-bind Q m f w h k = Ends-bind (λ _ _. Unit) Q Never m f w h λ a v _. k a v
