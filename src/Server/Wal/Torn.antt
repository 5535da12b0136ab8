-- ===== src/Server/Wal/Torn.antt =====
-- A log of internal/storage/write_ahead_log.go whose last write was cut off.
use mathlib.Core.Option
use mathlib.Core.List.{append_assoc, append-nil}
use sndv_kv.Prelude.{
  ℕ, zero, suc, ◌≡◌, ◌≢◌, refl, ap, List, [], ◌∷◌, ◌++◌, Option, none, some, Option-cases, All,
  length, length-append, ◌<◌, inl, inr, arith,
}
use sndv_kv.Server.Wal.Recovery.{Fits, read_entry-encode, replay_from-step, length-encode_all}
use sndv_kv.Server.Wal.{
  encode, encode_all, truncated, replay_from, replay, write_batch, ◌>>=◌, Entry, from_le, read_full,
  read_entry,
}

-- What reads something off a text reads the same off every longer one.
abbrev IsLocal : {A : Type 0} → (List ℕ → Option (A × List ℕ)) → Type 0
IsLocal {A} p =
    (s u : List ℕ) (a : A) (r : List ℕ) → p s ≡ some (a, r) → p (s ++ u) ≡ some (a, r ++ u)

read_full-step :
    (n b : ℕ) (s t : List ℕ) (o : Option (List ℕ × List ℕ))
    → read_full n s ≡ o
    → ((a r : List ℕ) → o ≡ some (a, r) → read_full n (s ++ t) ≡ some (a, r ++ t))
    → (a r : List ℕ) → read_full (suc n) (b ∷ s) ≡ some (a, r)
    → read_full (suc n) (b ∷ (s ++ t)) ≡ some (a, r ++ t)
unfolding read_full
read_full-step n b s t none e k a r h = absurd (cc (rw e at h))
read_full-step n b s t (some (a1, r1)) e k a r h =
    let h' : some (b ∷ a1, r1) ≡ some (a, r) = rw e at h in
    rw (k a1 r1 refl) (ap (Option.map (λ (x : List ℕ × List ℕ). (x.0, x.1 ++ t))) h')

read_full-IsLocal : (n : ℕ) → IsLocal (read_full n)
unfolding read_full
read_full-IsLocal zero s u a r h = ground arith
read_full-IsLocal (suc n) [] u a r h = cc
read_full-IsLocal (suc n) (b ∷ s) u a r h =
    read_full-step n b s u (read_full n s) refl (λ a1 r1 e. read_full-IsLocal n s u a1 r1 e) a r h

bind-IsLocal :
    {A B : Type 0} (p : List ℕ → Option (A × List ℕ)) (f : A → List ℕ → Option (B × List ℕ))
    → IsLocal p
    → ((a : A) → IsLocal (f a))
    → IsLocal (λ s. p s >>= λ x. f x.0 x.1)
bind-IsLocal {A} p f h k s u b r = go (p s) refl
  where
    go :
        (o : Option (A × List ℕ))
        → p s ≡ o
        → (o >>= λ x. f x.0 x.1) ≡ some (b, r)
        → (p (s ++ u) >>= λ x. f x.0 x.1) ≡ some (b, r ++ u)
    go none e e' = cc
    go (some (a, t)) e e' = rw (h s u a t e) (k a t u b r e')

read_entry-IsLocal : IsLocal read_entry
unfolding read_entry
read_entry-IsLocal = bind-IsLocal (read_full 4) _ (read_full-IsLocal 4) λ klen.
    bind-IsLocal (read_full (from_le klen)) _ (read_full-IsLocal (from_le klen)) λ key.
      bind-IsLocal (read_full 4) _ (read_full-IsLocal 4) λ vlen.
        bind-IsLocal (read_full (from_le vlen)) _ (read_full-IsLocal (from_le vlen)) λ value.
          bind-IsLocal (read_full 9) _ (read_full-IsLocal 9)
            λ bytes s u e r h. ap (Option.map (λ (x : Entry × List ℕ). (x.0, x.1 ++ u))) h

end-empty : (r u : List ℕ) → r ++ u ≡ [] → u ≡ []
end-empty [] u h = h
end-empty (b ∷ r) u h = cc

-- A part of an entry that lacks its end is not read as an entry.
read_entry-cut :
    (e : Entry) (t u : List ℕ) → Fits e → t ++ u ≡ encode e → u ≢ [] → read_entry t ≡ none
read_entry-cut e t u fits whole more = elim (Option-cases (read_entry t)) [
  | inl h ↦ h
  | inr ((e1, r), h) ↦
      let k : read_entry (encode e ++ []) ≡ some (e1, r ++ u) =
        rw (append-nil, ← whole) (read_entry-IsLocal t u e1 r h) in
      let k' : some (e, []) ≡ some (e1, r ++ u) = rw (read_entry-encode e [] fits) at k in
      absurd (more (end-empty r u (cc k')))
]

replay_from-torn :
    (es : List Entry) (fuel : ℕ) (t : List ℕ)
    → All Fits es
    → read_entry t ≡ none
    → t ≢ []
    → length es < fuel
    → replay_from fuel (encode_all es ++ t) ≡ (es, truncated)
unfolding replay_from encode_all
replay_from-torn es zero t h none_read some_left le = elim le [ ]
replay_from-torn [] (suc fuel) [] h none_read some_left le = absurd (some_left refl)
replay_from-torn [] (suc fuel) (b ∷ t) h none_read some_left le = rw (none_read, replay_from) refl
replay_from-torn (e ∷ es) (suc fuel) t h none_read some_left le = rw append_assoc (
    rw
      (
        replay_from-step fuel _ e (encode_all es ++ t)
            (read_entry-encode e (encode_all es ++ t) h.0),
        replay_from-torn es fuel t h.1 none_read some_left (omega arith),
      )
      refl)

-- If the log ends in a part of an entry, neither nothing nor the whole of it, after any number of
-- whole entries, and the lengths and expiries of all of them fit the format, then a replay gives
-- exactly the whole entries, in order, and ends with an error.
pub replay-torn :
    (xs : List Entry) (e : Entry) (t u : List ℕ)
    → All Fits xs
    → Fits e
    → t ++ u ≡ encode e
    → t ≢ []
    → u ≢ []
    → replay (write_batch [] xs ++ t) ≡ (xs, truncated)
unfolding replay write_batch
replay-torn xs e [] u h fits whole part more = absurd (part refl)
replay-torn xs e (b ∷ t) u h fits whole part more =
    replay_from-torn xs _ (b ∷ t) h (read_entry-cut e (b ∷ t) u fits whole more) part
      (omega (arith, length-append (encode_all xs) (b ∷ t), length-encode_all xs))
