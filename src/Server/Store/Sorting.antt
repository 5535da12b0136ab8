-- ===== src/Server/Store/Sorting.antt =====
-- The sorted slice that the flush writes.
use sndv_kv.Prelude.{
  ◌≡◌, refl, ap, ◌∙◌, inl, inr, Text, text_eq, text_eq_iff, false, Bool-cases, List, [], ◌∷◌, none,
  some, All, arith, if◌then◌else◌,
}
use sndv_kv.Server.Wal.{Entry}
use sndv_kv.Server.Memory.{find_entry}
use sndv_kv.Server.Memory.Lookups.{Distinct}
use sndv_kv.Server.Store.{text_lt, insert_by_key, sort_by_key}

find_entry-insert_by_key :
    (j : Text) (e : Entry) (es : List Entry)
    → find_entry e.key es ≡ none
    → find_entry j (insert_by_key e es) ≡ (if text_eq e.key j then some e else find_entry j es)
unfolding find_entry insert_by_key
find_entry-insert_by_key j e [] h = refl
find_entry-insert_by_key j e (d ∷ es) h = ground (
  arith,
  find_entry-insert_by_key j e es,
  text_eq_iff d.key e.key,
  text_eq_iff d.key j,
  text_eq_iff e.key j,
  h,
)

Distinct-insert_by_key :
    (e : Entry) (es : List Entry)
    → find_entry e.key es ≡ none
    → Distinct es
    → Distinct (insert_by_key e es)
unfolding find_entry insert_by_key
Distinct-insert_by_key e [] h d = (refl, tt)
Distinct-insert_by_key e (f ∷ es) h d =
    let apart : text_eq f.key e.key ≡ false = ground (arith, h) in
    let later : find_entry e.key es ≡ none = rw apart at h in
    elim (Bool-cases (text_lt f.key e.key)) [
      | inr before ↦ rw before (h, d)
      | inl after ↦ rw after (
        ground (
          arith,
          find_entry-insert_by_key f.key e es later,
          d.0,
          apart,
          text_eq_iff e.key f.key,
          text_eq_iff f.key e.key,
        ),
        Distinct-insert_by_key e es later d.1,
      )
    ]

-- A sorted slice has the same entries for each key.
pub sort_lem :
    (es : List Entry)
    → Distinct es
    → Distinct (sort_by_key es) × ((j : Text) → find_entry j (sort_by_key es) ≡ find_entry j es)
unfolding sort_by_key find_entry
sort_lem [] d = (tt, λ j. refl)
sort_lem (e ∷ es) d =
    let (distinct, same) = sort_lem es d.1 in
    let fresh : find_entry e.key (sort_by_key es) ≡ none = same e.key ∙ d.0 in
    (
      Distinct-insert_by_key e (sort_by_key es) fresh distinct,
      λ j.
          find_entry-insert_by_key j e (sort_by_key es) fresh
          ∙ ap (λ o. if text_eq e.key j then some e else o) (same j),
    )

pub All-insert_by_key :
    (P : Entry → Type 0) (e : Entry) (es : List Entry) → P e → All P es → All P (insert_by_key e es)
unfolding insert_by_key
All-insert_by_key P e [] h k = (h, tt)
All-insert_by_key P e (f ∷ es) h k = elim (Bool-cases (text_lt f.key e.key)) [
  | inl after ↦ rw after (k.0, All-insert_by_key P e es h k.1)
  | inr before ↦ rw before (h, k)
]

pub All-sort_by_key : (P : Entry → Type 0) (es : List Entry) → All P es → All P (sort_by_key es)
unfolding sort_by_key
All-sort_by_key P [] h = tt
All-sort_by_key P (e ∷ es) h = All-insert_by_key P e (sort_by_key es) h.0 (All-sort_by_key P es h.1)
