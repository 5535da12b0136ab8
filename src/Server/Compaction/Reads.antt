-- ===== src/Server/Compaction/Reads.antt =====
-- What searches find after a compaction.
use sndv_kv.Prelude.{
  ℕ, ◌≡◌, refl, sym, ap, ◌∙◌, inl, inr, Text, text_eq, text_eq_iff, Bool, true, false, Bool-cases,
  List, [], ◌∷◌, Option, none, some, arith, All, ◌||◌, if◌then◌else◌,
}
use mathlib.Core.Path.{subst}
use sndv_kv.Server.Wal.{Entry}
use sndv_kv.Server.Wal.Recovery.{Fits}
use sndv_kv.Server.Memory.{find_entry}
use sndv_kv.Server.Memory.Lookups.{Distinct}
use sndv_kv.Server.Bloom.{SharedBloomFilter, contains}
use sndv_kv.Server.Sstable.{SstableMetadata, first_of, encode_rows, find_in_sstable}
use sndv_kv.Server.Store.{text_lt, find_newest, search_table, search_levels}
use sndv_kv.Server.Store.Views.{
  first_of_assoc, first_of-none, find_newest-snoc, Visible, search_table-Visible,
  search_levels-Visible,
}
use sndv_kv.Server.Compaction.{files_of, add_to_level_one}
use sndv_kv.Server.Compaction.Order.{Sorted, Ascending, All-map, text_lt_irrefl, text_lt_asymm}
use sndv_kv.Server.Compaction.Kept.{has_key}
use sndv_kv.Server.Compaction.Results.{any_has, IsMerge}
use sndv_kv.Server.Compaction.Files.{encoded}

Ascending-Sorted : (es : List Entry) → Ascending es → Sorted es
Ascending-Sorted [] h = tt
Ascending-Sorted (e ∷ es) h =
    (All-map (λ d after. text_lt_asymm e.key d.key after) es h.0, Ascending-Sorted es h.1)

find_entry-above :
    (k : Text) (es : List Entry) → All (λ d. text_lt k d.key ≡ true) es → find_entry k es ≡ none
unfolding find_entry
find_entry-above k [] h = refl
find_entry-above k (d ∷ es) h = elim (Bool-cases (text_eq d.key k)) [
  | inl same ↦
      let here : text_lt k k ≡ true =
        subst (λ j. text_lt k j ≡ true) ((text_eq_iff d.key k).0 same) h.0 in
      absurd (cc (here, text_lt_irrefl k))
  | inr other ↦ rw other (find_entry-above k es h.1)
]

pub Ascending-Distinct : (es : List Entry) → Ascending es → Distinct es
Ascending-Distinct [] h = tt
Ascending-Distinct (e ∷ es) h = (find_entry-above e.key es h.0, Ascending-Distinct es h.1)

-- Entries that agree with a map.
abbrev pub Agree : (Text → Option Entry) → List Entry → Type 0
Agree m = All (λ e. m e.key ≡ some e)

pub find_entry-Agree :
    (m : Text → Option Entry) (k : Text) (es : List Entry)
    → Agree m es
    → find_entry k es ≡ (if has_key k es then m k else none)
unfolding find_entry has_key
find_entry-Agree m k [] h = refl
find_entry-Agree m k (e ∷ es) h = elim (Bool-cases (text_eq e.key k)) [
  | inl same ↦ rw same (sym h.0 ∙ ap m ((text_eq_iff e.key k).0 same))
  | inr other ↦ rw other (find_entry-Agree m k es h.1)
]

other_keys :
    (k : Text) (es : List Entry) → has_key k es ≡ false → All (λ e. text_eq e.key k ≡ false) es
unfolding has_key
other_keys k [] h = tt
other_keys k (e ∷ es) h = (ground (arith, h), other_keys k es (ground (arith, h)))

other_keys_in_lists :
    (k : Text) (lists : List (List Entry))
    → any_has k lists ≡ false
    → All (All (λ e. text_eq e.key k ≡ false)) lists
unfolding any_has
other_keys_in_lists k [] h = tt
other_keys_in_lists k (es ∷ lists) h =
    (other_keys k es (ground (arith, h)), other_keys_in_lists k lists (ground (arith, h)))

has_key-other :
    (k : Text) (es : List Entry) → All (λ e. text_eq e.key k ≡ false) es → has_key k es ≡ false
unfolding has_key
has_key-other k [] h = refl
has_key-other k (e ∷ es) h = rw (h.0, has_key-other k es h.1)

-- A merge has the keys of the lists, and no others.
pub IsMerge-any_has :
    (k : Text) (lists : List (List Entry)) (out : List Entry)
    → IsMerge lists out
    → has_key k out ≡ any_has k lists
IsMerge-any_has k lists out h = elim (Bool-cases (any_has k lists)) [
  | inl listed ↦ rw listed (h.has k listed)
  | inr other ↦ rw other (
      has_key-other k out
        (h.every (λ e. text_eq e.key k ≡ false) (other_keys_in_lists k lists other)))
]

-- A file of level 0 with the entries that were written to it.
pub record IsTable (es : List Entry) (meta : SstableMetadata) : Type 0 where
  pub file : meta.file ≡ encode_rows es
  pub found : (k : Text) → find_in_sstable meta k ≡ find_entry k es
  pub fits : All Fits es
  pub ascending : Ascending es

abbrev pub AreTables : List (List Entry) → List SstableMetadata → Type 0
AreTables [] [] = Unit
AreTables (es ∷ lists) (meta ∷ level) = IsTable es meta × AreTables lists level
AreTables _ _ = ⊥

pub files_lem :
    (lists : List (List Entry)) (level : List SstableMetadata)
    → AreTables lists level
    → files_of level ≡ encoded lists
files_lem [] [] h = refl
files_lem (es ∷ lists) (meta ∷ level) h = rw (h.0.file, files_lem lists level h.1) refl
files_lem [] (meta ∷ level) h = absurd h
files_lem (es ∷ lists) [] h = absurd h

pub All-Fits :
    (lists : List (List Entry)) (level : List SstableMetadata)
    → AreTables lists level
    → All (All Fits) lists × All Sorted lists
All-Fits [] [] h = (tt, tt)
All-Fits (es ∷ lists) (meta ∷ level) h =
    let (fits, sorted) = All-Fits lists level h.1 in
    ((h.0.fits, fits), (Ascending-Sorted es h.0.ascending, sorted))
All-Fits [] (meta ∷ level) h = absurd h
All-Fits (es ∷ lists) [] h = absurd h

either_first :
    (a b : Bool) (o : Option Entry)
    → first_of (if b then o else none) (if a then o else none) ≡ (if a || b then o else none)
unfolding first_of
either_first true true none = refl
either_first true true (some e) = refl
either_first true false o = refl
either_first false true o = first_of-none o
either_first false false o = refl

module _ (hash checksum : Text → ℕ) where
  pub level-Agree :
      (m : Text → Option Entry) (bloom : SharedBloomFilter) (k : Text) (lists : List (List Entry))
      (level : List SstableMetadata)
      → AreTables lists level
      → All (Visible hash checksum bloom) level
      → All (Agree m) lists
      → find_newest (search_table hash checksum bloom k) level
        ≡ (if any_has k lists then m k else none)
  unfolding find_newest any_has
  level-Agree m bloom k [] [] h v a = refl
  level-Agree m bloom k (es ∷ lists) (meta ∷ level) h v a =
      let here : search_table hash checksum bloom k meta ≡ (if has_key k es then m k else none) =
        search_table-Visible hash checksum bloom k meta v.0
        ∙ h.0.found k
        ∙ find_entry-Agree m k es a.0 in
      rw (level-Agree m bloom k lists level h.1 v.1 a.1, here)
        (either_first (has_key k es) (any_has k lists) (m k))
  level-Agree m bloom k [] (meta ∷ level) h v a = absurd h
  level-Agree m bloom k (es ∷ lists) [] h v a = absurd h

  level-kept :
      (bloom more : SharedBloomFilter) (level : List SstableMetadata)
      → ((id : ℕ) (k : Text)
          → contains checksum id k bloom ≡ true
          → contains checksum id k more ≡ true)
      → All (Visible hash checksum bloom) level
      → All (Visible hash checksum more) level
  level-kept bloom more [] kept h = tt
  level-kept bloom more (meta ∷ level) kept h =
      (λ k there. kept meta.file_id k (h.0 k there), level-kept bloom more level kept h.1)

  pub All-kept :
      (bloom more : SharedBloomFilter) (levels : List (List SstableMetadata))
      → ((id : ℕ) (k : Text)
          → contains checksum id k bloom ≡ true
          → contains checksum id k more ≡ true)
      → All (All (Visible hash checksum bloom)) levels
      → All (All (Visible hash checksum more)) levels
  All-kept bloom more [] kept h = tt
  All-kept bloom more (level ∷ levels) kept h =
      (level-kept bloom more level kept h.0, All-kept bloom more levels kept h.1)

  -- The levels after a compaction of level 0, by what is found in the new table.
  pub search_levels-add_to_level_one :
      (bloom more : SharedBloomFilter) (k : Text) (meta : SstableMetadata)
      (level : List SstableMetadata) (levels : List (List SstableMetadata))
      → search_table hash checksum more k meta
        ≡ find_newest (search_table hash checksum bloom k) level
      → All (All (Visible hash checksum bloom)) levels
      → All (All (Visible hash checksum more)) levels
      → search_levels hash checksum more k (add_to_level_one meta ([] ∷ levels))
        ≡ search_levels hash checksum bloom k (level ∷ levels)
  unfolding search_levels find_newest first_of add_to_level_one
  search_levels-add_to_level_one bloom more k meta level [] here v w =
      ap (λ o. first_of o none) here
  search_levels-add_to_level_one bloom more k meta level (first ∷ levels) here v w =
      ap (λ o. first_of o (search_levels hash checksum more k levels))
        (find_newest-snoc (search_table hash checksum more k) first meta)
      ∙ first_of_assoc (search_table hash checksum more k meta)
          (find_newest (search_table hash checksum more k) first)
          (search_levels hash checksum more k levels)
      ∙ ap (λ o. first_of o (search_levels hash checksum more k (first ∷ levels))) here
      ∙ ap (first_of (find_newest (search_table hash checksum bloom k) level))
          (search_levels-Visible hash checksum bloom more k (first ∷ levels) v w)
