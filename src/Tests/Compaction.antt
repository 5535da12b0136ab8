-- ===== src/Tests/Compaction.antt =====
-- The theorems about the compaction, with a heap that looks for a least element.
use sndv_kv.Prelude.{
  ◌+◌, ◌≡◌, ◌↔◌, ◌⊎◌, refl, sym, ◌∙◌, inl, inr, Text, text, text_eq, true, false, Bool-cases, List,
  [], ◌∷◌, Option, none, some, length, ltb, arith, All, if◌then◌else◌,
}
use mathlib.Core.Path.{subst}
use sndv_kv.Server.Wal.{Entry}
use sndv_kv.Server.Wal.Recovery.{Fits}
use sndv_kv.Server.Memory.{find_entry}
use sndv_kv.Server.Bloom.{SharedBloomFilter}
use sndv_kv.Server.Sstable.{SstableMetadata, write_sorted_string_table, next}
use sndv_kv.Server.Sstable.Search.{Searchable, write-Searchable}
use sndv_kv.Server.Store.{
  SystemState, text_lt, newest_entry, flush_rounds, rotate_mem_table, apply_entry,
}
use sndv_kv.Server.Store.Views.{Visible}
use sndv_kv.Server.Compaction.{MergeItem, Heap, merge_iterators, bytes_of, check_and_run_compaction}
use sndv_kv.Server.Compaction.Order.{Sorted, text_lt_asymm, text_le_trans}
use sndv_kv.Server.Compaction.Queues.{In, IsHeap}
use sndv_kv.Server.Compaction.Results.{IsMerge}
use sndv_kv.Server.Compaction.Files.{encoded, merge_iterators-IsMerge}
use sndv_kv.Server.Compaction.Reads.{Agree, AreTables}
use sndv_kv.Server.Compaction.State.{check_and_run_compaction-newest}
use sndv_kv.Server.Compaction.Flushed.{HasTables, flush_rounds-HasTables}
use sndv_kv.Server.Store.Contents.{assign}
use sndv_kv.Tests.Store.{
  waiting, waiting-Refines, sum, no_bits, rows, rows-Distinct, rows-Fits, fresh_state,
}

-- The element, or one of a least key if that is less; the other stays.
before : MergeItem → Option (MergeItem × List MergeItem) → MergeItem × List MergeItem
before x none = (x, [])
before x (some (y, rest)) = if text_lt y.entry.key x.entry.key then (y, x ∷ rest) else (x, y ∷ rest)

pub pop_least : List MergeItem → Option (MergeItem × List MergeItem)
pop_least [] = none
pop_least (x ∷ items) = some (before x (pop_least items))

abbrev pub heap : Heap
heap = record {
  MergeHeap = List MergeItem;
  empty = [];
  push = λ x items. x ∷ items;
  pop = pop_least;
  items = λ items. items;
}

record Popped (items : List MergeItem) (x : MergeItem) (rest : List MergeItem) : Type 0 where
  same_items : (y : MergeItem) → In y items ↔ ((y ≡ x) ⊎ In y rest)
  one_less : length items ≡ 1 + length rest
  least : (y : MergeItem) → In y rest → text_lt y.entry.key x.entry.key ≡ false

abbrev Pops : List MergeItem → Option (MergeItem × List MergeItem) → Type 0
Pops items none = items ≡ []
Pops items (some (x, rest)) = Popped items x rest

before-Popped :
    (x : MergeItem) (items : List MergeItem) (o : Option (MergeItem × List MergeItem))
    → Pops items o
    → Popped (x ∷ items) (before x o).0 (before x o).1
unfolding before
before-Popped x items none e =
    rw e (record { same_items = λ y. (λ h. h, λ h. h); one_less = refl; least = λ y h. absurd h })
before-Popped x items (some (y, rest)) h = elim (Bool-cases (text_lt y.entry.key x.entry.key)) [
  | inl less ↦ rw less (record {
    same_items = λ z. (
      λ k. elim k [
        | inl is_x ↦ inr (inl is_x)
        | inr later ↦ elim ((h.same_items z).0 later) [
          | inl is_y ↦ inl is_y
          | inr in_rest ↦ inr (inr in_rest)
        ]
      ],
      λ k. elim k [
        | inl is_y ↦ inr ((h.same_items z).1 (inl is_y))
        | inr later ↦ elim later [
          | inl is_x ↦ inl is_x
          | inr in_rest ↦ inr ((h.same_items z).1 (inr in_rest))
        ]
      ],
    );
    one_less = omega (arith, h.one_less);
    least = λ z k. elim k [
      | inl is_x ↦
          subst (λ (u : MergeItem). text_lt u.entry.key y.entry.key ≡ false) (sym is_x)
            (text_lt_asymm y.entry.key x.entry.key less)
      | inr in_rest ↦ h.least z in_rest
    ];
  })
  | inr no_less ↦ rw no_less (record {
    same_items = λ z. (
      λ k. elim k [ inl is_x ↦ inl is_x | inr later ↦ inr ((h.same_items z).0 later) ],
      λ k. elim k [ inl is_x ↦ inl is_x | inr later ↦ inr ((h.same_items z).1 later) ],
    );
    one_less = omega (arith, h.one_less);
    least = λ z k. elim k [
      | inl is_y ↦
          subst (λ (u : MergeItem). text_lt u.entry.key x.entry.key ≡ false) (sym is_y) no_less
      | inr in_rest ↦ text_le_trans x.entry.key y.entry.key z.entry.key no_less (h.least z in_rest)
    ];
  })
]

pop_least-Pops : (items : List MergeItem) → Pops items (pop_least items)
unfolding pop_least
pop_least-Pops [] = refl
pop_least-Pops (x ∷ items) = before-Popped x items (pop_least items) (pop_least-Pops items)

popped_lem :
    (items rest : List MergeItem) (x : MergeItem)
    → pop_least items ≡ some (x, rest)
    → Popped items x rest
popped_lem items rest x e = subst (Pops items) e (pop_least-Pops items)

heap-IsHeap : IsHeap heap
heap-IsHeap = record {
  empty_items = refl;
  push_items = λ x y h. (λ k. k, λ k. k);
  push_length = λ x h. omega arith;
  pop_none = λ h e. subst (Pops h) e (pop_least-Pops h);
  pop_items = λ h h' x y e. (popped_lem h h' x e).same_items y;
  pop_length = λ h h' x e. (popped_lem h h' x e).one_less;
  pop_least = λ h h' x y e k. (popped_lem h h' x e).least y k;
}

abbrev later_rows : List Entry
later_rows =
    record { key = text "c"; value = text "3"; expiry_timestamp = 0; is_deleted = false } ∷ []

later_rows-Fits : All Fits later_rows
later_rows-Fits = (record { key = omega arith; value = omega arith; expiry = omega arith }, tt)

abbrev lists : List (List Entry)
lists = rows ∷ later_rows ∷ []

lists-Sorted : All Sorted lists
unfolding text_lt
lists-Sorted = (((refl, tt), (tt, tt)), ((tt, tt), tt))

merge_iterators-IsMerge_example :
    (out : List Entry) × (merge_iterators next heap (bytes_of (encoded lists)) (encoded lists)
      ≡ some out)
    × IsMerge lists out
merge_iterators-IsMerge_example =
    merge_iterators-IsMerge heap lists heap-IsHeap (rows-Fits, (later_rows-Fits, tt)) lists-Sorted

abbrev first_table : SstableMetadata × SharedBloomFilter
first_table = write_sorted_string_table sum 17 rows no_bits

abbrev second_table : SstableMetadata × SharedBloomFilter
second_table = write_sorted_string_table sum 18 later_rows first_table.1

first_lem : Searchable sum 17 rows no_bits
first_lem = write-Searchable sum 17 rows no_bits rows-Distinct rows-Fits

later_rows-found : find_entry (text "c") [] ≡ none
unfolding find_entry
later_rows-found = refl

second_lem : Searchable sum 18 later_rows first_table.1
second_lem = write-Searchable sum 18 later_rows first_table.1 (later_rows-found, tt) later_rows-Fits

abbrev level : List SstableMetadata
level = first_table.0 ∷ second_table.0 ∷ []

abbrev two_tables : SystemState
two_tables = record fresh_state { sstables = level ∷ [] ∷ []; bloom_filter = second_table.1 }

level-AreTables : AreTables lists level
unfolding write_sorted_string_table text_lt
level-AreTables = (
  record {
    file = refl;
    found = first_lem.found;
    fits = rows-Fits;
    ascending = ((refl, tt), (tt, tt));
  },
  (
    record { file = refl; found = second_lem.found; fits = later_rows-Fits; ascending = (tt, tt) },
    tt,
  ),
)

two_tables-Visible : All (All (Visible sum sum two_tables.bloom_filter)) two_tables.sstables
unfolding write_sorted_string_table
two_tables-Visible = (
  (
    λ k there. second_lem.kept 17 k (first_lem.added k (λ gone. there (first_lem.found k ∙ gone))),
    (λ k there. second_lem.added k (λ gone. there (second_lem.found k ∙ gone)), tt),
  ),
  (tt, tt),
)

-- The last entry of each key.
abbrev newest_of : Text → Option Entry
newest_of k =
    if text_eq k (text "a")
    then some
        (record { key = text "a"; value = text "1"; expiry_timestamp = 0; is_deleted = false })
    else if text_eq k (text "b")
    then some (record { key = text "b"; value = []; expiry_timestamp = 9; is_deleted = true })
    else some
        (record { key = text "c"; value = text "3"; expiry_timestamp = 0; is_deleted = false })

lists-Agree : All (Agree newest_of) lists
unfolding text_eq
lists-Agree = ((refl, (refl, tt)), ((refl, tt), tt))

check_and_run_compaction-newest_example :
    (st : SystemState) × (check_and_run_compaction heap sum 2 19 two_tables ≡ some st)
    × ((k : Text) → newest_entry sum sum k st ≡ newest_entry sum sum k two_tables)
    × All (All (Visible sum sum st.bloom_filter)) st.sstables
    × ((rest : List (List SstableMetadata)) × (st.sstables
          ≡ (if ltb (length level) 2 then level else []) ∷ rest))
check_and_run_compaction-newest_example =
    check_and_run_compaction-newest sum sum heap 2 19 two_tables level ([] ∷ []) lists newest_of
      heap-IsHeap refl level-AreTables lists-Agree two_tables-Visible

waiting-HasTables : HasTables waiting
unfolding rotate_mem_table apply_entry
waiting-HasTables = record {
  lists = [];
  level = [];
  levels = [] ∷ [] ∷ [] ∷ [];
  is_level = refl;
  tables = tt;
}

flush_rounds-HasTables_example : HasTables (flush_rounds sum sum (17 ∷ 18 ∷ []) waiting)
flush_rounds-HasTables_example =
    flush_rounds-HasTables sum sum (17 ∷ 18 ∷ []) waiting
      (assign (text "a") (some (text "1")) (λ _. none)) waiting-Refines waiting-HasTables
