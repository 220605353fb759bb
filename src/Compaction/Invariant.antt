-- ===== src/Compaction/Invariant.antt =====
-- What holds between the rounds of a merge, and that a round keeps it.
use cityhall.Base.{ℕ, ◌≤◌, ◌<◌, ◌≡◌, ◌⊎◌, List, [], ◌∷◌, ◌++◌, length, get_elem?, get_or, All}
use cityhall.Base.{Option, some, none, Bool-cases, inl, inr}
use cityhall.Types.{Entry}
use cityhall.Types.Keys.{is_gt}
use cityhall.Types.Entries.{IsAscending, find_key}
use cityhall.Compaction.{CompactionEntry, compare_entries, pop_from, MergeState}
use cityhall.Compaction.Heap.{BeforeAll, IsDistinct}

-- The element is what stands at the position of its table.
abbrev pub HeadAt : List (List Entry) → List ℕ → CompactionEntry → Type 0
HeadAt tables positions x =
    (t : List Entry) × (get_elem? tables x.sstable_id ≡ some t)
    × (get_elem? t (get_or positions x.sstable_id 0) ≡ some x.entry)

abbrev pub HasId : ℕ → List CompactionEntry → Type 0
HasId id [] = ⊥
HasId id (x ∷ heap) = (x.sstable_id ≡ id) ⊎ HasId id heap

-- The key of the entry is written, with this version of it or a newer one.
abbrev pub IsCovered : List Entry → Entry → Type 0
IsCovered written e = (w : Entry) × (find_key e.key written ≡ some w) × (e.timestamp ≤ w.timestamp)

-- The last entry that was written comes before the heap.
abbrev pub Front : Option (List ℕ) → List Entry → List CompactionEntry → Type 0
Front none written heap = written ≡ []
Front (some key) written heap =
    (ws : List Entry) × (w : Entry) × (written ≡ ws ++ w ∷ []) × (w.key ≡ key) × BeforeAll w heap

-- The entry is in one of the tables.
abbrev pub IsFrom : List (List Entry) → Entry → Type 0
IsFrom tables e =
    (id : ℕ) × (t : List Entry) × (i : ℕ) × (get_elem? tables id ≡ some t)
    × (get_elem? t i ≡ some e)

pub record Merging (tables : List (List Entry)) (s : MergeState) : Type 0 where
  pub fitted : length s.positions ≡ length tables
  pub heads : All (HeadAt tables s.positions) s.heap
  pub distinct : IsDistinct s.heap
  pub ascending : IsAscending s.written
  pub front : Front s.last_key s.written s.heap
  pub covered :
      (id : ℕ) (t : List Entry) (i : ℕ) (e : Entry)
      → get_elem? tables id ≡ some t
      → get_elem? t i ≡ some e
      → i < get_or s.positions id 0
      → IsCovered s.written e
  pub waiting :
      (id : ℕ) (t : List Entry)
      → get_elem? tables id ≡ some t
      → (length t ≤ get_or s.positions id 0) ⊎ HasId id s.heap
  pub sources : All (IsFrom tables) s.written

pub pop_from-HasId :
    (id : ℕ) (best : CompactionEntry) (heap : List CompactionEntry)
    → HasId id (best ∷ heap)
    → ((pop_from best heap).0.sstable_id ≡ id) ⊎ HasId id (pop_from best heap).1
unfolding pop_from
pop_from-HasId id best [] (inl here) = inl here
pop_from-HasId id best [] (inr there) = absurd there
pop_from-HasId id best (x ∷ heap) h = elim (Bool-cases (is_gt (compare_entries x best))) [
  | inl greater ↦ rw greater (elim h [
    | inl here ↦ inr (inl here)
    | inr there ↦ elim (pop_from-HasId id x heap there) [
      | inl popped ↦ inl popped
      | inr rest ↦ inr (inr rest)
    ]
  ])
  | inr other ↦ rw other (elim h [
    | inl here ↦ elim (pop_from-HasId id best heap (inl here)) [
      | inl popped ↦ inl popped
      | inr rest ↦ inr (inr rest)
    ]
    | inr (inl next) ↦ inr (inl next)
    | inr (inr there) ↦ elim (pop_from-HasId id best heap (inr there)) [
      | inl popped ↦ inl popped
      | inr rest ↦ inr (inr rest)
    ]
  ])
]
