-- ===== src/Compaction/Merge.antt =====
-- The merge of tables in a compaction: it ends, and writes the newest version of each key.
use cityhall.Base.{
  ℕ, zero, suc, ◌<◌, ◌≡◌, ◌⊎◌, refl, ap, ◌∙◌, subst, arith, List, [], ◌∷◌, length, get_elem?,
  get_or, replicate, All, Option, some, none, inl, inr,
}
use cityhall.Base.{lt-of_get_elem?}
use cityhall.Types.{Entry, ok, panic, ◌>>=◌}
use cityhall.Types.Entries.{IsAscending}
use cityhall.Compaction.{
  CompactionEntry, MergeState, merge_scans, merge_loop, after_pop, initial_heap, initial_iterators,
  pop, pop_from, take_entry, advance_in, total_entries,
}
use cityhall.Compaction.Lists.{remaining}
use cityhall.Compaction.Heap.{
  Before, IsDistinct, pop_from-All, pop_from-Before, pop_from-IsDistinct,
}
use cityhall.Compaction.Invariant.{HeadAt, HasId, IsCovered, Front, IsFrom, Merging, pop_from-HasId}
use cityhall.Compaction.Take.{take_entry-Taken}
use cityhall.Compaction.Round.{after, advance_in_lem, round-Merging, round-remaining}
use cityhall.Compaction.Start.{scans_of, IsFilled, initial_iterators-scans_of, start, start-Merging}

-- A merge of a table without entries and a table with some, in this order, panics.
pub merge_scans_panics :
    (e : Entry) (entries : List Entry) → merge_scans (some [] ∷ some (e ∷ entries) ∷ []) ≡ panic
unfolding merge_scans merge_loop initial_heap initial_iterators pop pop_from take_entry
merge_scans_panics e entries = refl

-- What one round of the loop does to a merge with a heap.
round :
    (tables : List (List Entry)) (s : MergeState) (best : CompactionEntry)
    (heap : List CompactionEntry)
    → All IsAscending tables
    → Merging tables s
    → s.heap ≡ best ∷ heap
    → (s' : MergeState) × (advance_in
          (get_elem? tables (pop_from best heap).0.sstable_id)
          (pop_from best heap).0.sstable_id
          (record (take_entry (pop_from best heap).0.entry s) { heap = (pop_from best heap).1 })
        ≡ ok s')
      × Merging tables s'
      × (suc (remaining tables s'.positions) ≡ remaining tables s.positions)
round tables s best heap asc m e =
    let x = (pop_from best heap).0 in
    let rest = (pop_from best heap).1 in
    let heads = subst (All (HeadAt tables s.positions)) e m.heads in
    let (head, heads') = pop_from-All (HeadAt tables s.positions) best heap heads.0 heads.1 in
    let d = subst IsDistinct e m.distinct in
    let distinct = pop_from-IsDistinct best heap d.0 d.1 in
    let first = pop_from-Before best heap in
    let (self, before) = pop_from-All (λ y. Before x.entry y.entry) best heap first.0 first.1 in
    let popped : (id : ℕ) → HasId id s.heap → (x.sstable_id ≡ id) ⊎ HasId id rest =
      λ id h. pop_from-HasId id best heap (subst (HasId id) e h) in
    let from : IsFrom tables x.entry =
      (x.sstable_id, head.0, get_or s.positions x.sstable_id 0, head.1, head.2) in
    let front =
      front_popped s.last_key s.written best heap (subst (Front s.last_key s.written) e m.front) in
    let taken =
      take_entry-Taken tables s x rest s.last_key refl front m.ascending before m.sources from in
    (
      after tables asc s m x rest head heads' distinct popped taken,
      advance_in_lem tables asc s m x rest head heads' distinct popped taken,
      round-Merging tables asc s m x rest head heads' distinct popped taken,
      round-remaining tables asc s m x rest head heads' distinct popped taken,
    )
  where
    front_popped :
        (last : Option (List ℕ)) (written : List Entry) (best : CompactionEntry)
        (heap : List CompactionEntry)
        → Front last written (best ∷ heap)
        → Front last written ((pop_from best heap).0 ∷ (pop_from best heap).1)
    front_popped none written best heap f = f
    front_popped (some key) written best heap (ws, w, split, last, before) =
        (ws, w, split, last, pop_from-All (λ y. Before w y.entry) best heap before.0 before.1)

pop_step :
    (fuel : ℕ) (tables : List (List Entry)) (s s' : MergeState) (best : CompactionEntry)
    (heap : List CompactionEntry)
    → s.heap ≡ best ∷ heap
    → advance_in
        (get_elem? tables (pop_from best heap).0.sstable_id)
        (pop_from best heap).0.sstable_id
        (record (take_entry (pop_from best heap).0.entry s) { heap = (pop_from best heap).1 })
      ≡ ok s'
    → merge_loop (suc fuel) tables s ≡ merge_loop fuel tables s'
unfolding merge_loop pop
pop_step fuel tables s s' best heap e a =
    ap (λ h. after_pop (pop h) tables s (λ z. merge_loop fuel tables z)) e
    ∙ ap (λ r. r >>= λ z. merge_loop fuel tables z) a

-- The loop runs to the end of the heap from a state.
abbrev Ends : ℕ → List (List Entry) → MergeState → Type 0
Ends fuel tables s =
    (s' : MergeState) × (merge_loop fuel tables s ≡ ok s') × Merging tables s' × (s'.heap ≡ [])

Ends-by_heap :
    (fuel : ℕ) (tables : List (List Entry)) (s : MergeState) (heap : List CompactionEntry)
    → s.heap ≡ heap
    → All IsAscending tables
    → Merging tables s
    → remaining tables s.positions < suc fuel
    → ((s1 : MergeState)
        → Merging tables s1
        → remaining tables s1.positions < fuel
        → Ends fuel tables s1)
    → Ends (suc fuel) tables s
Ends-by_heap fuel tables s [] e asc m h again = (
  s,
  unfold merge_loop pop in ap (λ h. after_pop (pop h) tables s (λ z. merge_loop fuel tables z)) e,
  m,
  e,
)
Ends-by_heap fuel tables s (best ∷ heap) e asc m h again =
    let (s1, step, m1, less) = round tables s best heap asc m e in
    let (s2, rest, m2, done) = again s1 m1 (omega arith) in
    (s2, pop_step fuel tables s s1 best heap e step ∙ rest, m2, done)

merge_loop-Merging :
    (fuel : ℕ) (tables : List (List Entry)) (s : MergeState)
    → All IsAscending tables
    → Merging tables s
    → remaining tables s.positions < fuel
    → Ends fuel tables s
merge_loop-Merging zero tables s asc m h = absurd (omega arith)
merge_loop-Merging (suc fuel) tables s asc m h =
    Ends-by_heap fuel tables s s.heap refl asc m h
      (λ s1 m1 h1. merge_loop-Merging fuel tables s1 asc m1 h1)

remaining-start :
    (tables : List (List Entry))
    → remaining tables (replicate (length tables) 0) ≡ total_entries tables
remaining-start [] = refl
remaining-start (t ∷ tables) = omega (arith, remaining-start tables)

-- A merge of tables that all have entries, each in strictly ascending order, ends without a panic;
-- what it writes is in strictly ascending order and is from the tables; and for every entry of
-- every table its key is written, with that version of the entry or one that is no older.
pub merge_scans_newest :
    (tables : List (List Entry))
    → All IsAscending tables
    → All IsFilled tables
    → (s : MergeState) × (merge_scans (scans_of tables) ≡ ok s)
      × IsAscending s.written
      × All (IsFrom tables) s.written
      × ((id : ℕ) (t : List Entry) (i : ℕ) (e : Entry)
          → get_elem? tables id ≡ some t
          → get_elem? t i ≡ some e
          → IsCovered s.written e)
unfolding merge_scans
merge_scans_newest tables asc filled =
    let same = initial_iterators-scans_of tables filled in
    let (s, merged, m, done) =
      merge_loop-Merging (suc (total_entries tables)) tables (start tables) asc
        (start-Merging tables filled) (omega (arith, remaining-start tables)) in
    (
      s,
      rw same merged,
      m.ascending,
      m.sources,
      λ id t i e at at'. elim (m.waiting id t at) [
        | inl all_taken ↦ m.covered id t i e at at' (omega (arith, lt-of_get_elem? t i e at'))
        | inr there ↦ absurd (subst (HasId id) done there)
      ],
    )
