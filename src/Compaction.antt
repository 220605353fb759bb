-- ===== src/Compaction.antt =====
-- src/compaction.rs. A `BinaryHeap` is the list of its elements; it pops a greatest one, here the
-- first of them.
pub mod Select
pub mod Lists
pub mod Heap
pub mod Invariant
pub mod Take
pub mod Round
pub mod Start
pub mod Merge
use cityhall.Base.{
  ℕ, zero, suc, ◌+◌, ◌*◌, List, [], ◌∷◌, ◌++◌, length, get_elem?, set, get_or, replicate, ltb, leb,
  if◌then◌else◌, Option, none, some, Bool, true, false, not, ◌&&◌, Ordering, compare,
}
use cityhall.Types.{Entry, Result, ok, err, panic, ◌>>=◌}
use cityhall.Types.Keys.{compare_keys, flip, key_eq, is_gt}
use cityhall.Types.Tables.{TableName}

pub record CompactionEntry : Type 0 where
  pub entry : Entry
  pub sstable_id : ℕ

abbrev pub then_compare : Ordering → Ordering → Ordering
then_compare Ordering.lt b = Ordering.lt
then_compare Ordering.eq b = b
then_compare Ordering.gt b = Ordering.gt

-- `Ord` of `CompactionEntry`: lower keys are greater, and of equal keys the newer one.
abbrev pub compare_entries : CompactionEntry → CompactionEntry → Ordering
compare_entries a b =
    then_compare (compare_keys b.entry.key a.entry.key)
      (compare a.entry.timestamp b.entry.timestamp)

-- Putting a candidate before the rest of a heap, or a greater element of the rest.
unfoldable pub pop_from :
    CompactionEntry → List CompactionEntry → CompactionEntry × List CompactionEntry
pop_from best [] = (best, [])
pop_from best (x ∷ heap) =
    let keep = pop_from best heap in
    let switch = pop_from x heap in
    if is_gt (compare_entries x best) then (switch.0, best ∷ switch.1) else (keep.0, x ∷ keep.1)

unfoldable pub pop : List CompactionEntry → Option (CompactionEntry × List CompactionEntry)
unfolding pop_from
pop [] = none
pop (x ∷ heap) = some (pop_from x heap)

-- What the scans of the readers returned; `none` is an error.
abbrev pub Scans : Type 0
Scans = List (Option (List Entry))

-- The first entry of a table that has one, under the number of its reader.
unfoldable pub initial_heap : ℕ → Scans → List CompactionEntry
initial_heap i [] = []
initial_heap i (some [] ∷ scans) = initial_heap (suc i) scans
initial_heap i (some (e ∷ entries) ∷ scans) =
    record { entry = e; sstable_id = i } ∷ initial_heap (suc i) scans
initial_heap i (none ∷ scans) = initial_heap (suc i) scans

-- A table without entries gets no place; one that could not be read gets an empty one.
unfoldable pub initial_iterators : Scans → List (List Entry)
initial_iterators [] = []
initial_iterators (some [] ∷ scans) = initial_iterators scans
initial_iterators (some (e ∷ entries) ∷ scans) = (e ∷ entries) ∷ initial_iterators scans
initial_iterators (none ∷ scans) = [] ∷ initial_iterators scans

pub record MergeState : Type 0 where
  pub heap : List CompactionEntry
  pub positions : List ℕ
  pub written : List Entry
  pub entries_merged : ℕ
  pub duplicates_removed : ℕ
  pub last_key : Option (List ℕ)

abbrev pub is_key : Option (List ℕ) → List ℕ → Bool
is_key none key = false
is_key (some k) key = key_eq k key

-- The entry goes to the writer, or is counted as a duplicate.
unfoldable pub take_entry : Entry → MergeState → MergeState
take_entry e s =
    if is_key s.last_key e.key
    then record s { duplicates_removed = s.duplicates_removed + 1 }
    else record s {
      written = s.written ++ e ∷ [];
      entries_merged = s.entries_merged + 1;
      last_key = some e.key;
    }

abbrev pub push_next : Option Entry → ℕ → List CompactionEntry → List CompactionEntry
push_next none id heap = heap
push_next (some e) id heap = record { entry = e; sstable_id = id } ∷ heap

-- The table of the popped entry moves on; a number without a table panics.
abbrev pub advance_in : Option (List Entry) → ℕ → MergeState → Result MergeState
advance_in none id s = panic
advance_in (some entries) id s =
    let position = get_or s.positions id 0 + 1 in
    ok (record s {
      positions = set s.positions id position;
      heap = push_next (get_elem? entries position) id s.heap;
    })

-- A round: the loop ends with the heap, and goes on behind a popped entry.
abbrev pub after_pop :
    Option (CompactionEntry × List CompactionEntry)
    → List (List Entry)
    → MergeState
    → (MergeState → Result MergeState)
    → Result MergeState
after_pop none iterators s more = ok s
after_pop (some (x, heap)) iterators s more =
    advance_in (get_elem? iterators x.sstable_id) x.sstable_id
      (record (take_entry x.entry s) { heap = heap })
    >>= more

-- The rounds of the merge, on fuel: one for each entry of the tables is enough.
unfoldable pub merge_loop : ℕ → List (List Entry) → MergeState → Result MergeState
unfolding pop take_entry
merge_loop zero iterators s = panic
merge_loop (suc fuel) iterators s =
    after_pop (pop s.heap) iterators s (λ s'. merge_loop fuel iterators s')

abbrev pub total_entries : List (List Entry) → ℕ
total_entries [] = 0
total_entries (t ∷ tables) = length t + total_entries tables

-- `merge_sstables` behind the scans of the readers, up to `finish` of the writer.
unfoldable pub merge_scans : Scans → Result MergeState
unfolding initial_heap initial_iterators merge_loop
merge_scans scans =
    let iterators = initial_iterators scans in
    merge_loop (suc (total_entries iterators)) iterators (record {
      heap = initial_heap 0 scans;
      positions = replicate (length iterators) 0;
      written = [];
      entries_merged = 0;
      duplicates_removed = 0;
      last_key = none;
    })

pub record SizedPath : Type 0 where
  pub path : TableName
  pub size : ℕ

-- `sort_by_key` on the size, which keeps the order of equal sizes.
unfoldable pub insert_by_size : SizedPath → List SizedPath → List SizedPath
insert_by_size p [] = p ∷ []
insert_by_size p (q ∷ paths) =
    let rest = insert_by_size p paths in if leb p.size q.size then p ∷ q ∷ paths else q ∷ rest

unfoldable pub sort_by_size : List SizedPath → List SizedPath
unfolding insert_by_size
sort_by_size [] = []
sort_by_size (p ∷ paths) = insert_by_size p (sort_by_size paths)

-- `size as f64 <= base as f64 * 1.5`, exact for sizes below 2^52.
abbrev pub is_similar : ℕ → ℕ → Bool
is_similar base size = leb (2 * size) (3 * base)

-- The inner loop, which stops at the first size that is too large.
unfoldable pub group_from : ℕ → List SizedPath → List SizedPath
group_from base [] = []
group_from base (p ∷ paths) =
    let rest = group_from base paths in if is_similar base p.size then p ∷ rest else []

-- The outer loop: a longer group that is long enough replaces the best one so far.
unfoldable pub best_group_of : ℕ → List SizedPath → List SizedPath → List SizedPath
unfolding group_from
best_group_of min_sstables [] best = best
best_group_of min_sstables (p ∷ paths) best =
    let group = p ∷ group_from p.size paths in
    best_group_of min_sstables paths
      (if leb min_sstables (length group) && ltb (length best) (length group) then group else best)

-- `select_sstables_for_compaction` on the paths whose size could be read.
unfoldable pub select_sstables_for_compaction : List SizedPath → ℕ → List SizedPath
unfolding sort_by_size best_group_of
select_sstables_for_compaction paths min_sstables =
    if ltb (length paths) min_sstables
    then []
    else best_group_of min_sstables (sort_by_size paths) []
