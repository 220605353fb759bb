-- ===== src/Compaction/Start.antt =====
-- The state that a merge of tables with entries starts from.
use cityhall.Base.{
  ℕ, zero, suc, ◌+◌, ◌<◌, ◌≡◌, refl, ap, ◌∙◌, subst, arith, List, [], ◌∷◌, ◌++◌, append_assoc,
  length, length-append, length-replicate, get_elem?, get_or-replicate, replicate, All, some, none,
  inl, inr,
}
use cityhall.Types.{Entry}
use cityhall.Compaction.{MergeState, Scans, initial_heap, initial_iterators}
use cityhall.Compaction.Heap.{NotIn, IsDistinct}
use cityhall.Compaction.Invariant.{HeadAt, HasId, Merging}

-- The scans of tables that could be read.
abbrev pub scans_of : List (List Entry) → Scans
scans_of [] = []
scans_of (t ∷ tables) = some t ∷ scans_of tables

abbrev pub IsFilled : List Entry → Type 0
IsFilled t = 0 < length t

pub initial_iterators-scans_of :
    (tables : List (List Entry))
    → All IsFilled tables
    → initial_iterators (scans_of tables) ≡ tables
unfolding initial_iterators
initial_iterators-scans_of [] f = refl
initial_iterators-scans_of ([] ∷ tables) f = absurd (omega (arith, f.0))
initial_iterators-scans_of ((e ∷ t) ∷ tables) f =
    ap (λ l. (e ∷ t) ∷ l) (initial_iterators-scans_of tables f.1)

at_length :
    (before : List (List Entry)) (t : List Entry) (tables : List (List Entry))
    → get_elem? (before ++ t ∷ tables) (length before) ≡ some t
at_length [] t tables = refl
at_length (u ∷ before) t tables = at_length before t tables

initial_heads :
    (n : ℕ) (before tables : List (List Entry))
    → All IsFilled tables
    → All
        (HeadAt (before ++ tables) (replicate n 0))
        (initial_heap (length before) (scans_of tables))
unfolding initial_heap
initial_heads n before [] f = tt
initial_heads n before ([] ∷ tables) f = absurd (omega (arith, f.0))
initial_heads n before ((e ∷ t) ∷ tables) f =
    let shift : (before ++ (e ∷ t) ∷ []) ++ tables ≡ before ++ (e ∷ t) ∷ tables =
      append_assoc before ((e ∷ t) ∷ []) tables in
    let one_more : length (before ++ (e ∷ t) ∷ []) ≡ suc (length before) =
      length-append before ((e ∷ t) ∷ []) ∙ (omega arith) in
    (
      (e ∷ t, at_length before (e ∷ t) tables, rw (get_or-replicate {A = ℕ} n (length before) 0)),
      subst
          (λ l.
            All (HeadAt l (replicate n 0)) (initial_heap (suc (length before)) (scans_of tables)))
          shift
          (subst
            (λ k.
              All (HeadAt ((before ++ (e ∷ t) ∷ []) ++ tables) (replicate n 0))
                (initial_heap k (scans_of tables)))
            one_more (initial_heads n (before ++ (e ∷ t) ∷ []) tables f.1)),
    )

initial_ids :
    (i k : ℕ) (tables : List (List Entry)) → i < k → NotIn i (initial_heap k (scans_of tables))
unfolding initial_heap
initial_ids i k [] h = tt
initial_ids i k ([] ∷ tables) h = initial_ids i (suc k) tables (omega arith)
initial_ids i k ((e ∷ t) ∷ tables) h =
    ((λ same. omega arith), initial_ids i (suc k) tables (omega arith))

initial-IsDistinct :
    (i : ℕ) (tables : List (List Entry)) → IsDistinct (initial_heap i (scans_of tables))
unfolding initial_heap
initial-IsDistinct i [] = tt
initial-IsDistinct i ([] ∷ tables) = initial-IsDistinct (suc i) tables
initial-IsDistinct i ((e ∷ t) ∷ tables) =
    (initial_ids i (suc i) tables (omega arith), initial-IsDistinct (suc i) tables)

initial_waiting :
    (i j : ℕ) (tables : List (List Entry)) (t : List Entry)
    → All IsFilled tables
    → get_elem? tables j ≡ some t
    → HasId (i + j) (initial_heap i (scans_of tables))
unfolding initial_heap
initial_waiting i j [] t f h = cc
initial_waiting i j ([] ∷ tables) t f h = absurd (omega (arith, f.0))
initial_waiting i zero ((e ∷ u) ∷ tables) t f h = inl (omega arith)
initial_waiting i (suc j) ((e ∷ u) ∷ tables) t f h =
    let shift : suc i + j ≡ i + suc j = omega arith in
    inr (
      subst (λ k. HasId k (initial_heap (suc i) (scans_of tables))) shift
        (initial_waiting (suc i) j tables t f.1 h))

abbrev pub start : List (List Entry) → MergeState
start tables = record {
  heap = initial_heap 0 (scans_of tables);
  positions = replicate (length tables) 0;
  written = [];
  entries_merged = 0;
  duplicates_removed = 0;
  last_key = none;
}

pub start-Merging :
    (tables : List (List Entry)) → All IsFilled tables → Merging tables (start tables)
start-Merging tables f = record {
  fitted = length-replicate (length tables) 0;
  heads = initial_heads (length tables) [] tables f;
  distinct = initial-IsDistinct 0 tables;
  ascending = tt;
  front = refl;
  covered =
      λ id t i e at at' lt. absurd (omega (arith, get_or-replicate {A = ℕ} (length tables) id 0));
  waiting = λ id t at.
      let same : 0 + id ≡ id = omega arith in
      inr (
        subst (λ k. HasId k (initial_heap 0 (scans_of tables))) same
          (initial_waiting 0 id tables t f at));
  sources = tt;
}
