-- ===== src/Compaction/Round.antt =====
-- A round of the merge keeps the invariant, and takes one entry.
use cityhall.Base.{
  ℕ, zero, suc, ◌+◌, ◌≤◌, ◌<◌, ◌≡◌, ◌≢◌, ◌⊎◌, refl, sym, ap, ◌∙◌, subst, arith, List, [], ◌∷◌,
  length, length-set, get_elem?, get_or, set, All,
}
use cityhall.Base.{
  get_or-set_self, get_or-set_ne, lt-of_get_elem?, le-of_get_elem?, ◌==◌, ==_iff, Option, some,
  none, Bool-cases, inl, inr, Ordering,
}
use cityhall.Types.{Entry, ok}
use cityhall.Types.Keys.{compare_keys}
use cityhall.Types.Entries.{IsAscending}
use cityhall.Compaction.{CompactionEntry, MergeState, take_entry, push_next, advance_in}
use cityhall.Compaction.Lists.{ascending_at, remaining, remaining-set}
use cityhall.Compaction.Heap.{BeforeAll, NotIn, IsDistinct}
use cityhall.Compaction.Invariant.{HeadAt, HasId, IsCovered, Front, Merging}
use cityhall.Compaction.Take.{Taken}

HeadAt-set :
    (tables : List (List Entry)) (positions : List ℕ) (id v : ℕ) (heap : List CompactionEntry)
    → NotIn id heap
    → All (HeadAt tables positions) heap
    → All (HeadAt tables (set positions id v)) heap
HeadAt-set tables positions id v [] n h = tt
HeadAt-set tables positions id v (x ∷ heap) (n, ns) ((t, at, head), hs) = (
  (t, at, rw (get_or-set_ne positions id x.sstable_id v 0 (λ e. n (sym e))) head),
  HeadAt-set tables positions id v heap ns hs,
)

HasId-push :
    (next : Option Entry) (id j : ℕ) (heap : List CompactionEntry)
    → HasId j heap
    → HasId j (push_next next id heap)
HasId-push none id j heap h = h
HasId-push (some e) id j heap h = inr h

-- What a round starts from: the heap `best ∷ heap0`, of which `x` was popped.
module _ (tables : List (List Entry)) (asc : All IsAscending tables) (s : MergeState)
    (m : Merging tables s) (x : CompactionEntry) (rest : List CompactionEntry)
    (head : HeadAt tables s.positions x) (heads : All (HeadAt tables s.positions) rest)
    (distinct : NotIn x.sstable_id rest × IsDistinct rest)
    (popped : (id : ℕ) → HasId id s.heap → (x.sstable_id ≡ id) ⊎ HasId id rest)
    (taken : Taken tables s x.entry rest) where
  abbrev id : ℕ
  id = x.sstable_id

  abbrev position : ℕ
  position = get_or s.positions id 0

  abbrev next : Option Entry
  next = get_elem? head.0 (position + 1)

  abbrev pub after : MergeState
  after = record (take_entry x.entry s) {
    positions = set s.positions id (position + 1);
    heap = push_next next id rest;
  }

  positions_kept : (take_entry x.entry s).positions ≡ s.positions
  unfolding take_entry
  positions_kept = ground arith

  pub advance_in_lem :
      advance_in (get_elem? tables id) id (record (take_entry x.entry s) { heap = rest }) ≡ ok after
  advance_in_lem = rw (head.1, positions_kept)

  id_fits : id < length s.positions
  id_fits = omega (arith, lt-of_get_elem? tables id head.0 head.1, m.fitted)

  moved : get_or (set s.positions id (position + 1)) id 0 ≡ position + 1
  moved = get_or-set_self s.positions id (position + 1) 0 id_fits

  table-IsAscending :
      (tables : List (List Entry)) (i : ℕ) (t : List Entry)
      → All IsAscending tables
      → get_elem? tables i ≡ some t
      → IsAscending t
  table-IsAscending [] i t a h = cc
  table-IsAscending (u ∷ tables) zero t a h =
      let same : u ≡ t = ground arith in subst IsAscending same a.0
  table-IsAscending (u ∷ tables) (suc i) t a h = table-IsAscending tables i t a.1 h

  next_above : (e : Entry) → next ≡ some e → compare_keys x.entry.key e.key ≡ Ordering.lt
  next_above e h =
      let one_more : position + 1 ≡ suc position = omega arith in
      ascending_at head.0 position x.entry e (table-IsAscending tables id head.0 asc head.1) head.2
        (subst (λ p. get_elem? head.0 p ≡ some e) one_more h)

  abbrev PushedOk : Option Entry → Type 0
  PushedOk o =
      All (HeadAt tables (set s.positions id (position + 1))) (push_next o id rest)
      × IsDistinct (push_next o id rest)
      × BeforeAll taken.last (push_next o id rest)

  pushed : (o : Option Entry) → next ≡ o → PushedOk o
  pushed none e = (
    HeadAt-set tables s.positions id (position + 1) rest distinct.0 heads,
    distinct.1,
    taken.first,
  )
  pushed (some y) e = (
    (
      (head.0, head.1, rw moved e),
      HeadAt-set tables s.positions id (position + 1) rest distinct.0 heads,
    ),
    distinct,
    (
      inl (subst (λ k. compare_keys k y.key ≡ Ordering.lt) (sym taken.same_key) (next_above y e)),
      taken.first,
    ),
  )

  waiting_here :
      (o : Option Entry)
      → next ≡ o
      → (length head.0 ≤ position + 1) ⊎ HasId id (push_next o id rest)
  waiting_here none e = inl (le-of_get_elem? head.0 (position + 1) e)
  waiting_here (some y) e = inr (inl refl)

  IsCovered-after :
      (j : ℕ) (t : List Entry) (i : ℕ) (e : Entry)
      → get_elem? tables j ≡ some t
      → get_elem? t i ≡ some e
      → i < get_or (set s.positions id (position + 1)) j 0
      → IsCovered (take_entry x.entry s).written e
  IsCovered-after j t i e at at' lt = elim (Bool-cases (id == j)) [
    | inr other ↦
        let ne : id ≢ j = λ same. cc ((==_iff id j).1 same) in
        taken.keeps e (
          m.covered j t i e at at'
            (omega (arith, get_or-set_ne s.positions id j (position + 1) 0 ne)))
    | inl here ↦
        let same : id ≡ j = (==_iff id j).0 here in
        let lt' : i < position + 1 = omega (
          arith,
          moved,
          subst (λ k. i < get_or (set s.positions id (position + 1)) k 0) (sym same) lt,
        ) in
        elim (Bool-cases (i == position)) [
          | inl now ↦
              let i_is : i ≡ position = (==_iff i position).0 now in
              let t_is : head.0 ≡ t = cc (head.1, at, same) in
              let e_is : x.entry ≡ e = cc (head.2, at', t_is, i_is) in
              subst (IsCovered (take_entry x.entry s).written) e_is taken.covers
          | inr before ↦
              let lt'' : i < position = ground arith in
              taken.keeps e
                (m.covered j t i e at at' (subst (λ k. i < get_or s.positions k 0) same lt''))
        ]
  ]

  waiting_after :
      (j : ℕ) (t : List Entry)
      → get_elem? tables j ≡ some t
      → (length t ≤ get_or (set s.positions id (position + 1)) j 0)
        ⊎ HasId j (push_next next id rest)
  waiting_after j t at = elim (Bool-cases (id == j)) [
    | inl here ↦
        let same : id ≡ j = (==_iff id j).0 here in
        let t_is : head.0 ≡ t = cc (head.1, at, same) in
        subst
          (λ k.
            (length t ≤ get_or (set s.positions id (position + 1)) k 0)
            ⊎ HasId k (push_next next id rest))
          same
          (elim (waiting_here next refl) [
            | inl done ↦ inl (omega (arith, moved, ap length t_is))
            | inr more ↦ inr more
          ])
    | inr other ↦
        let ne : id ≢ j = λ same. cc ((==_iff id j).1 same) in
        let kept = get_or-set_ne s.positions id j (position + 1) 0 ne in
        elim (m.waiting j t at) [
          | inl done ↦ inl (omega arith)
          | inr more ↦ elim (popped j more) [
            | inl same ↦ absurd (ne same)
            | inr there ↦ inr (HasId-push next id j rest there)
          ]
        ]
  ]

  pub round-Merging : Merging tables after
  round-Merging =
      let (a, b, c) = pushed next refl in
      record {
        fitted = length-set s.positions id (position + 1) ∙ m.fitted;
        heads = a;
        distinct = b;
        ascending = taken.ascending;
        front =
            subst (λ l. Front l (take_entry x.entry s).written (push_next next id rest))
              (sym taken.last_key_is) (taken.others, taken.last, taken.split, refl, c);
        covered = IsCovered-after;
        waiting = waiting_after;
        sources = taken.sources;
      }

  pub round-remaining : suc (remaining tables after.positions) ≡ remaining tables s.positions
  round-remaining =
      remaining-set tables s.positions id head.0 m.fitted head.1
        (lt-of_get_elem? head.0 position x.entry head.2)
