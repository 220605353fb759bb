-- ===== src/Compaction/Heap.antt =====
-- What the heap of a merge pops: an entry with a lowest key, of these a newest, and nothing is lost.
use cityhall.Base.{
  ℕ, ◌≤◌, ◌≡◌, ◌≢◌, ◌⊎◌, refl, sym, subst, arith, List, [], ◌∷◌, All, Bool-cases, inl, inr, true,
  false, Ordering,
}
use cityhall.Types.{Entry}
use cityhall.Types.Keys.{
  compare_keys, compare_keys-flip, eq_of_compare_keys, lt_trans_keys, Ordering-cases, is_gt,
}
use cityhall.Compaction.{CompactionEntry, compare_entries, pop_from}

-- Lower keys come first, and of one key the newer entries.
abbrev pub Before : Entry → Entry → Type 0
Before a b =
    (compare_keys a.key b.key ≡ Ordering.lt) ⊎ ((a.key ≡ b.key) × (b.timestamp ≤ a.timestamp))

pub Before-refl : (a : Entry) → Before a a
Before-refl a = inr (refl, omega arith)

pub Before-trans : (a b c : Entry) → Before a b → Before b c → Before a c
Before-trans a b c (inl l) (inl m) = inl (lt_trans_keys a.key b.key c.key l m)
Before-trans a b c (inl l) (inr (same, older)) =
    inl (subst (λ k. compare_keys a.key k ≡ Ordering.lt) same l)
Before-trans a b c (inr (same, older)) (inl m) =
    inl (subst (λ k. compare_keys k c.key ≡ Ordering.lt) (sym same) m)
Before-trans a b c (inr (same, older)) (inr (same', older')) =
    inr (subst (λ k. a.key ≡ k) same' same, omega arith)

greater-Before :
    (a b : CompactionEntry) → is_gt (compare_entries a b) ≡ true → Before a.entry b.entry
greater-Before a b h = elim (Ordering-cases (compare_keys b.entry.key a.entry.key)) [
  | inl less ↦ let h' = rw less at h in cc
  | inr (inl same) ↦
      let h' = rw same at h in
      let newer : b.entry.timestamp ≤ a.entry.timestamp = ground arith in
      inr (sym (eq_of_compare_keys b.entry.key a.entry.key same), newer)
  | inr (inr more) ↦ inl (rw (compare_keys-flip b.entry.key a.entry.key, more))
]

not_greater-Before :
    (a b : CompactionEntry) → is_gt (compare_entries a b) ≡ false → Before b.entry a.entry
not_greater-Before a b h = elim (Ordering-cases (compare_keys b.entry.key a.entry.key)) [
  | inl less ↦ inl less
  | inr (inl same) ↦
      let h' = rw same at h in
      let newer : a.entry.timestamp ≤ b.entry.timestamp = ground arith in
      inr (eq_of_compare_keys b.entry.key a.entry.key same, newer)
  | inr (inr more) ↦ let h' = rw more at h in cc
]

-- What holds of all elements holds of what is popped and of what is left.
pub pop_from-All :
    (P : CompactionEntry → Type 0) (best : CompactionEntry) (heap : List CompactionEntry)
    → P best
    → All P heap
    → P (pop_from best heap).0 × All P (pop_from best heap).1
unfolding pop_from
pop_from-All P best [] p ps = (p, tt)
pop_from-All P best (x ∷ heap) p (px, ps) = elim (Bool-cases (is_gt (compare_entries x best))) [
  | inl greater ↦ rw greater (let (q, qs) = pop_from-All P x heap px ps in (q, (p, qs)))
  | inr other ↦ rw other (let (q, qs) = pop_from-All P best heap p ps in (q, (px, qs)))
]

-- The entry comes before those of a heap.
abbrev pub BeforeAll : Entry → List CompactionEntry → Type 0
BeforeAll e heap = All (λ x. Before e x.entry) heap

switched :
    (best x : CompactionEntry) (heap : List CompactionEntry)
    → is_gt (compare_entries x best) ≡ true
    → (pop_from best (x ∷ heap)).0 ≡ (pop_from x heap).0
unfolding pop_from
switched best x heap h = rw h

kept :
    (best x : CompactionEntry) (heap : List CompactionEntry)
    → is_gt (compare_entries x best) ≡ false
    → (pop_from best (x ∷ heap)).0 ≡ (pop_from best heap).0
unfolding pop_from
kept best x heap h = rw h

-- What is popped comes before all elements.
pub pop_from-Before :
    (best : CompactionEntry) (heap : List CompactionEntry)
    → BeforeAll (pop_from best heap).0.entry (best ∷ heap)
pop_from-Before best [] = unfold pop_from in (Before-refl best.entry, tt)
pop_from-Before best (x ∷ heap) = elim (Bool-cases (is_gt (compare_entries x best))) [
  | inl greater ↦
      let (a, rest) = pop_from-Before x heap in
      subst (λ y. BeforeAll y.entry (best ∷ x ∷ heap)) (sym (switched best x heap greater))
        (
          Before-trans (pop_from x heap).0.entry x.entry best.entry a
              (greater-Before x best greater),
          (a, rest),
        )
  | inr other ↦
      let (a, rest) = pop_from-Before best heap in
      subst (λ y. BeforeAll y.entry (best ∷ x ∷ heap)) (sym (kept best x heap other))
        (
          a,
          (
            Before-trans (pop_from best heap).0.entry best.entry x.entry a
                (not_greater-Before x best other),
            rest,
          ),
        )
]

abbrev pub NotIn : ℕ → List CompactionEntry → Type 0
NotIn id heap = All (λ x. x.sstable_id ≢ id) heap

-- No two elements are of one table.
abbrev pub IsDistinct : List CompactionEntry → Type 0
IsDistinct [] = Unit
IsDistinct (x ∷ heap) = NotIn x.sstable_id heap × IsDistinct heap

pub pop_from-IsDistinct :
    (best : CompactionEntry) (heap : List CompactionEntry)
    → NotIn best.sstable_id heap
    → IsDistinct heap
    → NotIn (pop_from best heap).0.sstable_id (pop_from best heap).1
      × IsDistinct (pop_from best heap).1
unfolding pop_from
pop_from-IsDistinct best [] n d = (tt, tt)
pop_from-IsDistinct best (x ∷ heap) (nx, n) (m, d) =
    elim (Bool-cases (is_gt (compare_entries x best))) [
      | inl greater ↦
          let (a, b) = pop_from-IsDistinct x heap m d in
          let (c, e) = pop_from-All (λ y. y.sstable_id ≢ best.sstable_id) x heap nx n in
          rw greater ((λ same. c (sym same), a), (e, b))
      | inr other ↦
          let (a, b) = pop_from-IsDistinct best heap n d in
          let (c, e) =
            pop_from-All (λ y. y.sstable_id ≢ x.sstable_id) best heap (λ same. nx (sym same)) m in
          rw other ((λ same. c (sym same), a), (e, b))
    ]
