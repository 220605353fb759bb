-- ===== src/Engine/Scan/Covers.antt =====
-- What `dedup` of src/storage_engine.rs keeps of sorted results.
use cityhall.Base.{
  ℕ, ◌≡◌, refl, sym, subst, arith, List, [], ◌∷◌, Ordering, ◌⊎◌, inl, inr, All, true, Bool-cases,
}
use cityhall.Types.{Entry, ok}
use cityhall.Types.Bytes.{Buf}
use cityhall.Types.Keys.{compare_keys, compare_keys_refl, key_eq}
use cityhall.Types.Entries.{AscendingFrom, IsAscending, find_key, eq_of_key_eq, key_eq_self}
use cityhall.Sstable.Snappy.{Snappy}
use cityhall.Compaction.Invariant.{IsCovered}
use cityhall.Engine.{StorageEngine}
use cityhall.Engine.Scan.{sort_results, dedup_from, dedup, collect, scan}
use cityhall.Engine.Scan.Newest.{
  Precedes, IsInOrder, sort_results-IsInOrder, sort_results-All, All-sort_results,
}

abbrev IsFromKey : List ℕ → Entry → Type 0
IsFromKey key x = (compare_keys key x.key ≡ Ordering.lt) ⊎ (key ≡ x.key)

All-Precedes :
    (x : Entry) (results : List Entry) → All (Precedes x) results → All (IsFromKey x.key) results
All-Precedes x [] all = tt
All-Precedes x (y ∷ results) (inl less, all) = (inl less, All-Precedes x results all)
All-Precedes x (y ∷ results) (inr same, all) = (inr same.0, All-Precedes x results all)

dedup_from-AscendingFrom :
    (key : List ℕ) (results : List Entry)
    → All (IsFromKey key) results
    → IsInOrder results
    → AscendingFrom key (dedup_from key results)
unfolding dedup_from
dedup_from-AscendingFrom key [] from o = tt
dedup_from-AscendingFrom key (x ∷ results) (first, from) (leads, o) =
    let rest = dedup_from-AscendingFrom x.key results (All-Precedes x results leads) o in
    elim (Bool-cases (key_eq x.key key)) [
      | inl same ↦ rw (same, ← eq_of_key_eq x.key key same) rest
      | inr other ↦ rw other (elim first [
        | inl less ↦ (less, rest)
        | inr same ↦ absurd (let k : key_eq x.key key ≡ true = rw same (key_eq_self x.key) in cc)
      ])
    ]

dedup_from-All :
    (P : Entry → Type 0) (key : List ℕ) (results : List Entry)
    → All P results
    → All P (dedup_from key results)
unfolding dedup_from
dedup_from-All P key [] all = tt
dedup_from-All P key (x ∷ results) (px, all) = elim (Bool-cases (key_eq x.key key)) [
  | inl same ↦ rw same (dedup_from-All P x.key results all)
  | inr other ↦ rw other (px, dedup_from-All P x.key results all)
]

-- What a first entry and the rest of the results cover.
IsCovered-behind :
    (x : Entry) (results kept : List Entry)
    → All (Precedes x) results
    → All (λ z. (z.key ≡ x.key) ⊎ IsCovered kept z) results
    → All (IsCovered (x ∷ kept)) results
unfolding find_key
IsCovered-behind x [] kept leads all = tt
IsCovered-behind x (z ∷ results) kept (first, leads) (covered, all) = (
  elim (Bool-cases (key_eq z.key x.key)) [
    | inl same ↦ (
      x,
      rw same refl,
      elim first [
        | inl less ↦ absurd (
            let l = rw (eq_of_key_eq z.key x.key same) at less in
            let r = compare_keys_refl x.key in cc)
        | inr (same', le) ↦ le
      ],
    )
    | inr other ↦ elim covered [
      | inl same ↦ absurd (let k : key_eq z.key x.key ≡ true = rw same (key_eq_self x.key) in cc)
      | inr (w, found, le) ↦ (w, rw other found, le)
    ]
  ],
  IsCovered-behind x results kept leads all,
)

dedup_from-Covers :
    (key : List ℕ) (results : List Entry)
    → IsInOrder results
    → All (λ z. (z.key ≡ key) ⊎ IsCovered (dedup_from key results) z) results
unfolding dedup_from find_key
dedup_from-Covers key [] o = tt
dedup_from-Covers key (x ∷ results) (leads, o) =
    let rest = dedup_from-Covers x.key results o in
    elim (Bool-cases (key_eq x.key key)) [
      | inl same ↦
          let e = eq_of_key_eq x.key key same in
          let k : dedup_from key (x ∷ results) ≡ dedup_from x.key results = rw same refl in
          (
            inl e,
            subst (λ l. All (λ z. (z.key ≡ key) ⊎ IsCovered l z) results) (sym k)
                (subst
                  (λ j. All (λ z. (z.key ≡ j) ⊎ IsCovered (dedup_from x.key results) z) results) e
                  rest),
          )
      | inr other ↦
          let k : dedup_from key (x ∷ results) ≡ x ∷ dedup_from x.key results = rw other refl in
          subst (λ l. All (λ z. (z.key ≡ key) ⊎ IsCovered l z) (x ∷ results)) (sym k)
            (
              inr (x, rw (key_eq_self x.key) refl, omega arith),
              any_covered (x ∷ dedup_from x.key results) results
                  (IsCovered-behind x results (dedup_from x.key results) leads rest),
            )
    ]
  where
    any_covered :
        (kept results : List Entry)
        → All (IsCovered kept) results
        → All (λ z. (z.key ≡ key) ⊎ IsCovered kept z) results
    any_covered kept [] all = tt
    any_covered kept (z ∷ results) (c, all) = (inr c, any_covered kept results all)

dedup-Covers : (results : List Entry) → IsInOrder results → All (IsCovered (dedup results)) results
unfolding dedup find_key
dedup-Covers [] o = tt
dedup-Covers (x ∷ results) (leads, o) = (
  (x, rw (key_eq_self x.key) refl, omega arith),
  IsCovered-behind x results (dedup_from x.key results) leads (dedup_from-Covers x.key results o),
)

dedup-IsAscending : (results : List Entry) → IsInOrder results → IsAscending (dedup results)
unfolding dedup
dedup-IsAscending [] o = tt
dedup-IsAscending (x ∷ results) (leads, o) =
    dedup_from-AscendingFrom x.key results (All-Precedes x results leads) o

dedup-All : (P : Entry → Type 0) (results : List Entry) → All P results → All P (dedup results)
unfolding dedup
dedup-All P [] all = tt
dedup-All P (x ∷ results) (px, all) = (px, dedup_from-All P x.key results all)

module _ ⦃buf : Buf⦄ ⦃snappy : Snappy⦄ where
  -- Where the scans of the memtables and of all tables succeed, the scan of the engine returns
  -- entries in strictly ascending order of keys; each is one that they returned, which is so in
  -- that it has every property that all of these have; and for each entry that they returned it
  -- has that key, with that version or one that is no older.
  pub scan_newest :
      (e : StorageEngine) (start stop : List ℕ) (all : List Entry)
      → collect e start stop ≡ ok all
      → (found : List Entry) × (scan e start stop ≡ ok found)
        × IsAscending found
        × All (IsCovered found) all
        × ((P : Entry → Type 0) → All P all → All P found)
  unfolding scan
  scan_newest e start stop all collected =
      let sorted = sort_results all in
      let order = sort_results-IsInOrder all in
      (
        dedup sorted,
        rw collected refl,
        dedup-IsAscending sorted order,
        All-sort_results (IsCovered (dedup sorted)) all (dedup-Covers sorted order),
        λ P has. dedup-All P sorted (sort_results-All P all has),
      )
