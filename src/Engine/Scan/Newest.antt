-- ===== src/Engine/Scan/Newest.antt =====
-- A scan of src/storage_engine.rs over all sources returns the newest entry of each key.
use cityhall.Base.{
  ◌≤◌, ◌≡◌, refl, sym, arith, List, [], ◌∷◌, Ordering, ◌⊎◌, inl, inr, All, true, false, Bool-cases,
}
use cityhall.Types.{Entry}
use cityhall.Types.Keys.{
  compare_keys, compare_keys-flip, eq_of_compare_keys, lt_trans_keys, is_gt, Ordering-cases,
}
use cityhall.Engine.Scan.{compare_results, insert_result, sort_results}

-- A lower key, or the same key and no older.
abbrev pub Precedes : Entry → Entry → Type 0
Precedes x y =
    (compare_keys x.key y.key ≡ Ordering.lt) ⊎ ((x.key ≡ y.key) × (y.timestamp ≤ x.timestamp))

Precedes-trans : (x y z : Entry) → Precedes x y → Precedes y z → Precedes x z
Precedes-trans x y z (inl a) (inl b) = inl (lt_trans_keys x.key y.key z.key a b)
Precedes-trans x y z (inl a) (inr (same, le)) = inl (rw (← same) a)
Precedes-trans x y z (inr (same, le)) (inl b) = inl (rw same b)
Precedes-trans x y z (inr (same, le)) (inr (same', le')) = inr (rw same same', omega arith)

Precedes-of_not_gt : (x y : Entry) → is_gt (compare_results x y) ≡ false → Precedes x y
Precedes-of_not_gt x y h = elim (Ordering-cases (compare_keys x.key y.key)) [
  | inl less ↦ inl less
  | inr (inl same) ↦
      let h' = rw same at h in inr (eq_of_compare_keys x.key y.key same, ground arith)
  | inr (inr more) ↦ absurd (let h' = rw more at h in cc)
]

Precedes-of_gt : (x y : Entry) → is_gt (compare_results x y) ≡ true → Precedes y x
Precedes-of_gt x y h = elim (Ordering-cases (compare_keys x.key y.key)) [
  | inl less ↦ absurd (let h' = rw less at h in cc)
  | inr (inl same) ↦
      let h' = rw same at h in inr (sym (eq_of_compare_keys x.key y.key same), ground arith)
  | inr (inr more) ↦ inl (rw (compare_keys-flip x.key y.key, more) refl)
]

abbrev pub IsInOrder : List Entry → Type 0
IsInOrder [] = Unit
IsInOrder (x ∷ results) = All (Precedes x) results × IsInOrder results

insert_result-All :
    (P : Entry → Type 0) (x : Entry) (results : List Entry)
    → P x
    → All P results
    → All P (insert_result x results)
unfolding insert_result
insert_result-All P x [] px all = (px, tt)
insert_result-All P x (y ∷ results) px (py, all) = elim (Bool-cases (is_gt (compare_results x y))) [
  | inl after ↦ rw after (py, insert_result-All P x results px all)
  | inr before ↦ rw before (px, (py, all))
]

Precedes-All :
    (x y : Entry) (results : List Entry)
    → Precedes x y
    → All (Precedes y) results
    → All (Precedes x) results
Precedes-All x y [] h all = tt
Precedes-All x y (z ∷ results) h (first, all) =
    (Precedes-trans x y z h first, Precedes-All x y results h all)

insert_result-IsInOrder :
    (x : Entry) (results : List Entry) → IsInOrder results → IsInOrder (insert_result x results)
unfolding insert_result
insert_result-IsInOrder x [] o = (tt, tt)
insert_result-IsInOrder x (y ∷ results) (leads, o) =
    elim (Bool-cases (is_gt (compare_results x y))) [
      | inl after ↦ rw after (
        insert_result-All (Precedes y) x results (Precedes-of_gt x y after) leads,
        insert_result-IsInOrder x results o,
      )
      | inr before ↦
          let h = Precedes-of_not_gt x y before in
          rw before ((h, Precedes-All x y results h leads), (leads, o))
    ]

pub sort_results-IsInOrder : (results : List Entry) → IsInOrder (sort_results results)
unfolding sort_results
sort_results-IsInOrder [] = tt
sort_results-IsInOrder (x ∷ results) =
    insert_result-IsInOrder x (sort_results results) (sort_results-IsInOrder results)

pub sort_results-All :
    (P : Entry → Type 0) (results : List Entry) → All P results → All P (sort_results results)
unfolding sort_results
sort_results-All P [] all = tt
sort_results-All P (x ∷ results) (px, all) =
    insert_result-All P x (sort_results results) px (sort_results-All P results all)

All-insert_result :
    (P : Entry → Type 0) (x : Entry) (results : List Entry)
    → All P (insert_result x results)
    → P x × All P results
unfolding insert_result
All-insert_result P x [] all = all
All-insert_result P x (y ∷ results) all = elim (Bool-cases (is_gt (compare_results x y))) [
  | inl after ↦
      let all' = rw after at all in
      let (px, rest) = All-insert_result P x results all'.1 in (px, (all'.0, rest))
  | inr before ↦ rw before at all
]

pub All-sort_results :
    (P : Entry → Type 0) (results : List Entry) → All P (sort_results results) → All P results
unfolding sort_results
All-sort_results P [] all = tt
All-sort_results P (x ∷ results) all =
    let (px, rest) = All-insert_result P x (sort_results results) all in
    (px, All-sort_results P results rest)
