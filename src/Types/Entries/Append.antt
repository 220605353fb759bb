-- ===== src/Types/Entries/Append.antt =====
-- Ascending lists in two parts, and the search for a key in them.
use cityhall.Base.{
  ◌≡◌, refl, ℕ, List, [], ◌∷◌, ◌++◌, none, Ordering, subst, inl, inr, true, Bool-cases,
}
use cityhall.Types.{Entry}
use cityhall.Types.Keys.{compare_keys, compare_keys-flip, lt_trans_keys, key_eq, key_le}
use cityhall.Types.Entries.{
  AscendingFrom, IsAscending, IsAscending-of_from, find_key, find_key_below, eq_of_key_eq,
}

-- A search in two lists one after the other.
pub find_key-append_left :
    (key : List ℕ) (xs ys : List Entry)
    → find_key key xs ≡ none
    → find_key key (xs ++ ys) ≡ find_key key ys
unfolding find_key
find_key-append_left key [] ys h = refl
find_key-append_left key (x ∷ xs) ys h = elim (Bool-cases (key_eq key x.key)) [
  | inl here ↦ let h' = rw here at h in cc
  | inr there ↦ let h' = rw there at h in rw there (find_key-append_left key xs ys h')
]

pub find_key-append_right :
    (key : List ℕ) (xs ys : List Entry)
    → find_key key ys ≡ none
    → find_key key (xs ++ ys) ≡ find_key key xs
unfolding find_key
find_key-append_right key [] ys h = h
find_key-append_right key (x ∷ xs) ys h = elim (Bool-cases (key_eq key x.key)) [
  | inl here ↦ rw here
  | inr there ↦ rw there (find_key-append_right key xs ys h)
]

pub AscendingFrom-lt_last :
    (p : List ℕ) (xs : List Entry) (e : Entry) (ys : List Entry)
    → AscendingFrom p (xs ++ e ∷ ys)
    → compare_keys p e.key ≡ Ordering.lt
AscendingFrom-lt_last p [] e ys asc = asc.0
AscendingFrom-lt_last p (x ∷ xs) e ys asc =
    lt_trans_keys p x.key e.key asc.0 (AscendingFrom-lt_last x.key xs e ys asc.1)

pub IsAscending-behind : (xs ys : List Entry) → IsAscending (xs ++ ys) → IsAscending ys
IsAscending-behind [] ys asc = asc
IsAscending-behind (x ∷ xs) ys asc =
    IsAscending-behind xs ys (IsAscending-of_from x.key (xs ++ ys) asc)

pub IsAscending-before : (xs ys : List Entry) → IsAscending (xs ++ ys) → IsAscending xs
IsAscending-before [] ys asc = tt
IsAscending-before (x ∷ xs) ys asc = from x.key xs ys asc
  where
    from : (p : List ℕ) (xs ys : List Entry) → AscendingFrom p (xs ++ ys) → AscendingFrom p xs
    from p [] ys asc = tt
    from p (x ∷ xs) ys asc = (asc.0, from x.key xs ys asc.1)

-- A key from that of a later entry on is not among the earlier ones.
pub find_key_above :
    (key : List ℕ) (xs : List Entry) (e : Entry) (ys : List Entry)
    → IsAscending (xs ++ e ∷ ys)
    → key_le e.key key ≡ true
    → find_key key xs ≡ none
unfolding find_key
find_key_above key [] e ys asc h = refl
find_key_above key (x ∷ xs) e ys asc h =
    let less = AscendingFrom-lt_last x.key xs e ys asc in
    let rest = find_key_above key xs e ys (IsAscending-of_from x.key (xs ++ e ∷ ys) asc) h in
    elim (Bool-cases (key_eq key x.key)) [
      | inl same ↦
          let k : key_le e.key x.key ≡ true =
            subst (λ z. key_le e.key z ≡ true) (eq_of_key_eq key x.key same) h in
          cc (compare_keys-flip x.key e.key, less, k)
      | inr other ↦ rw other rest
    ]

-- Nor is a key below the first entry in the list.
pub find_key_before :
    (key : List ℕ) (e : Entry) (ys : List Entry)
    → IsAscending (e ∷ ys)
    → compare_keys key e.key ≡ Ordering.lt
    → find_key key (e ∷ ys) ≡ none
unfolding find_key
find_key_before key e ys asc h = rw h (find_key_below key e.key ys asc (inl h))
