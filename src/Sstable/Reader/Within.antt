-- ===== src/Sstable/Reader/Within.antt =====
-- The entries in a range of keys, and the loop of `scan` over one block.
use cityhall.Base.{ℕ, ◌≡◌, refl, sym, ap, arith, List, [], ◌∷◌, ◌++◌}
use cityhall.Base.{Bool-cases, inl, inr, true, false, ◌&&◌, if◌then◌else◌, Ordering}
use cityhall.Types.{Entry}
use cityhall.Types.Keys.{
  compare_keys, compare_keys-flip, eq_of_compare_keys, lt_trans_keys, Ordering-cases, key_lt,
  key_le,
}
use cityhall.Types.Entries.{AscendingFrom, AscendingFrom-lt, IsAscending, IsAscending-of_from}
use cityhall.Types.Entries.Append.{AscendingFrom-lt_last}
use cityhall.Sstable.Reader.{scan_entries}

-- The entries with a key from `start` to `stop`, both included.
unfoldable pub within : List ℕ → List ℕ → List Entry → List Entry
within start stop [] = []
within start stop (e ∷ entries) =
    let rest = within start stop entries in
    if key_le start e.key && key_le e.key stop then e ∷ rest else rest

module _ (start stop : List ℕ) where
  pub within-append :
      (xs ys : List Entry)
      → within start stop (xs ++ ys) ≡ within start stop xs ++ within start stop ys
  unfolding within
  within-append [] ys = refl
  within-append (x ∷ xs) ys = elim (Bool-cases (key_le start x.key && key_le x.key stop)) [
    | inl inside ↦ rw inside (ap (λ l. x ∷ l) (within-append xs ys))
    | inr outside ↦ rw outside (within-append xs ys)
  ]

  pub within_past :
      (p : List ℕ) (entries : List Entry)
      → compare_keys stop p ≡ Ordering.lt
      → AscendingFrom p entries
      → within start stop entries ≡ []
  unfolding within
  within_past p [] h asc = refl
  within_past p (e ∷ entries) h asc =
      let less = lt_trans_keys stop p e.key h asc.0 in
      let outside : (key_le start e.key && key_le e.key stop) ≡ false =
        ground (arith, compare_keys-flip stop e.key) in
      rw outside (within_past e.key entries less asc.1)

  pub within_before :
      (xs : List Entry) (e : Entry) (ys : List Entry)
      → IsAscending (xs ++ e ∷ ys)
      → key_le e.key start ≡ true
      → within start stop xs ≡ []
  unfolding within
  within_before [] e ys asc h = refl
  within_before (x ∷ xs) e ys asc h =
      let less = AscendingFrom-lt_last x.key xs e ys asc in
      let below : compare_keys x.key start ≡ Ordering.lt =
        elim (Ordering-cases (compare_keys e.key start)) [
          | inl l ↦ lt_trans_keys x.key e.key start less l
          | inr (inl same) ↦ rw (← eq_of_compare_keys e.key start same) less
          | inr (inr g) ↦ cc
        ] in
      let outside : (key_le start x.key && key_le x.key stop) ≡ false =
        ground (arith, compare_keys-flip x.key start) in
      rw outside (within_before xs e ys (IsAscending-of_from x.key (xs ++ e ∷ ys) asc) h)

  AscendingFrom-behind :
      (p : List ℕ) (xs ys : List Entry) → AscendingFrom p (xs ++ ys) → AscendingFrom p ys
  AscendingFrom-behind p [] ys asc = asc
  AscendingFrom-behind p (x ∷ xs) ys asc =
      AscendingFrom-lt p x.key ys asc.0 (AscendingFrom-behind x.key xs ys asc.1)

  pub scan_entries_found :
      (entries : List Entry)
      → IsAscending entries
      → (scan_entries start stop entries).0 ≡ within start stop entries
  unfolding within scan_entries
  scan_entries_found [] asc = refl
  scan_entries_found (e ∷ entries) asc =
      let rest = scan_entries_found entries (IsAscending-of_from e.key entries asc) in
      elim (Bool-cases (key_lt e.key start)) [
        | inl before ↦
            let k : key_le start e.key ≡ false = ground (arith, compare_keys-flip e.key start) in
            rw (before, k) rest
        | inr from_on ↦
            let k : key_le start e.key ≡ true = ground (arith, compare_keys-flip e.key start) in
            elim (Bool-cases (key_lt stop e.key)) [
              | inl past ↦
                  let less : compare_keys stop e.key ≡ Ordering.lt = ground arith in
                  let j : key_le e.key stop ≡ false =
                    ground (arith, compare_keys-flip stop e.key) in
                  rw (from_on, past, k, j) (sym (within_past e.key entries less asc))
              | inr inside ↦
                  let j : key_le e.key stop ≡ true = ground (arith, compare_keys-flip stop e.key) in
                  rw (from_on, inside, k, j) (ap (λ l. e ∷ l) rest)
            ]
      ]

  pub scan_entries_past :
      (entries more : List Entry)
      → IsAscending (entries ++ more)
      → (scan_entries start stop entries).1 ≡ true
      → within start stop more ≡ []
  unfolding scan_entries
  scan_entries_past [] more asc h = cc
  scan_entries_past (e ∷ entries) more asc h =
      let asc' = IsAscending-of_from e.key (entries ++ more) asc in
      elim (Bool-cases (key_lt e.key start)) [
        | inl before ↦ let h' = rw before at h in scan_entries_past entries more asc' h'
        | inr from_on ↦ elim (Bool-cases (key_lt stop e.key)) [
          | inl past ↦
              let less : compare_keys stop e.key ≡ Ordering.lt = ground arith in
              within_past e.key more less (AscendingFrom-behind e.key entries more asc)
          | inr inside ↦
              let h' = rw (from_on, inside) at h in scan_entries_past entries more asc' h'
        ]
      ]
