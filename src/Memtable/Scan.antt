-- ===== src/Memtable/Scan.antt =====
-- A scan returns, in order, just the entries in the range.
use cityhall.Base.{ℕ, ◌≡◌, ap, ◌∙◌, List, [], ◌∷◌, none, if◌then◌else◌, arith, inl, inr}
use cityhall.Base.{Bool, false, ◌&&◌, Bool-cases}
use cityhall.Types.{Entry, ok}
use cityhall.Types.Keys.{key_eq, key_lt, key_le}
use cityhall.Types.Entries.{
  AscendingFrom, AscendingFrom-lt, IsAscending, IsAscending-of_from, find_key, eq_of_key_eq,
}
use cityhall.Memtable.{MemTable, range, scan_with_timestamps}

abbrev pub in_range : List ℕ → List ℕ → List ℕ → Bool
in_range start stop key = key_le start key && key_lt key stop

range-AscendingFrom :
    (start stop p : List ℕ) (entries : List Entry)
    → AscendingFrom p entries
    → AscendingFrom p (range start stop entries)
unfolding range
range-AscendingFrom start stop p [] asc = tt
range-AscendingFrom start stop p (e ∷ entries) asc =
    let rest = range-AscendingFrom start stop e.key entries asc.1 in
    elim (Bool-cases (in_range start stop e.key)) [
      | inl inside ↦ rw inside (asc.0, rest)
      | inr outside ↦ rw outside (AscendingFrom-lt p e.key (range start stop entries) asc.0 rest)
    ]

range-IsAscending :
    (start stop : List ℕ) (entries : List Entry)
    → IsAscending entries
    → IsAscending (range start stop entries)
unfolding range
range-IsAscending start stop [] asc = tt
range-IsAscending start stop (e ∷ entries) asc =
    let rest = range-AscendingFrom start stop e.key entries asc in
    elim (Bool-cases (in_range start stop e.key)) [
      | inl inside ↦ rw inside rest
      | inr outside ↦ rw outside (IsAscending-of_from e.key (range start stop entries) rest)
    ]

find_key-range :
    (start stop key : List ℕ) (entries : List Entry)
    → find_key key (range start stop entries)
      ≡ (if in_range start stop key then find_key key entries else none)
unfolding find_key range
find_key-range start stop key [] = ground arith
find_key-range start stop key (e ∷ entries) = elim (Bool-cases (key_eq key e.key)) [
  | inl here ↦
      let k : in_range start stop key ≡ in_range start stop e.key =
        ap (in_range start stop) (eq_of_key_eq key e.key here) in
      elim (Bool-cases (in_range start stop e.key)) [
        | inl inside ↦ rw (inside, here, k ∙ inside)
        | inr outside ↦
            rw (outside, k ∙ outside) (find_key-range start stop key entries ∙ rw (k ∙ outside))
      ]
  | inr there ↦ elim (Bool-cases (in_range start stop e.key)) [
    | inl inside ↦ rw (inside, there) (find_key-range start stop key entries)
    | inr outside ↦ rw (outside, there) (find_key-range start stop key entries)
  ]
]

-- Where the table is in ascending order and the start is not above the end, a scan succeeds,
-- returns entries in ascending order, and finds a key just where the key is from the start on and
-- below the end and is in the table, with the entry of the table.
pub scan_lem :
    (m : MemTable) (start stop : List ℕ)
    → IsAscending m.entries
    → key_lt stop start ≡ false
    → (found : List Entry) × (scan_with_timestamps m start stop ≡ ok found)
      × IsAscending found
      × ((key : List ℕ)
          → find_key key found ≡ (if in_range start stop key then find_key key m.entries else none))
unfolding scan_with_timestamps
scan_lem m start stop asc h = (
  range start stop m.entries,
  rw h,
  range-IsAscending start stop m.entries asc,
  λ key. find_key-range start stop key m.entries,
)
