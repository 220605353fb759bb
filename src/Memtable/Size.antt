-- ===== src/Memtable/Size.antt =====
-- The byte count of the table against the entries that it holds.
use cityhall.Base.{ℕ, ◌+◌, ◌≤◌, ◌<◌, ◌≡◌, List, [], ◌∷◌, length, Option, none, some, arith}
use cityhall.Base.{inl, inr, Bool-cases, true, lt→ltb, Option-cases}
use cityhall.Types.{Entry}
use cityhall.Types.Keys.{compare_keys, key_eq, Ordering-cases, eq_of_compare_keys}
use cityhall.Types.Entries.{IsAscending, IsAscending-of_from, find_key, find_key_below}
use cityhall.Memtable.{MemTable, insert_entry, put, entry_overhead, value_size_of}

abbrev pub entry_size : Entry → ℕ
entry_size e = length e.key + length e.value + entry_overhead

abbrev pub total : List Entry → ℕ
total [] = 0
total (e ∷ entries) = entry_size e + total entries

-- The size of what an insertion replaces.
abbrev pub found_size : List ℕ → Option Entry → ℕ
found_size key none = 0
found_size key (some e) = length key + length e.value + entry_overhead

total-insert_entry :
    (e : Entry) (entries : List Entry)
    → IsAscending entries
    → total (insert_entry e entries) + found_size e.key (find_key e.key entries)
      ≡ total entries + entry_size e
unfolding insert_entry find_key
total-insert_entry e [] asc = omega arith
total-insert_entry e (x ∷ entries) asc = elim (Ordering-cases (compare_keys e.key x.key)) [
  | inl less ↦ rw (less, find_key_below e.key x.key entries asc (inl less)) (omega arith)
  | inr (inl same) ↦ let k = eq_of_compare_keys e.key x.key same in rw same (rw k (omega arith))
  | inr (inr more) ↦
      rw more (omega (arith, total-insert_entry e entries (IsAscending-of_from x.key entries asc)))
]

-- The count is at least the size of the entries.
pub record IsAccounted (m : MemTable) : Type 0 where
  pub covers : total m.entries ≤ m.size_bytes

found_le_total :
    (key : List ℕ) (entries : List Entry) → value_size_of (find_key key entries) ≤ total entries
unfolding find_key
found_le_total key [] = omega arith
found_le_total key (e ∷ entries) = elim (Bool-cases (key_eq key e.key)) [
  | inl here ↦ rw here (omega arith)
  | inr there ↦ rw there (omega (arith, found_le_total key entries))
]

-- The subtraction in `put` never goes below zero.
pub put_no_underflow :
    (m : MemTable) (key : List ℕ)
    → IsAccounted m
    → value_size_of (find_key key m.entries) ≤ m.size_bytes
put_no_underflow m key a = omega (arith, found_le_total key m.entries, a.covers)

module _ (m : MemTable) (key value : List ℕ) (timestamp : ℕ) (asc : IsAscending m.entries) where
  abbrev new_entry : Entry
  new_entry = record { key = key; value = value; timestamp = timestamp }

  -- In a table in ascending order, put keeps the byte count at or above the size of the entries.
  pub put-IsAccounted : IsAccounted m → IsAccounted (put m key value timestamp).0
  unfolding put
  put-IsAccounted a = record {
    covers =
        ground (
          arith,
          a.covers,
          found_le_total key m.entries,
          total-insert_entry new_entry m.entries asc,
        );
  }

  -- The flag of `put` says whether the count has reached the limit.
  pub put_full :
      ((put m key value timestamp).1 ≡ true) → m.max_size ≤ (put m key value timestamp).0.size_bytes
  unfolding put
  put_full h = ground arith

  -- In a table in ascending order whose byte count is exact, put keeps it exact, if it does not
  -- overwrite an empty value.
  pub put_exact :
      m.size_bytes ≡ total m.entries
      → ((e : Entry) → find_key key m.entries ≡ some e → 0 < length e.value)
      → (put m key value timestamp).0.size_bytes ≡ total (put m key value timestamp).0.entries
  unfolding put
  put_exact exact filled = elim (Option-cases (find_key key m.entries)) [
    | inl absent ↦
        let k = total-insert_entry new_entry m.entries asc in
        let k' = rw absent at k in rw absent (omega (arith, k'))
    | inr (e, present) ↦
        let pos = filled e present in
        let k = total-insert_entry new_entry m.entries asc in
        let k' = rw present at k in
        let le = found_le_total key m.entries in
        let le' = rw present at le in
        rw (present, lt→ltb 0 (length e.value) pos) (omega (arith, k', le'))
  ]

  -- In a table in ascending order whose byte count is exact, overwriting an entry whose value is
  -- empty counts the key and the overhead of the entry once more.
  pub put_overcounts :
      (e : Entry)
      → m.size_bytes ≡ total m.entries
      → find_key key m.entries ≡ some e
      → length e.value ≡ 0
      → (put m key value timestamp).0.size_bytes
        ≡ total (put m key value timestamp).0.entries + (length key + entry_overhead)
  unfolding put
  put_overcounts e exact present empty =
      let k = total-insert_entry new_entry m.entries asc in
      let k' = rw present at k in rw (present, empty) (omega (arith, k'))
