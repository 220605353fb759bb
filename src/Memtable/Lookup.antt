-- ===== src/Memtable/Lookup.antt =====
-- What `get` returns after `put`.
use cityhall.Base.{
  ℕ, ◌≡◌, refl, ap, ◌∙◌, false, List, [], ◌∷◌, some, if◌then◌else◌, arith, Bool-cases, inl, inr,
}
use cityhall.Types.{Entry}
use cityhall.Types.Keys.{key_eq, key_lt}
use cityhall.Types.Entries.{find_key, eq_of_key_eq, key_eq_comm}
use cityhall.Memtable.{MemTable, insert_entry, put, get_with_timestamp}

pub find_key-insert_entry :
    (key : List ℕ) (e : Entry) (entries : List Entry)
    → find_key key (insert_entry e entries)
      ≡ (if key_eq key e.key then some e else find_key key entries)
unfolding find_key insert_entry
find_key-insert_entry key e [] = refl
find_key-insert_entry key e (x ∷ entries) = elim (Bool-cases (key_lt e.key x.key)) [
  | inl before ↦ rw before
  | inr after ↦ elim (Bool-cases (key_eq e.key x.key)) [
    | inl same ↦
        let k : key_eq key e.key ≡ key_eq key x.key =
          ap (λ z. key_eq key z) (eq_of_key_eq e.key x.key same) in
        rw (after, same) (ground (arith, k))
    | inr other ↦
        rw (after, other)
          (elim (Bool-cases (key_eq key x.key)) [
            | inl here ↦
                let k : key_eq key e.key ≡ false =
                  rw (eq_of_key_eq key x.key here) (key_eq_comm x.key e.key ∙ other) in
                rw (here, k)
            | inr there ↦ rw there (find_key-insert_entry key e entries)
          ])
  ]
]

-- After a put the value and the timestamp that were put are found under the key, and every other
-- key is found as before.
pub get-put :
    (m : MemTable) (key value : List ℕ) (timestamp : ℕ) (j : List ℕ)
    → get_with_timestamp (put m key value timestamp).0 j
      ≡ (if key_eq j key then some (value, timestamp) else get_with_timestamp m j)
unfolding get_with_timestamp put
get-put m key value timestamp j = ground (
  arith,
  find_key-insert_entry j (record { key = key; value = value; timestamp = timestamp }) m.entries,
)
