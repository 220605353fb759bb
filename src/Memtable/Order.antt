-- ===== src/Memtable/Order.antt =====
-- The table stays in ascending order, and holds each entry that is put in order.
use cityhall.Base.{ℕ, ◌≡◌, refl, sym, ap, ◌∙◌, List, [], ◌∷◌, ◌++◌, Ordering, inl, inr}
use cityhall.Base.{append_assoc, subst}
use cityhall.Types.{Entry}
use cityhall.Types.Keys.{
  compare_keys, compare_keys-flip, Ordering-cases, eq_of_compare_keys, lt_trans_keys,
}
use cityhall.Types.Entries.{AscendingFrom, IsAscending}
use cityhall.Memtable.{MemTable, new, insert_entry, put, put_all}

insert_entry-AscendingFrom :
    (p : List ℕ) (e : Entry) (entries : List Entry)
    → compare_keys p e.key ≡ Ordering.lt
    → AscendingFrom p entries
    → AscendingFrom p (insert_entry e entries)
unfolding insert_entry
insert_entry-AscendingFrom p e [] h asc = (h, tt)
insert_entry-AscendingFrom p e (x ∷ entries) h asc =
    elim (Ordering-cases (compare_keys e.key x.key)) [
      | inl less ↦ rw less (h, (less, asc.1))
      | inr (inl same) ↦ rw same (h, rw (eq_of_compare_keys e.key x.key same) asc.1)
      | inr (inr more) ↦ rw more (
        asc.0,
        insert_entry-AscendingFrom x.key e entries (rw (compare_keys-flip e.key x.key, more)) asc.1,
      )
    ]

pub insert_entry-IsAscending :
    (e : Entry) (entries : List Entry) → IsAscending entries → IsAscending (insert_entry e entries)
unfolding insert_entry
insert_entry-IsAscending e [] asc = tt
insert_entry-IsAscending e (x ∷ entries) asc = elim (Ordering-cases (compare_keys e.key x.key)) [
  | inl less ↦ rw less (less, asc)
  | inr (inl same) ↦ rw same (rw (eq_of_compare_keys e.key x.key same) asc)
  | inr (inr more) ↦
      rw more
        (insert_entry-AscendingFrom x.key e entries (rw (compare_keys-flip e.key x.key, more)) asc)
]

-- Put keeps a table in strictly ascending order of keys.
pub put-IsAscending :
    (m : MemTable) (key value : List ℕ) (timestamp : ℕ)
    → IsAscending m.entries
    → IsAscending (put m key value timestamp).0.entries
unfolding put
put-IsAscending m key value timestamp asc =
    insert_entry-IsAscending (record { key = key; value = value; timestamp = timestamp }) m.entries
      asc

pub put_all-IsAscending :
    (m : MemTable) (entries : List Entry)
    → IsAscending m.entries
    → IsAscending (put_all m entries).entries
unfolding put_all
put_all-IsAscending m [] asc = asc
put_all-IsAscending m (e ∷ entries) asc =
    put_all-IsAscending (put m e.key e.value e.timestamp).0 entries
      (put-IsAscending m e.key e.value e.timestamp asc)

-- `below` lists keys under `key`.
abbrev AllBelow : List ℕ → List Entry → Type 0
AllBelow key [] = Unit
AllBelow key (x ∷ entries) = (compare_keys x.key key ≡ Ordering.lt) × AllBelow key entries

insert_entry_last :
    (e : Entry) (entries : List Entry)
    → AllBelow e.key entries
    → insert_entry e entries ≡ entries ++ e ∷ []
unfolding insert_entry
insert_entry_last e [] h = refl
insert_entry_last e (x ∷ entries) h =
    rw (compare_keys-flip x.key e.key, h.0) (ap (λ z. x ∷ z) (insert_entry_last e entries h.1))

AllBelow-trans :
    (k l : List ℕ) (entries : List Entry)
    → compare_keys k l ≡ Ordering.lt
    → AllBelow k entries
    → AllBelow l entries
AllBelow-trans k l [] h b = tt
AllBelow-trans k l (x ∷ entries) h b =
    (lt_trans_keys x.key k l b.0 h, AllBelow-trans k l entries h b.1)

AllBelow-append :
    (k : List ℕ) (entries : List Entry) (e : Entry)
    → AllBelow k entries
    → compare_keys e.key k ≡ Ordering.lt
    → AllBelow k (entries ++ e ∷ [])
AllBelow-append k [] e b h = (h, tt)
AllBelow-append k (x ∷ entries) e b h = (b.0, AllBelow-append k entries e b.1 h)

put_all_behind :
    (m : MemTable) (e : Entry) (entries : List Entry)
    → AllBelow e.key m.entries
    → AscendingFrom e.key entries
    → (put_all m (e ∷ entries)).entries ≡ m.entries ++ e ∷ entries
unfolding put_all
put_all_behind m e [] b asc = insert_entry_last e m.entries b
put_all_behind m e (f ∷ entries) b asc =
    let m' = (put m e.key e.value e.timestamp).0 in
    let here : m'.entries ≡ m.entries ++ e ∷ [] = insert_entry_last e m.entries b in
    let below =
      AllBelow-append f.key m.entries e (AllBelow-trans e.key f.key m.entries asc.0 b) asc.0 in
    put_all_behind m' f entries (subst (λ z. AllBelow f.key z) (sym here) below) asc.1
    ∙ ap (λ z. z ++ f ∷ entries) here
    ∙ append_assoc m.entries (e ∷ []) (f ∷ entries)

-- The copy of a table that a background flush makes, a put of each entry in order to a new table,
-- has just the entries of the original, where these are in ascending order.
pub put_all-new :
    (max_size : ℕ) (entries : List Entry)
    → IsAscending entries
    → (put_all (new max_size) entries).entries ≡ entries
put_all-new max_size [] asc = unfold put_all in refl
put_all-new max_size (e ∷ entries) asc = put_all_behind (new max_size) e entries tt asc
