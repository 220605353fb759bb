-- ===== src/Types/Entries.antt =====
-- Lists of entries in ascending order of keys, and the search for a key in one.
pub mod Append
use cityhall.Base.{
  ℕ, ◌≡◌, ◌≢◌, ◌⊎◌, inl, inr, refl, List, [], ◌∷◌, Option, none, some, Ordering, arith,
}
use cityhall.Base.{if◌then◌else◌, true, false, Bool-cases}
use cityhall.Types.{Entry}
use cityhall.Types.Keys.{
  compare_keys, compare_keys_refl, compare_keys-flip, eq_of_compare_keys, lt_trans_keys, key_eq,
}

-- Every key is above the one before it.
abbrev pub AscendingFrom : List ℕ → List Entry → Type 0
AscendingFrom previous [] = Unit
AscendingFrom previous (e ∷ entries) =
    (compare_keys previous e.key ≡ Ordering.lt) × AscendingFrom e.key entries

-- So it is here, and the first may be any key.
abbrev pub IsAscending : List Entry → Type 0
IsAscending [] = Unit
IsAscending (e ∷ entries) = AscendingFrom e.key entries

-- The first entry with the key.
unfoldable pub find_key : List ℕ → List Entry → Option Entry
find_key key [] = none
find_key key (e ∷ entries) = if key_eq key e.key then some e else find_key key entries

pub key_eq_self : (a : List ℕ) → key_eq a a ≡ true
key_eq_self a = rw (compare_keys_refl a)

pub eq_of_key_eq : (a b : List ℕ) → key_eq a b ≡ true → a ≡ b
eq_of_key_eq a b h = eq_of_compare_keys a b (ground arith)

pub key_eq_comm : (a b : List ℕ) → key_eq a b ≡ key_eq b a
key_eq_comm a b = ground (arith, compare_keys-flip a b)

pub key_eq_ne : (a b : List ℕ) → a ≢ b → key_eq a b ≡ false
key_eq_ne a b h = elim (Bool-cases (key_eq a b)) [
  | inl same ↦ absurd (h (eq_of_key_eq a b same))
  | inr other ↦ other
]

pub AscendingFrom-lt :
    (p q : List ℕ) (entries : List Entry)
    → compare_keys p q ≡ Ordering.lt
    → AscendingFrom q entries
    → AscendingFrom p entries
AscendingFrom-lt p q [] h asc = tt
AscendingFrom-lt p q (e ∷ entries) h asc = (lt_trans_keys p q e.key h asc.0, asc.1)

pub IsAscending-of_from :
    (p : List ℕ) (entries : List Entry) → AscendingFrom p entries → IsAscending entries
IsAscending-of_from p [] asc = tt
IsAscending-of_from p (e ∷ entries) asc = asc.1

-- A key at or below the bound is not found.
pub find_key_below :
    (key p : List ℕ) (entries : List Entry)
    → AscendingFrom p entries
    → (compare_keys key p ≡ Ordering.lt) ⊎ (key ≡ p)
    → find_key key entries ≡ none
unfolding find_key
find_key_below key p [] asc h = refl
find_key_below key p (e ∷ entries) asc (inl h) =
    let less = lt_trans_keys key p e.key h asc.0 in
    rw less (find_key_below key e.key entries asc.1 (inl less))
find_key_below key p (e ∷ entries) asc (inr h) =
    let less : compare_keys key e.key ≡ Ordering.lt = rw h asc.0 in
    rw less (find_key_below key e.key entries asc.1 (inl less))
