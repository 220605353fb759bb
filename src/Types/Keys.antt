-- ===== src/Types/Keys.antt =====
-- The order of byte strings (`Ord` of `Vec<u8>` and `[u8]`): lexicographic, a prefix first.
use cityhall.Base.{ℕ, Ordering, ltb, ◌==◌, if◌then◌else◌, ◌≡◌, refl}
use cityhall.Base.{◌⊎◌, inl, inr, Bool, true, false, not, List, [], ◌∷◌, arith}

unfoldable pub compare_keys : List ℕ → List ℕ → Ordering
compare_keys [] [] = Ordering.eq
compare_keys [] (y ∷ ys) = Ordering.lt
compare_keys (x ∷ xs) [] = Ordering.gt
compare_keys (x ∷ xs) (y ∷ ys) =
    let rest = compare_keys xs ys in
    if ltb x y then Ordering.lt else if x == y then rest else Ordering.gt

abbrev pub is_lt : Ordering → Bool
is_lt Ordering.lt = true
is_lt Ordering.eq = false
is_lt Ordering.gt = false

abbrev pub is_gt : Ordering → Bool
is_gt Ordering.lt = false
is_gt Ordering.eq = false
is_gt Ordering.gt = true

abbrev pub is_eq : Ordering → Bool
is_eq Ordering.lt = false
is_eq Ordering.eq = true
is_eq Ordering.gt = false

abbrev pub flip : Ordering → Ordering
flip Ordering.lt = Ordering.gt
flip Ordering.eq = Ordering.eq
flip Ordering.gt = Ordering.lt

-- `a < b`, `a <= b` and `a == b` on byte strings.
abbrev pub key_lt : List ℕ → List ℕ → Bool
key_lt a b = is_lt (compare_keys a b)

abbrev pub key_le : List ℕ → List ℕ → Bool
key_le a b = not (is_gt (compare_keys a b))

abbrev pub key_eq : List ℕ → List ℕ → Bool
key_eq a b = is_eq (compare_keys a b)

pub compare_keys_refl : (a : List ℕ) → compare_keys a a ≡ Ordering.eq
unfolding compare_keys
compare_keys_refl [] = refl
compare_keys_refl (x ∷ xs) = ground (arith, compare_keys_refl xs)

pub compare_keys-flip : (a b : List ℕ) → compare_keys b a ≡ flip (compare_keys a b)
unfolding compare_keys
compare_keys-flip [] [] = refl
compare_keys-flip [] (y ∷ ys) = refl
compare_keys-flip (x ∷ xs) [] = refl
compare_keys-flip (x ∷ xs) (y ∷ ys) = ground (arith, compare_keys-flip xs ys)

pub eq_of_compare_keys : (a b : List ℕ) → compare_keys a b ≡ Ordering.eq → a ≡ b
unfolding compare_keys
eq_of_compare_keys [] [] h = refl
eq_of_compare_keys [] (y ∷ ys) h = cc
eq_of_compare_keys (x ∷ xs) [] h = cc
eq_of_compare_keys (x ∷ xs) (y ∷ ys) h = ground (arith, eq_of_compare_keys xs ys)

pub lt_trans_keys :
    (a b c : List ℕ)
    → compare_keys a b ≡ Ordering.lt
    → compare_keys b c ≡ Ordering.lt
    → compare_keys a c ≡ Ordering.lt
unfolding compare_keys
lt_trans_keys [] [] c h k = cc
lt_trans_keys [] (y ∷ ys) [] h k = cc
lt_trans_keys [] (y ∷ ys) (z ∷ zs) h k = refl
lt_trans_keys (x ∷ xs) [] c h k = cc
lt_trans_keys (x ∷ xs) (y ∷ ys) [] h k = cc
lt_trans_keys (x ∷ xs) (y ∷ ys) (z ∷ zs) h k = ground (arith, lt_trans_keys xs ys zs)

pub Ordering-cases : (o : Ordering) → (o ≡ Ordering.lt) ⊎ ((o ≡ Ordering.eq) ⊎ (o ≡ Ordering.gt))
Ordering-cases Ordering.lt = inl refl
Ordering-cases Ordering.eq = inr (inl refl)
Ordering-cases Ordering.gt = inr (inr refl)
