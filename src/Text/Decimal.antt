-- ===== src/Text/Decimal.antt =====
-- Numbers in decimal: `to_string` of an unsigned integer.
use cityhall.Base.{
  ℕ, zero, suc, ◌+◌, ◌-◌, ◌*◌, ◌/◌, ◌%◌, ◌<◌, ◌≡◌, refl, ap, ◌∙◌, arith, [], ◌∷◌, ltb,
  if◌then◌else◌, Bool-cases, inl, inr, ltb→le,
}
use cityhall.Text.{Text}

-- The digits from the last one on, on fuel: a digit for each unit is enough.
unfoldable pub digits : ℕ → ℕ → Text
digits zero n = []
digits (suc fuel) n =
    let rest = digits fuel (n / 10) in if ltb n 10 then (48 + n) ∷ [] else (48 + n % 10) ∷ rest

unfoldable pub reverse_onto : Text → Text → Text
reverse_onto [] done = done
reverse_onto (c ∷ text) done = reverse_onto text (c ∷ done)

abbrev pub reverse : Text → Text
reverse text = reverse_onto text []

unfoldable pub to_string : ℕ → Text
to_string n = reverse (digits (suc n) n)

-- The number that digits from the last one on are of.
unfoldable pub value_of_digits : Text → ℕ
value_of_digits [] = 0
value_of_digits (c ∷ text) = (c - 48) + 10 * value_of_digits text

pub value-digits : (fuel n : ℕ) → n < fuel → value_of_digits (digits fuel n) ≡ n
unfolding value_of_digits digits
value-digits zero n h = absurd (omega arith)
value-digits (suc fuel) n h = elim (Bool-cases (ltb n 10)) [
  | inl small ↦ rw small (omega arith)
  | inr large ↦
      let le = ltb→le n 10 large in
      rw (large, value-digits fuel (n / 10) (omega arith)) (omega arith)
]

reverse_onto-twice : (text done : Text) → reverse (reverse_onto text done) ≡ reverse_onto done text
unfolding reverse_onto
reverse_onto-twice [] done = refl
reverse_onto-twice (c ∷ text) done = reverse_onto-twice text (c ∷ done)

pub reverse-reverse : (text : Text) → reverse (reverse text) ≡ text
unfolding reverse_onto
reverse-reverse text = reverse_onto-twice text []

-- A number is read back from its text.
pub value-to_string : (n : ℕ) → value_of_digits (reverse (to_string n)) ≡ n
unfolding to_string
value-to_string n =
    ap value_of_digits (reverse-reverse (digits (suc n) n)) ∙ value-digits (suc n) n (omega arith)
