-- ===== src/Server/Client/Reading.antt =====
-- What the metrics command of src/commands/client.rs prints of a number.
use cityhall.Base.{
  length, ◌+◌, ◌<◌, ℕ, zero, suc, ◌/◌, ◌%◌, ◌≤◌, ◌≡◌, refl, sym, ap, ◌∙◌, subst, lt→ltb, arith, [],
  ◌∷◌, ltb, ◌==◌, ◌&&◌, if◌then◌else◌, Bool, true, false, Bool-cases, inl, inr, All, some,
}
use cityhall.Text.{Text}
use cityhall.Text.Decimal.{
  digits, reverse, to_string, reverse-reverse, value_of_digits, value-digits,
}
use cityhall.Server.Client.Metrics.{comma, with_commas, fmt_u64}

-- The text without its commas.
unfoldable pub without_commas : Text → Text
without_commas [] = []
without_commas (c ∷ text) = let rest = without_commas text in if c == comma then rest else c ∷ rest

-- From the end on, a comma after each third digit that another digit follows, and no other: `k` digits
-- stand behind the last comma. There is some digit, and a digit is the last one.
unfoldable pub is_grouped : ℕ → Text → Bool
is_grouped k [] = ltb 0 k
is_grouped k (c ∷ text) =
    let rest = is_grouped (if c == comma then 0 else suc k) text in
    if c == comma then k == 3 && rest else ltb k 3 && rest

abbrev IsDigits : Text → Type 0
IsDigits text = All (λ c. 48 ≤ c) text

digits-IsDigits : (fuel n : ℕ) → IsDigits (digits fuel n)
unfolding digits
digits-IsDigits zero n = tt
digits-IsDigits (suc fuel) n = elim (Bool-cases (ltb n 10)) [
  | inl small ↦ rw small (omega arith, tt)
  | inr large ↦ rw large (omega arith, digits-IsDigits fuel (n / 10))
]

digits_some : (fuel n : ℕ) → 0 < length (digits (suc fuel) n)
unfolding digits
digits_some fuel n = elim (Bool-cases (ltb n 10)) [
  | inl small ↦ rw small (omega arith)
  | inr large ↦ rw large (omega arith)
]

without_commas-with_commas :
    (i : ℕ) (text : Text) → IsDigits text → without_commas (with_commas i text) ≡ text
unfolding without_commas with_commas
without_commas-with_commas i [] d = refl
without_commas-with_commas i (c ∷ text) (digit, d) =
    let other : (c == comma) ≡ false = ground arith in
    let rest = without_commas-with_commas (suc i) text d in
    elim (Bool-cases (ltb 0 i && i % 3 == 0)) [
      | inl due ↦ rw (due, other, rest) refl
      | inr not_due ↦ rw (not_due, other, rest) refl
    ]

-- How many digits stand behind the last comma when the loop has counted `i`.
abbrev behind_last : ℕ → ℕ
behind_last i = if ltb 0 i && i % 3 == 0 then 3 else i % 3

last_digits : (i : ℕ) → 0 < i + 0 → (ltb 0 i && i % 3 == 0) ≡ false → ltb 0 (i % 3) ≡ true
last_digits i some_digit not_due = lt→ltb 0 (i % 3) (ground arith)

with_commas_grouped :
    (i : ℕ) (text : Text)
    → IsDigits text
    → 0 < i + length text
    → is_grouped (behind_last i) (with_commas i text) ≡ true
unfolding is_grouped with_commas
with_commas_grouped i [] d some_digit = elim (Bool-cases (ltb 0 i && i % 3 == 0)) [
  | inl due ↦ rw due refl
  | inr not_due ↦ rw not_due (last_digits i some_digit not_due)
]
with_commas_grouped i (c ∷ text) (digit, d) some_digit =
    let other : (c == comma) ≡ false = ground arith in
    let rest = with_commas_grouped (suc i) text d (omega arith) in
    elim (Bool-cases (ltb 0 i && i % 3 == 0)) [
      | inl due ↦
          let next : behind_last (suc i) ≡ 1 = ground arith in
          rw (due, other) (subst (λ k. is_grouped k (with_commas (suc i) text) ≡ true) next rest)
      | inr not_due ↦
          let next : behind_last (suc i) ≡ suc (i % 3) = ground arith in
          rw (not_due, other, lt→ltb (i % 3) 3 (omega arith))
            (subst (λ k. is_grouped k (with_commas (suc i) text) ≡ true) next rest)
    ]

-- The printed form of a number has, from the end on, a comma after each third digit that another
-- digit follows, and no other, so that it starts and ends with a digit; and without its commas it
-- is the decimal form, from which the number is read back.
pub fmt_u64-value :
    (n : ℕ)
    → (is_grouped 0 (reverse (fmt_u64 (some n))) ≡ true)
      × (without_commas (reverse (fmt_u64 (some n))) ≡ reverse (to_string n))
      × (value_of_digits (without_commas (reverse (fmt_u64 (some n)))) ≡ n)
unfolding fmt_u64 to_string
fmt_u64-value n =
    let from_end = digits (suc n) n in
    let all = digits-IsDigits (suc n) n in
    let shown : reverse (reverse (with_commas 0 (reverse (reverse from_end))))
        ≡ with_commas 0 from_end =
      reverse-reverse (with_commas 0 (reverse (reverse from_end)))
      ∙ ap (with_commas 0) (reverse-reverse from_end) in
    let plain = without_commas-with_commas 0 from_end all in
    (
      ap (is_grouped 0) shown ∙ with_commas_grouped 0 from_end all (omega (arith, digits_some n n)),
      ap without_commas shown ∙ plain ∙ sym (reverse-reverse from_end),
      ap value_of_digits (ap without_commas shown ∙ plain) ∙ value-digits (suc n) n (omega arith),
    )
