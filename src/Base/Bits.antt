-- ===== src/Base/Bits.antt =====
-- Laws of `bit_or` and `bit_and` at variables, from the digit recursion they stand for.
use Prim.Native.Nat.{
  ℕ, zero, suc, ◌+◌, ◌*◌, ◌/◌, ◌%◌, ◌^◌, ◌≤◌, ◌<◌, max, bit_and, bit_or, digits, bit_or-bitwise,
}
use mathlib.Core.Path.{◌≡◌, refl, ap}
use mathlib.Core.Bool.{Bool, true, ◌&&◌}
use native.Mathlib.Omega.{arith}
use native.Mathlib.Nat.{pow-suc}
use cityhall.Base.Tests.{◌==◌, ==_iff}

-- A law over a small range, checked at every value.
unfoldable pub holds_below : ℕ → (ℕ → Bool) → Bool
holds_below zero p = true
holds_below (suc n) p = p n && holds_below n p

pub holds_below_sound :
    (bound : ℕ) (test : ℕ → Bool) (x : ℕ)
    → holds_below bound test ≡ true
    → x < bound
    → test x ≡ true
unfolding holds_below
holds_below_sound zero test x h below = absurd (omega arith)
holds_below_sound (suc bound) test x h below = ground (arith, holds_below_sound bound test x)

low_bits_table : holds_below 256 (λ b. bit_and b 0x7f == b % 128) ≡ true
unfolding holds_below
low_bits_table = refl

top_bit_table : holds_below 256 (λ b. bit_and b 0x80 == b / 128 * 128) ≡ true
unfolding holds_below
top_bit_table = refl

mark_table : holds_below 256 (λ b. bit_or b 0x80 == b % 128 + 128) ≡ true
unfolding holds_below
mark_table = refl

-- `b & 0x7F`, `b & 0x80` and `b | 0x80` on a byte.
pub bit_and_low : (b : ℕ) → b < 256 → bit_and b 0x7f ≡ b % 128
bit_and_low b h = (==_iff _ _).0 (holds_below_sound 256 _ b low_bits_table h)

pub bit_and_top : (b : ℕ) → b < 256 → bit_and b 0x80 ≡ b / 128 * 128
bit_and_top b h = (==_iff _ _).0 (holds_below_sound 256 _ b top_bit_table h)

pub bit_or_top : (b : ℕ) → b < 256 → bit_or b 0x80 ≡ b % 128 + 128
bit_or_top b h = (==_iff _ _).0 (holds_below_sound 256 _ b mark_table h)

-- The lowest digit of a disjunction.
abbrev or_digits : ℕ → ℕ → ℕ → ℕ
or_digits n a b = digits (λ y. y) max n a b

or_digits_fuel : (f g a b : ℕ) → a ≤ f → a ≤ g → or_digits f a b ≡ or_digits g a b
or_digits_fuel zero g (suc a) b hf hg = absurd (omega arith)
or_digits_fuel (suc f) zero (suc a) b hf hg = absurd (omega arith)
or_digits_fuel zero zero zero b hf hg = refl
or_digits_fuel zero (suc g) zero b hf hg = refl
or_digits_fuel (suc f) zero zero b hf hg = refl
or_digits_fuel (suc f) (suc g) zero b hf hg = refl
or_digits_fuel (suc f) (suc g) (suc a) b hf hg =
    let rest = or_digits_fuel f g (suc a / 2) (b / 2) (omega arith) (omega arith) in omega arith

pub zero-bit_or : (b : ℕ) → bit_or 0 b ≡ b
zero-bit_or b = bit_or-bitwise 0 b

bit_or_step : (a b : ℕ) → bit_or a b ≡ bit_or (a / 2) (b / 2) * 2 + max (a % 2) (b % 2)
bit_or_step zero b = omega (arith, zero-bit_or b, zero-bit_or (b / 2))
bit_or_step (suc a) b = omega (
  arith,
  bit_or-bitwise (suc a) b,
  bit_or-bitwise (suc a / 2) (b / 2),
  or_digits_fuel a (suc a / 2) (suc a / 2) (b / 2) (omega arith) (omega arith),
)

double : (s g : ℕ) → g * 2 ^ suc s ≡ g * 2 ^ s * 2
double s g = simp pow-suc (grind arith)

half_double : (x : ℕ) → x * 2 / 2 ≡ x
half_double x = omega arith

half_below : (s a : ℕ) → a < 2 ^ suc s → a / 2 < 2 ^ s
half_below s a h = let k = rw pow-suc at h in omega arith

-- `a | (g << s)` is a sum where `a` has its bits below `s`.
pub bit_or_high : (s a g : ℕ) → a < 2 ^ s → bit_or a (g * 2 ^ s) ≡ a + g * 2 ^ s
bit_or_high zero zero g h = omega (arith, zero-bit_or (g * 2 ^ 0))
bit_or_high zero (suc a) g h = absurd (omega arith)
bit_or_high (suc s) a g h = rw (double s g) (
    omega (
      arith,
      bit_or_step a (g * 2 ^ s * 2),
      ap (λ (t : ℕ). bit_or (a / 2) t) (half_double (g * 2 ^ s)),
      bit_or_high s (a / 2) g (half_below s a h),
    ))
