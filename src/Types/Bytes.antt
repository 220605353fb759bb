-- ===== src/Types/Bytes.antt =====
-- Bytes in memory: the integer methods of `bytes::Buf` and `bytes::BufMut` as an interface with
-- their documented behaviour, and `to_le_bytes` and `from_le_bytes` of the standard library.
-- A `BytesMut` is the list of its bytes; `put_slice` appends, and a cursor `&mut &[u8]` is the list
-- of bytes that it has not reached.
use cityhall.Base.{ℕ, zero, suc, ◌+◌, ◌-◌, ◌*◌, ◌/◌, ◌%◌, ◌^◌, ◌≤◌, ◌<◌, ◌≡◌, refl, ap, arith}
use cityhall.Base.{List, [], ◌∷◌, ◌++◌, length, drop, All}
use cityhall.Types.{Result, ok, panic, ◌>>=◌}
use native.Mathlib.Nat.{pow-suc}

abbrev pub IsByte : ℕ → Type 0
IsByte b = b < 256

abbrev pub u16_max : ℕ
u16_max = 2 ^ 16 - 1

abbrev pub u32_max : ℕ
u32_max = 2 ^ 32 - 1

abbrev pub u64_max : ℕ
u64_max = 2 ^ 64 - 1

-- The first argument is the width in bytes: 2, 4 and 8 for `put_u16_le`, `put_u32_le` and
-- `put_u64_le`, and 1 for `put_u8`; so for the `get` methods, which panic when the bytes run out.
pub record Buf : Type 0 where
  pub put_le : ℕ → ℕ → List ℕ
  pub get_le : ℕ → List ℕ → Result (ℕ × List ℕ)
  pub length-put_le : (n v : ℕ) → length (put_le n v) ≡ n
  pub put_le-IsByte : (n v : ℕ) → All IsByte (put_le n v)
  pub get_le-put_le :
      (n v : ℕ) (rest : List ℕ) → v < 256 ^ n → get_le n (put_le n v ++ rest) ≡ ok (v, rest)
  pub get_le_enough :
      (n : ℕ) (bytes : List ℕ)
      → n ≤ length bytes
      → (v : ℕ) × (get_le n bytes ≡ ok (v, drop n bytes))
  pub get_le_short : (n : ℕ) (bytes : List ℕ) → length bytes < n → get_le n bytes ≡ panic

module _ ⦃buf : Buf⦄ where
  abbrev pub put_le : ℕ → ℕ → List ℕ
  put_le = buf.put_le

  abbrev pub get_le : ℕ → List ℕ → Result (ℕ × List ℕ)
  get_le = buf.get_le

-- `to_le_bytes` of an unsigned integer of `n` bytes, and `from_le_bytes`.
unfoldable pub to_le_bytes : ℕ → ℕ → List ℕ
to_le_bytes zero v = []
to_le_bytes (suc n) v = (v % 256) ∷ to_le_bytes n (v / 256)

unfoldable pub from_le_bytes : List ℕ → ℕ
from_le_bytes [] = 0
from_le_bytes (b ∷ bytes) = b + 256 * from_le_bytes bytes

pub length-to_le_bytes : (n v : ℕ) → length (to_le_bytes n v) ≡ n
unfolding to_le_bytes
length-to_le_bytes zero v = refl
length-to_le_bytes (suc n) v = ap suc (length-to_le_bytes n (v / 256))

pub to_le_bytes-IsByte : (n v : ℕ) → All IsByte (to_le_bytes n v)
unfolding to_le_bytes
to_le_bytes-IsByte zero v = tt
to_le_bytes-IsByte (suc n) v = (omega arith, to_le_bytes-IsByte n (v / 256))

quotient_below : (n v : ℕ) → v < 256 ^ suc n → v / 256 < 256 ^ n
quotient_below n v h = let k = rw pow-suc at h in omega arith

pub from_le_bytes-to_le_bytes : (n v : ℕ) → v < 256 ^ n → from_le_bytes (to_le_bytes n v) ≡ v
unfolding from_le_bytes to_le_bytes
from_le_bytes-to_le_bytes zero v h = omega arith
from_le_bytes-to_le_bytes (suc n) v h =
    omega (arith, from_le_bytes-to_le_bytes n (v / 256) (quotient_below n v h))

-- A cursor that implements the interface.
unfoldable pub read_le : ℕ → List ℕ → Result (ℕ × List ℕ)
read_le zero bytes = ok (0, bytes)
read_le (suc n) [] = panic
read_le (suc n) (b ∷ bytes) = read_le n bytes >>= λ r. ok (b + 256 * r.0, r.1)

pub read_le-to_le_bytes :
    (n v : ℕ) (rest : List ℕ) → v < 256 ^ n → read_le n (to_le_bytes n v ++ rest) ≡ ok (v, rest)
unfolding read_le to_le_bytes
read_le-to_le_bytes zero v rest h = ground arith
read_le-to_le_bytes (suc n) v rest h =
    rw (read_le-to_le_bytes n (v / 256) rest (quotient_below n v h)) (ground arith)

pub read_le_enough :
    (n : ℕ) (bytes : List ℕ) → n ≤ length bytes → (v : ℕ) × (read_le n bytes ≡ ok (v, drop n bytes))
unfolding read_le
read_le_enough zero bytes h = (0, refl)
read_le_enough (suc n) [] h = absurd (omega arith)
read_le_enough (suc n) (b ∷ bytes) h =
    let (v, e) = read_le_enough n bytes (omega arith) in (b + 256 * v, rw e)

pub read_le_short : (n : ℕ) (bytes : List ℕ) → length bytes < n → read_le n bytes ≡ panic
unfolding read_le
read_le_short zero bytes h = absurd (omega arith)
read_le_short (suc n) [] h = refl
read_le_short (suc n) (b ∷ bytes) h = rw (read_le_short n bytes (omega arith))

abbrev pub le_buf : Buf
le_buf = record {
  put_le = to_le_bytes;
  get_le = read_le;
  length-put_le = length-to_le_bytes;
  put_le-IsByte = to_le_bytes-IsByte;
  get_le-put_le = read_le-to_le_bytes;
  get_le_enough = read_le_enough;
  get_le_short = read_le_short;
}
