-- ===== src/Sstable/Bloom/Bits.antt =====
-- Setting one bit of a filter sets that bit and clears none.
use cityhall.Base.{get_or-set_self, get_or-set_ne}
use cityhall.Base.{ℕ, zero, suc, ◌*◌, ◌/◌, ◌%◌, ◌≤◌, ◌<◌, ◌≡◌, refl, arith}
use cityhall.Base.{
  List, [], ◌∷◌, length, get_or, set, length-set, All, ltb, ltb→lt, lt→ltb, ◌==◌, ==_iff,
}
use cityhall.Base.{Bool, true, not, ◌&&◌, ◌||◌, Bool-cases, inl, inr}
use cityhall.Base.Bits.{holds_below, holds_below_sound}
use cityhall.Types.Bytes.{IsByte}
use cityhall.Sstable.Bloom.{BloomFilter, test_bit, put_bit, set_bit, get_bit}

abbrev self_ok : ℕ → ℕ → Bool
self_ok i b = test_bit (put_bit b i) i && ltb (put_bit b i) 256

abbrev keeps_ok : ℕ → ℕ → ℕ → Bool
keeps_ok i j b = not (test_bit b j) || test_bit (put_bit b i) j

self_table : holds_below 8 (λ i. holds_below 256 (self_ok i)) ≡ true
unfolding holds_below test_bit put_bit
self_table = refl

keeps_table : holds_below 8 (λ i. holds_below 8 (λ j. holds_below 256 (keeps_ok i j))) ≡ true
unfolding holds_below test_bit put_bit
keeps_table = refl

self_entry : (i b : ℕ) → i < 8 → b < 256 → self_ok i b ≡ true
self_entry i b hi hb =
    holds_below_sound 256 (self_ok i) b
      (holds_below_sound 8 (λ i. holds_below 256 (self_ok i)) i self_table hi) hb

keeps_entry : (i j b : ℕ) → i < 8 → j < 8 → b < 256 → keeps_ok i j b ≡ true
keeps_entry i j b hi hj hb =
    holds_below_sound 256 (keeps_ok i j) b
      (holds_below_sound 8 (λ j. holds_below 256 (keeps_ok i j)) j
        (holds_below_sound 8 (λ i. holds_below 8 (λ j. holds_below 256 (keeps_ok i j))) i
          keeps_table hi)
        hj)
      hb

pub test_bit-put_bit_self : (i b : ℕ) → i < 8 → b < 256 → test_bit (put_bit b i) i ≡ true
test_bit-put_bit_self i b hi hb = ground (arith, self_entry i b hi hb)

pub put_bit-lt : (i b : ℕ) → i < 8 → b < 256 → put_bit b i < 256
put_bit-lt i b hi hb = ground (arith, self_entry i b hi hb)

pub test_bit-put_bit :
    (i j b : ℕ) → i < 8 → j < 8 → b < 256 → test_bit b j ≡ true → test_bit (put_bit b i) j ≡ true
test_bit-put_bit i j b hi hj hb h = ground (arith, keeps_entry i j b hi hj hb)

-- The bits are bytes, and there are enough of them for `num_bits`.
pub record IsWellFormed (f : BloomFilter) : Type 0 where
  pub bytes : All IsByte f.bits
  pub enough : f.num_bits ≤ 8 * length f.bits
  pub some_bits : 0 < f.num_bits

get_or-IsByte : (xs : List ℕ) (i : ℕ) → All IsByte xs → get_or xs i 0 < 256
get_or-IsByte [] i h = omega arith
get_or-IsByte (x ∷ xs) zero h = h.0
get_or-IsByte (x ∷ xs) (suc i) h = get_or-IsByte xs i h.1

set-IsByte : (xs : List ℕ) (i v : ℕ) → All IsByte xs → v < 256 → All IsByte (set xs i v)
set-IsByte [] i v h hv = tt
set-IsByte (x ∷ xs) zero v h hv = (hv, h.1)
set-IsByte (x ∷ xs) (suc i) v h hv = (h.0, set-IsByte xs i v h.1 hv)

pub set_bit-IsWellFormed :
    (f : BloomFilter) (pos : ℕ) → IsWellFormed f → IsWellFormed (set_bit f pos)
unfolding set_bit
set_bit-IsWellFormed f pos w = elim (Bool-cases (ltb (pos / 8) (length f.bits))) [
  | inl fits ↦
      let byte = get_or f.bits (pos / 8) 0 in
      let new_byte = put_bit byte (pos % 8) in
      let small =
        put_bit-lt (pos % 8) byte (omega arith) (get_or-IsByte f.bits (pos / 8) w.bytes) in
      let n1 = length-set f.bits (pos / 8) new_byte in
      rw fits (record {
        bytes = set-IsByte f.bits (pos / 8) new_byte w.bytes small;
        enough = omega (arith, w.enough);
        some_bits = w.some_bits;
      })
  | inr beyond ↦ rw beyond w
]

pub num_bits-set_bit : (f : BloomFilter) (pos : ℕ) → (set_bit f pos).num_bits ≡ f.num_bits
unfolding set_bit
num_bits-set_bit f pos = ground arith

pub num_hashes-set_bit :
    (f : BloomFilter) (pos : ℕ) → (set_bit f pos).num_hash_functions ≡ f.num_hash_functions
unfolding set_bit
num_hashes-set_bit f pos = ground arith

-- A position below `num_bits` is set.
pub get_bit-set_bit_self :
    (f : BloomFilter) (pos : ℕ)
    → IsWellFormed f
    → pos < f.num_bits
    → get_bit (set_bit f pos) pos ≡ true
unfolding set_bit get_bit
get_bit-set_bit_self f pos w h =
    let byte = get_or f.bits (pos / 8) 0 in
    let new_byte = put_bit byte (pos % 8) in
    let fits : pos / 8 < length f.bits = omega (arith, w.enough) in
    rw (
      lt→ltb (pos / 8) (length f.bits) fits,
      length-set f.bits (pos / 8) new_byte,
      lt→ltb (pos / 8) (length f.bits) fits,
      get_or-set_self f.bits (pos / 8) new_byte 0 fits,
      test_bit-put_bit_self (pos % 8) byte (omega arith) (get_or-IsByte f.bits (pos / 8) w.bytes),
    )

get_bit_same :
    (f : BloomFilter) (pos q : ℕ)
    → IsWellFormed f
    → pos / 8 < length f.bits
    → pos / 8 ≡ q / 8
    → get_bit f q ≡ true
    → get_bit
        (record f { bits = set f.bits (pos / 8) (put_bit (get_or f.bits (pos / 8) 0) (pos % 8)) })
        q
      ≡ true
unfolding get_bit
get_bit_same f pos q w fits same h =
    let byte = get_or f.bits (pos / 8) 0 in
    let new_byte = put_bit byte (pos % 8) in
    let old : test_bit (get_or f.bits (q / 8) 0) (q % 8) ≡ true =
      rw (lt→ltb (q / 8) (length f.bits) (omega arith)) at h in
    rw (
      ← same,
      length-set f.bits (pos / 8) new_byte,
      lt→ltb (pos / 8) (length f.bits) fits,
      get_or-set_self f.bits (pos / 8) new_byte 0 fits,
      test_bit-put_bit (pos % 8) (q % 8) byte (omega arith) (omega arith)
          (get_or-IsByte f.bits (pos / 8) w.bytes) (rw (← same) at old),
    )

-- Setting a bit of a well-formed filter clears none that is set.
pub get_bit-set_bit :
    (f : BloomFilter) (pos q : ℕ)
    → IsWellFormed f
    → get_bit f q ≡ true
    → get_bit (set_bit f pos) q ≡ true
unfolding set_bit
get_bit-set_bit f pos q w h = elim (Bool-cases (ltb (pos / 8) (length f.bits))) [
  | inr beyond ↦ rw beyond h
  | inl fits ↦
      let byte = get_or f.bits (pos / 8) 0 in
      let new_byte = put_bit byte (pos % 8) in
      elim (Bool-cases (pos / 8 == q / 8)) [
        | inl same ↦ rw fits (get_bit_same f pos q w (ltb→lt _ _ fits) ((==_iff _ _).0 same) h)
        | inr other ↦ rw fits (
            unfold get_bit in
            rw
              (
                length-set f.bits (pos / 8) new_byte,
                get_or-set_ne f.bits (pos / 8) (q / 8) new_byte 0 (λ e. cc ((==_iff _ _).1 e)),
              )
              (unfold get_bit in h))
      ]
]
