-- ===== src/Sstable/Bloom.antt =====
-- The bloom filter of src/sstable/bloom.rs. The algorithm of `DefaultHasher` is not specified, so the
-- hash is an interface; the two sizes that `new` computes in floating point are arguments.
pub mod Bits
pub mod Membership
pub mod Codec
pub mod Filled
use Prim.Native.Nat.{bit_and, bit_or}
use cityhall.Base.{
  ℕ, zero, suc, ◌+◌, ◌*◌, ◌/◌, ◌%◌, ◌^◌, ◌<◌, List, [], ◌∷◌, ◌++◌, length, take, drop,
}
use cityhall.Base.{
  get_elem?, get_or, set, replicate, ltb, ◌==◌, if◌then◌else◌, Bool, true, false, not, ◌&&◌,
}
use cityhall.Types.{Result, ok, err, panic, invalid_format, ◌>>=◌}
use cityhall.Types.Bytes.{to_le_bytes, from_le_bytes}

pub record KeyHasher : Type 0 where
  -- The key and the seed.
  pub hash_fn : List ℕ → ℕ → ℕ
  pub hash_fn_fits : (key : List ℕ) (seed : ℕ) → hash_fn key seed < 2 ^ 64

pub record BloomFilter : Type 0 where
  pub bits : List ℕ
  pub num_bits : ℕ
  pub num_hash_functions : ℕ

-- `n.div_ceil(8)`
abbrev pub bytes_for : ℕ → ℕ
bytes_for n = (n + 7) / 8

unfoldable pub new : ℕ → ℕ → BloomFilter
new num_bits num_hash_functions = record {
  bits = replicate (bytes_for num_bits) 0;
  num_bits = num_bits;
  num_hash_functions = num_hash_functions;
}

-- Bit `i` of a byte, and the byte with it set.
pub test_bit : ℕ → ℕ → Bool
test_bit byte i = not (bit_and byte (2 ^ i) == 0)

pub put_bit : ℕ → ℕ → ℕ
put_bit byte i = bit_or byte (2 ^ i)

unfoldable pub set_bit : BloomFilter → ℕ → BloomFilter
unfolding put_bit
set_bit f pos =
    if ltb (pos / 8) (length f.bits)
    then record f { bits = set f.bits (pos / 8) (put_bit (get_or f.bits (pos / 8) 0) (pos % 8)) }
    else f

unfoldable pub get_bit : BloomFilter → ℕ → Bool
unfolding test_bit
get_bit f pos =
    if ltb (pos / 8) (length f.bits) then test_bit (get_or f.bits (pos / 8) 0) (pos % 8) else false

-- `h1.wrapping_add(i.wrapping_mul(h2)) % num_bits` for each `i` below a count.
unfoldable pub double_hash : ℕ → ℕ → ℕ → ℕ → ℕ → List ℕ
double_hash h1 h2 num_bits i zero = []
double_hash h1 h2 num_bits i (suc count) =
    ((h1 + i * h2 % 2 ^ 64) % 2 ^ 64 % num_bits) ∷ double_hash h1 h2 num_bits (suc i) count

unfoldable pub set_bits : BloomFilter → List ℕ → BloomFilter
unfolding set_bit
set_bits f [] = f
set_bits f (pos ∷ hashes) = set_bits (set_bit f pos) hashes

unfoldable pub all_set : BloomFilter → List ℕ → Bool
unfolding get_bit
all_set f [] = true
all_set f (pos ∷ hashes) = get_bit f pos && all_set f hashes

module _ ⦃hasher : KeyHasher⦄ where
  -- A remainder by a `num_bits` of 0 panics.
  unfoldable pub hash : BloomFilter → List ℕ → Result (List ℕ)
  unfolding double_hash
  hash f key =
      if f.num_bits == 0 && ltb 0 f.num_hash_functions
      then panic
      else ok (
          double_hash (hasher.hash_fn key 0) (hasher.hash_fn key 1) f.num_bits 0
            f.num_hash_functions)

  unfoldable pub contains : BloomFilter → List ℕ → Result Bool
  unfolding hash all_set
  contains f key = do hashes ← hash f key; ok (all_set f hashes)

  -- `BloomFilterBuilder::add`.
  unfoldable pub add : BloomFilter → List ℕ → Result BloomFilter
  unfolding hash set_bits
  add f key = do hashes ← hash f key; ok (set_bits f hashes)

unfoldable pub encode : BloomFilter → List ℕ
encode f = to_le_bytes 4 (f.num_bits % 2 ^ 32) ++ (to_le_bytes 4 f.num_hash_functions ++ f.bits)

-- The filter that an empty encoding stands for.
abbrev pub permissive : BloomFilter
permissive = record { bits = 0xff ∷ []; num_bits = 8; num_hash_functions = 1 }

unfoldable pub decode : List ℕ → Result BloomFilter
decode [] = ok permissive
decode (b ∷ bytes) =
    let all = b ∷ bytes in
    if ltb (length all) 8
    then err invalid_format
    else let num_bits = from_le_bytes (take 4 all) in
      let num_hash_functions = from_le_bytes (take 4 (drop 4 all)) in
      let bits = drop 8 all in
      if not (length bits == bytes_for num_bits)
      then err invalid_format
      else ok (record { bits = bits; num_bits = num_bits; num_hash_functions = num_hash_functions })
