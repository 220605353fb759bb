-- ===== src/Sstable/Bloom/Codec.antt =====
-- A stored filter is read back; the empty encoding accepts every key; other bytes are refused.
use cityhall.Base.{ℕ, zero, suc, ◌+◌, ◌*◌, ◌%◌, ◌^◌, ◌≤◌, ◌<◌, ◌≡◌, ◌⊎◌, inl, inr, refl, arith}
use cityhall.Base.{List, [], ◌∷◌, ◌++◌, length, length-append, length-replicate, take, drop}
use cityhall.Base.{ltb, le→ltb, ◌==◌, ==_iff, All, replicate, Bool-cases}
use cityhall.Base.{true}
use cityhall.Base.Bits.{holds_below, holds_below_sound}
use cityhall.Types.{ok, err, invalid_format, ◌>>=◌}
use cityhall.Types.Bytes.{
  to_le_bytes, from_le_bytes, length-to_le_bytes, from_le_bytes-to_le_bytes, IsByte,
}
use cityhall.Sstable.Bloom.{
  BloomFilter, KeyHasher, new, bytes_for, permissive, encode, decode, contains, get_bit,
}
use cityhall.Sstable.Bloom.Bits.{IsWellFormed}

replicate-IsByte : (n : ℕ) → All IsByte (replicate n 0)
replicate-IsByte zero = tt
replicate-IsByte (suc n) = (omega arith, replicate-IsByte n)

-- A new filter is well formed.
pub new-IsWellFormed : (num_bits k : ℕ) → 0 < num_bits → IsWellFormed (new num_bits k)
unfolding new
new-IsWellFormed num_bits k h = record {
  bytes = replicate-IsByte (bytes_for num_bits);
  enough = omega (arith, length-replicate {A = ℕ} (bytes_for num_bits) 0);
  some_bits = h;
}

-- The sizes fit 32 bits, and the bits take the bytes that `num_bits` needs.
pub record IsStorable (f : BloomFilter) : Type 0 where
  pub num_bits_fits : f.num_bits < 2 ^ 32
  pub hashes_fit : f.num_hash_functions < 2 ^ 32
  pub exact : length f.bits ≡ bytes_for f.num_bits

abbrev stored : ℕ → ℕ → List ℕ → List ℕ
stored a b bits = to_le_bytes 4 a ++ (to_le_bytes 4 b ++ bits)

read_num_bits : (a b : ℕ) (bits : List ℕ) → take 4 (stored a b bits) ≡ to_le_bytes 4 a
unfolding to_le_bytes
read_num_bits a b bits = refl

read_num_hashes : (a b : ℕ) (bits : List ℕ) → take 4 (drop 4 (stored a b bits)) ≡ to_le_bytes 4 b
unfolding to_le_bytes
read_num_hashes a b bits = refl

read_bits : (a b : ℕ) (bits : List ℕ) → drop 8 (stored a b bits) ≡ bits
unfolding to_le_bytes
read_bits a b bits = refl

length-stored : (a b : ℕ) (bits : List ℕ) → length (stored a b bits) ≡ 8 + length bits
length-stored a b bits = simp (length-append, length-to_le_bytes) (omega arith)

decode_long :
    (bytes : List ℕ)
    → 8 ≤ length bytes
    → length (drop 8 bytes) ≡ bytes_for (from_le_bytes (take 4 bytes))
    → decode bytes
      ≡ ok (record {
        bits = drop 8 bytes;
        num_bits = from_le_bytes (take 4 bytes);
        num_hash_functions = from_le_bytes (take 4 (drop 4 bytes));
      })
unfolding decode
decode_long [] h e = absurd (omega arith)
decode_long (b ∷ bytes) h e = rw (le→ltb (length (b ∷ bytes)) 8 h, (==_iff _ _).1 e)

stored_filter :
    (a b : ℕ) (bits : List ℕ)
    → a < 2 ^ 32
    → b < 2 ^ 32
    → length bits ≡ bytes_for a
    → decode (stored a b bits) ≡ ok (record { bits = bits; num_bits = a; num_hash_functions = b })
stored_filter a b bits ha hb exact =
    let ea = from_le_bytes-to_le_bytes 4 a ha in
    let eb = from_le_bytes-to_le_bytes 4 b hb in
    rw
      (decode_long (stored a b bits) (omega (arith, length-stored a b bits))
        (rw (read_bits a b bits, read_num_bits a b bits, ea) exact))
      (rw (read_bits a b bits, read_num_bits a b bits, read_num_hashes a b bits, ea, eb))

-- A filter whose sizes fit 32 bits and whose bits take just the bytes they need is decoded from
-- its encoding.
pub bloom_decode-encode : (f : BloomFilter) → IsStorable f → decode (encode f) ≡ ok f
unfolding encode
bloom_decode-encode f s =
    let small : f.num_bits % 2 ^ 32 ≡ f.num_bits = omega (arith, s.num_bits_fits) in
    rw small
      (stored_filter f.num_bits f.num_hash_functions f.bits s.num_bits_fits s.hashes_fit s.exact)

permissive_table : holds_below 8 (λ pos. get_bit permissive pos) ≡ true
unfolding holds_below get_bit
permissive_table = refl

-- An empty encoding stands for a filter that accepts every key.
pub permissive_accepts :
    ⦃hasher : KeyHasher⦄ (key : List ℕ) → (decode [] >>= λ f. contains f key) ≡ ok true
unfolding decode contains
permissive_accepts ⦃hasher⦄ key =
    let h1 = hasher.hash_fn key 0 in
    let h2 = hasher.hash_fn key 1 in
    let pos = (h1 + 0 * h2 % 2 ^ 64) % 2 ^ 64 % 8 in
    rw (holds_below_sound 8 (λ p. get_bit permissive p) pos permissive_table (omega arith))

-- Decoding any bytes gives a filter with just the bytes for its bits, or an error; it never panics.
pub bloom_decode_total :
    (bytes : List ℕ)
    → (decode bytes ≡ err invalid_format)
      ⊎ ((f : BloomFilter) × (decode bytes ≡ ok f) × (length f.bits ≡ bytes_for f.num_bits))
unfolding decode
bloom_decode_total [] = inr (permissive, refl, refl)
bloom_decode_total (b ∷ bytes) = elim (Bool-cases (ltb (length (b ∷ bytes)) 8)) [
  | inl short ↦ inl (rw short)
  | inr long ↦
      let all = b ∷ bytes in
      let n = from_le_bytes (take 4 all) in
      elim (Bool-cases (length (drop 8 all) == bytes_for n)) [
        | inl exact ↦ inr (
          record {
            bits = drop 8 all;
            num_bits = n;
            num_hash_functions = from_le_bytes (take 4 (drop 4 all));
          },
          rw (long, exact),
          (==_iff _ _).0 exact,
        )
        | inr other ↦ inl (rw (long, other))
      ]
]
