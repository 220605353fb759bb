-- ===== src/Examples/Instances.antt =====
-- Concrete functions for the crates that src/wal.rs and src/sstable/ call: the cursor of
-- Types/Bytes.antt, a byte sum for the checksum and for the hash, blocks stored as they are.
use cityhall.Base.{ℕ, ◌+◌, ◌%◌, ◌^◌, ◌<◌, refl, arith, List, [], ◌∷◌}
use cityhall.Types.Bytes.{Buf, le_buf}
use cityhall.Wal.Record.{Crc32}
use cityhall.Sstable.Snappy.{Snappy, stored}
use cityhall.Sstable.Bloom.{KeyHasher, permissive}
use cityhall.Engine.{FilterConfig}
use cityhall.Text.{Utf8}

abbrev pub byte_sum : List ℕ → ℕ
byte_sum [] = 0
byte_sum (b ∷ bytes) = b + byte_sum bytes

pub byte_sum_fits : (bytes : List ℕ) → byte_sum bytes % 2 ^ 32 < 2 ^ 32
byte_sum_fits bytes = omega arith

pub hash_fits : (key : List ℕ) (seed : ℕ) → (byte_sum key + seed) % 2 ^ 64 < 2 ^ 64
hash_fits key seed = omega arith

instance abbrev pub test_buf : Buf
test_buf = le_buf

instance abbrev pub test_crc : Crc32
test_crc = record { checksum = λ bytes. byte_sum bytes % 2 ^ 32; checksum_fits = byte_sum_fits }

instance abbrev pub test_hasher : KeyHasher
test_hasher = record {
  hash_fn = λ key seed. (byte_sum key + seed) % 2 ^ 64;
  hash_fn_fits = hash_fits;
}

instance abbrev pub test_snappy : Snappy
test_snappy = stored

instance abbrev pub test_filters : FilterConfig
test_filters = record { num_bits = 1000; num_hash_functions = 7; placeholder = permissive }

instance abbrev pub test_utf8 : Utf8
test_utf8 = record {
  as_bytes = λ text. text;
  from_utf8_lossy = λ bytes. bytes;
  lossy-bytes = λ text. refl;
}
