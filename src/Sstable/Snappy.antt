-- ===== src/Sstable/Snappy.antt =====
-- The `snap` crate, which compresses the blocks of a table, as an interface. `none` is its error.
use cityhall.Base.{ℕ, ◌+◌, ◌/◌, ◌^◌, ◌≤◌, ◌<◌, ◌≡◌, refl, sym, List, length, Option, some, arith}

pub record Snappy : Type 0 where
  pub compress : List ℕ → Option (List ℕ)
  pub decompress : List ℕ → Option (List ℕ)
  -- An input within the size limit is compressed, and grows by 32 bytes and a sixth at most.
  pub compress_fits :
      (bytes : List ℕ)
      → length bytes < 2 ^ 31
      → (out : List ℕ) × (compress bytes ≡ some out)
        × (length out ≤ 32 + length bytes + length bytes / 6)
  pub decompress-compress :
      (bytes out : List ℕ) → compress bytes ≡ some out → decompress out ≡ some bytes

pub stored_size : (n : ℕ) → n ≤ 32 + n + n / 6
stored_size n = omega arith

pub stored_back : (bytes out : List ℕ) → some bytes ≡ some out → some out ≡ some bytes
stored_back bytes out h = sym h

-- A format that stores the bytes as they are.
abbrev pub stored : Snappy
stored = record {
  compress = some;
  decompress = some;
  compress_fits = λ bytes _. (bytes, refl, stored_size (length bytes));
  decompress-compress = λ bytes out h. stored_back bytes out h;
}
