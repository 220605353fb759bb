-- ===== src/Examples/Filters.antt =====
-- Runs of the filter of src/sstable/bloom.rs.
use cityhall.Base.{ℕ, ◌≡◌, refl, arith, List, [], ◌∷◌, ◌++◌, true}
use cityhall.Types.{ok}
use cityhall.Sstable.Bloom.{BloomFilter, new, contains, get_bit}
use cityhall.Sstable.Bloom.Bits.{IsWellFormed}
use cityhall.Sstable.Bloom.Membership.{add_keys, no_false_negative}
use cityhall.Sstable.Bloom.Codec.{new-IsWellFormed}
use cityhall.Examples.Instances.{test_hasher}

abbrev keys : List (List ℕ)
keys = (98 ∷ []) ∷ []

no_false_negative_example :
    (g : BloomFilter) × (add_keys (new 100 7) (keys ++ (97 ∷ []) ∷ keys) ≡ ok g)
    × (contains g (97 ∷ []) ≡ ok true)
    × IsWellFormed g
no_false_negative_example =
    no_false_negative (new 100 7) keys (97 ∷ []) keys (new-IsWellFormed 100 7 (omega arith))

abbrev small_filter : BloomFilter
small_filter = record { bits = 4 ∷ 0 ∷ []; num_bits = 10; num_hash_functions = 2 }

small_filter-IsWellFormed : IsWellFormed small_filter
small_filter-IsWellFormed = record {
  bytes = (omega arith, (omega arith, tt));
  enough = omega arith;
  some_bits = omega arith;
}

bit_two : get_bit small_filter 2 ≡ true
unfolding get_bit
bit_two = refl
