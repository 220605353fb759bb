-- ===== src/Sstable/Block/Prefix.antt =====
-- `common_prefix_len` is the length of the longest common prefix.
use cityhall.Base.{ℕ, ◌≤◌, ◌<◌, ◌≡◌, ◌≢◌, refl, arith, List, [], ◌∷◌, ◌++◌}
use cityhall.Base.{length, take, drop, get_elem?, take-append-drop, ◌==◌, Bool-cases, inl, inr}
use cityhall.Sstable.Block.{common_prefix_len}

-- It is at most both lengths, the keys agree up to it, and they differ there if both go on.
pub record IsCommonPrefix (a b : List ℕ) (n : ℕ) : Type 0 where
  pub within_left : n ≤ length a
  pub within_right : n ≤ length b
  pub agrees : take n a ≡ take n b
  pub longest : n < length a → n < length b → get_elem? a n ≢ get_elem? b n

pub common_prefix_len-IsCommonPrefix : (a b : List ℕ) → IsCommonPrefix a b (common_prefix_len a b)
unfolding common_prefix_len
common_prefix_len-IsCommonPrefix [] b = record {
  within_left = omega arith;
  within_right = omega arith;
  agrees = refl;
  longest = λ h k. absurd (omega arith);
}
common_prefix_len-IsCommonPrefix (x ∷ a) [] = record {
  within_left = omega arith;
  within_right = omega arith;
  agrees = refl;
  longest = λ h k. absurd (omega arith);
}
common_prefix_len-IsCommonPrefix (x ∷ a) (y ∷ b) =
    let rec = common_prefix_len-IsCommonPrefix a b in
    elim (Bool-cases (x == y)) [
      | inl same ↦ rw same (record {
        within_left = omega (arith, rec.within_left);
        within_right = omega (arith, rec.within_right);
        agrees = ground (arith, rec.agrees);
        longest = λ h k. rec.longest (omega arith) (omega arith);
      })
      | inr other ↦ rw other (record {
        within_left = omega arith;
        within_right = omega arith;
        agrees = refl;
        longest = λ h k e. ground arith;
      })
    ]

-- The shared prefix of the last key and the rest of the new one make the new key.
pub prefix_rest :
    (last key : List ℕ)
    → take (common_prefix_len last key) last ++ drop (common_prefix_len last key) key ≡ key
prefix_rest last key =
    rw (common_prefix_len-IsCommonPrefix last key).agrees (take-append-drop _ key)
