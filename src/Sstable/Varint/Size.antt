-- ===== src/Sstable/Varint/Size.antt =====
-- How many bytes a varint takes.
use mathlib.Core.WellFounded.{Acc}
use mathlib.Core.Logic.{dif_pos, dif_neg}
use native.Mathlib.Bridge.{le_prop}
use native.Mathlib.Decide.{dec_le}
use native.Mathlib.Nat.{pow-suc}
use cityhall.Base.{ℕ, zero, suc, ◌/◌, ◌^◌, ◌≤◌, ◌<◌, length, arith}
use cityhall.Base.WellFounded.{lt_wf}
use cityhall.Sstable.Varint.{shift_shrinks, encode_varint_loop, encode_varint}

one_group_less : (n v : ℕ) → v < 128 ^ suc n → v / 128 < 128 ^ n
one_group_less n v h = let k = rw pow-suc at h in omega arith

loop_size : (n v : ℕ) (w : Acc ◌<◌ v) → v < 128 ^ suc n → length (encode_varint_loop v w) ≤ suc n
unfolding encode_varint_loop
loop_size zero v (Acc.intro _ smaller) h = elim (dec_le 128 v) [
  | yes p ↦ absurd (omega arith)
  | no p ↦ rw (dif_neg (dec_le 128 v) p) (omega arith)
]
loop_size (suc n) v (Acc.intro _ smaller) h = elim (dec_le 128 v) [
  | yes p ↦
      let rest =
        loop_size n (v / 128) (smaller (v / 128) (shift_shrinks v p))
          (one_group_less (suc n) v h) in
      rw (dif_pos (dec_le 128 v) le_prop p) (omega arith)
  | no p ↦ rw (dif_neg (dec_le 128 v) p) (omega arith)
]

-- Ten bytes are enough for 64 bits.
pub length-encode_varint : (v : ℕ) → v < 2 ^ 64 → length (encode_varint v) ≤ 10
unfolding encode_varint
length-encode_varint v h = loop_size 9 v (lt_wf.apply v) (omega arith)
