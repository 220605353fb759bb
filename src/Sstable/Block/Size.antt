-- ===== src/Sstable/Block/Size.antt =====
-- How large the buffer of a block builder grows.
use cityhall.Base.{
  ℕ, ◌+◌, ◌-◌, ◌≤◌, ◌≡◌, arith, List, [], ◌∷◌, ◌++◌, length, length-append, length-drop, All,
}
use cityhall.Types.{Entry}
use cityhall.Types.Bytes.{Buf}
use cityhall.Sstable.Varint.Size.{length-encode_varint}
use cityhall.Sstable.Block.{new, common_prefix_len, encode_entry}
use cityhall.Sstable.Block.Prefix.{common_prefix_len-IsCommonPrefix}
use cityhall.Sstable.Block.RoundTrip.{IsEncodable, encode_entries, add_all, buffer-add_all}

-- An entry takes no more: three varints, its bytes and a timestamp.
abbrev pub weight : Entry → ℕ
weight e = length e.key + length e.value + 38

abbrev pub total_weight : List Entry → ℕ
total_weight [] = 0
total_weight (e ∷ entries) = weight e + total_weight entries

pub total_weight-append :
    (xs ys : List Entry) → total_weight (xs ++ ys) ≡ total_weight xs + total_weight ys
total_weight-append [] ys = omega arith
total_weight-append (x ∷ xs) ys = omega (arith, total_weight-append xs ys)

module _ ⦃buf : Buf⦄ where
  length-encode_entry :
      (previous : List ℕ) (e : Entry) → IsEncodable e → length (encode_entry previous e) ≤ weight e
  unfolding encode_entry
  length-encode_entry previous e fits =
      let shared = common_prefix_len previous e.key in
      let c = (common_prefix_len-IsCommonPrefix previous e.key).within_right in
      let kf = fits.key_fits in
      let v1 = length-encode_varint shared (omega arith) in
      let v2 = length-encode_varint (length e.key - shared) (omega arith) in
      let v3 = length-encode_varint (length e.value) fits.value_fits in
      simp (length-append, buf.length-put_le, length-drop) (omega arith)

  length-encode_entries :
      (previous : List ℕ) (entries : List Entry)
      → All IsEncodable entries
      → length (encode_entries previous entries) ≤ total_weight entries
  unfolding encode_entries
  length-encode_entries previous [] fits = omega arith
  length-encode_entries previous (e ∷ entries) fits = omega (
    arith,
    length-append (encode_entry previous e) (encode_entries e.key entries),
    length-encode_entry previous e fits.0,
    length-encode_entries e.key entries fits.1,
  )

  pub length-buffer :
      (entries : List Entry)
      → All IsEncodable entries
      → length (add_all new entries).buffer ≤ total_weight entries
  length-buffer entries fits =
      rw (buffer-add_all new entries) (length-encode_entries [] entries fits)
