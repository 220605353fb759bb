-- ===== src/Sstable/Footer/RoundTrip.antt =====
-- What `Footer::encode` writes is read back, and what `Footer::decode` does on any bytes.
use cityhall.Base.{ℕ, ◌-◌, ◌^◌, ◌<◌, ◌≡◌, ◌⊎◌, inl, inr, arith, List, ◌++◌, length, length-append}
use cityhall.Base.{
  length-replicate, replicate, append_assoc, ◌≤◌, ltb, ltb→le, le→ltb, drop, length-drop,
}
use cityhall.Base.{Bool-cases}
use cityhall.Types.{ok, err, invalid_format}
use cityhall.Types.Bytes.{Buf, put_le}
use cityhall.Sstable.Footer.{Footer, footer_size, fields, encode, decode}

-- The fields are in the range of their types.
pub record IsInRange (f : Footer) : Type 0 where
  pub index_offset_fits : f.index_offset < 2 ^ 64
  pub bloom_offset_fits : f.bloom_offset < 2 ^ 64
  pub index_size_fits : f.index_size < 2 ^ 32
  pub bloom_size_fits : f.bloom_size < 2 ^ 32
  pub checksum_fits : f.checksum < 2 ^ 32

module _ ⦃buf : Buf⦄ where
  -- The encoding as the cursor of `decode` meets it.
  layout :
      (f : Footer)
      → encode f
        ≡ put_le 8 f.index_offset
          ++ (put_le 8 f.bloom_offset
              ++ (put_le 4 f.index_size
                  ++ (put_le 4 f.bloom_size
                      ++ (put_le 4 f.checksum ++ replicate (footer_size - 28) 0))))
  unfolding encode fields
  layout f = simp (length-append, buf.length-put_le, append_assoc)

  -- The encoding always has `FOOTER_SIZE` bytes.
  pub footer_length-encode : (f : Footer) → length (encode f) ≡ footer_size
  footer_length-encode f = rw layout (simp (length-append, buf.length-put_le, length-replicate))

  -- A footer with fields in range is decoded from its encoding, also with any bytes behind it.
  pub footer_decode-encode :
      (f : Footer) (rest : List ℕ) → IsInRange f → decode (encode f ++ rest) ≡ ok f
  unfolding decode
  footer_decode-encode f rest r = rw (
    le→ltb (length (encode f ++ rest)) footer_size (long f rest),
    layout f,
    append_assoc,
    buf.get_le-put_le 8 f.index_offset _ r.index_offset_fits,
    append_assoc,
    buf.get_le-put_le 8 f.bloom_offset _ r.bloom_offset_fits,
    append_assoc,
    buf.get_le-put_le 4 f.index_size _ r.index_size_fits,
    append_assoc,
    buf.get_le-put_le 4 f.bloom_size _ r.bloom_size_fits,
    append_assoc,
    buf.get_le-put_le 4 f.checksum _ r.checksum_fits,
  )
    where
      long : (f : Footer) (rest : List ℕ) → footer_size ≤ length (encode f ++ rest)
      long f rest = omega (arith, length-append (encode f) rest, footer_length-encode f)

  -- On any bytes: an error when they are too few, else a footer, and no panic.
  pub footer_decode_total :
      (bytes : List ℕ)
      → ((length bytes < footer_size) × (decode bytes ≡ err invalid_format))
        ⊎ ((f : Footer) × (decode bytes ≡ ok f))
  unfolding decode
  footer_decode_total bytes = elim (Bool-cases (ltb (length bytes) footer_size)) [
    | inl short ↦ inl (ground arith, rw short)
    | inr long ↦ rw long (
        let n1 = ltb→le (length bytes) footer_size long in
        let c1 = drop 8 bytes in
        let c2 = drop 8 c1 in
        let c3 = drop 4 c2 in
        let c4 = drop 4 c3 in
        let n2 : length c1 ≡ length bytes - 8 = length-drop 8 bytes in
        let n3 : length c2 ≡ length c1 - 8 = length-drop 8 c1 in
        let n4 : length c3 ≡ length c2 - 4 = length-drop 4 c2 in
        let n5 : length c4 ≡ length c3 - 4 = length-drop 4 c3 in
        let (v1, e1) = buf.get_le_enough 8 bytes (omega arith) in
        let (v2, e2) = buf.get_le_enough 8 c1 (omega arith) in
        let (v3, e3) = buf.get_le_enough 4 c2 (omega arith) in
        let (v4, e4) = buf.get_le_enough 4 c3 (omega arith) in
        let (v5, e5) = buf.get_le_enough 4 c4 (omega arith) in
        inr (
          record {
            index_offset = v1;
            bloom_offset = v2;
            index_size = v3;
            bloom_size = v4;
            checksum = v5;
          },
          rw (e1, e2, e3, e4, e5),
        ))
  ]
