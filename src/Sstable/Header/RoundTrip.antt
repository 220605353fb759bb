-- ===== src/Sstable/Header/RoundTrip.antt =====
-- What `Header::encode` writes is read back, and what `Header::decode` does on any bytes.
use cityhall.Base.{ℕ, ◌-◌, ◌^◌, ◌<◌, ◌≡◌, ◌⊎◌, inl, inr, arith, List, ◌++◌}
use cityhall.Base.{length, length-append, length-replicate, replicate, append_assoc, ltb}
use cityhall.Base.{==_iff, ◌==◌, Bool-cases, ltb→le, drop, length-drop}
use cityhall.Types.{ok, err, invalid_format}
use cityhall.Types.Bytes.{Buf, put_le}
use cityhall.Sstable.Header.{Header, magic_number, header_size, fields, encode, decode}

-- The fields are in the range of their types.
pub record IsInRange (h : Header) : Type 0 where
  pub version_fits : h.version < 2 ^ 32
  pub num_blocks_fits : h.num_blocks < 2 ^ 32
  pub min_fits : h.min_timestamp < 2 ^ 64
  pub max_fits : h.max_timestamp < 2 ^ 64

module _ ⦃buf : Buf⦄ where
  length-fields : (h : Header) → length (fields h) ≡ 28
  unfolding fields
  length-fields h = simp (length-append, buf.length-put_le)

  -- The encoding as the cursor of `decode` meets it.
  layout :
      (h : Header)
      → encode h
        ≡ put_le 4 h.magic
          ++ (put_le 4 h.version
              ++ (put_le 4 h.num_blocks
                  ++ (put_le 8 h.min_timestamp
                      ++ (put_le 8 h.max_timestamp ++ replicate (header_size - 28) 0))))
  unfolding encode fields
  layout h = simp (length-append, buf.length-put_le, append_assoc)

  -- The encoding always has `HEADER_SIZE` bytes.
  pub header_length-encode : (h : Header) → length (encode h) ≡ header_size
  header_length-encode h = rw layout (simp (length-append, buf.length-put_le, length-replicate))

  -- A header with the magic number and fields in range, encoded and decoded, is the same header.
  pub header_decode-encode :
      (h : Header) → h.magic ≡ magic_number → IsInRange h → decode (encode h) ≡ ok h
  unfolding decode
  header_decode-encode h m r = rw (
    header_length-encode h,
    layout h,
    buf.get_le-put_le 4 h.magic _ (omega arith),
    (==_iff _ _).1 m,
    buf.get_le-put_le 4 h.version _ r.version_fits,
    buf.get_le-put_le 4 h.num_blocks _ r.num_blocks_fits,
    buf.get_le-put_le 8 h.min_timestamp _ r.min_fits,
    buf.get_le-put_le 8 h.max_timestamp _ r.max_fits,
  )

  -- Decoding a header from any bytes gives a format error or a header with the magic number, and
  -- never panics.
  pub header_decode_total :
      (bytes : List ℕ)
      → (decode bytes ≡ err invalid_format)
        ⊎ ((h : Header) × (decode bytes ≡ ok h) × (h.magic ≡ magic_number))
  unfolding decode
  header_decode_total bytes = elim (Bool-cases (ltb (length bytes) header_size)) [
    | inl short ↦ inl (rw short)
    | inr long ↦ rw long (
        let n1 = ltb→le (length bytes) header_size long in
        let c1 = drop 4 bytes in
        let c2 = drop 4 c1 in
        let c3 = drop 4 c2 in
        let c4 = drop 8 c3 in
        let n2 : length c1 ≡ length bytes - 4 = length-drop 4 bytes in
        let n3 : length c2 ≡ length c1 - 4 = length-drop 4 c1 in
        let n4 : length c3 ≡ length c2 - 4 = length-drop 4 c2 in
        let n5 : length c4 ≡ length c3 - 8 = length-drop 8 c3 in
        let (v1, e1) = buf.get_le_enough 4 bytes (omega arith) in
        let (v2, e2) = buf.get_le_enough 4 c1 (omega arith) in
        let (v3, e3) = buf.get_le_enough 4 c2 (omega arith) in
        let (v4, e4) = buf.get_le_enough 8 c3 (omega arith) in
        let (v5, e5) = buf.get_le_enough 8 c4 (omega arith) in
        elim (Bool-cases (v1 == magic_number)) [
          | inl is_magic ↦ inr (
            record {
              magic = v1;
              version = v2;
              num_blocks = v3;
              min_timestamp = v4;
              max_timestamp = v5;
            },
            rw (e1, is_magic, e2, e3, e4, e5),
            (==_iff _ _).0 is_magic,
          )
          | inr not_magic ↦ inl (rw (e1, not_magic))
        ])
  ]
