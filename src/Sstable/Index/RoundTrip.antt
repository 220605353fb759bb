-- ===== src/Sstable/Index/RoundTrip.antt =====
-- The index that a writer stores is the one that a reader loads, and loading ends on any bytes.
use cityhall.Base.{ℕ, zero, suc, ◌+◌, ◌-◌, ◌%◌, ◌^◌, ◌≤◌, ◌<◌, ◌≡◌, ◌⊎◌, inl, inr, refl}
use cityhall.Base.{List, [], ◌∷◌, ◌++◌, append_assoc, length, length-append, take, drop}
use cityhall.Base.{
  take-append, drop-append, length-drop, ltb, ltb→le, le→ltb, Bool-cases, All, arith,
}
use cityhall.Types.{ok, err, invalid_format, ◌>>=◌}
use cityhall.Types.Bytes.{Buf, put_le}
use cityhall.Sstable.Index.{IndexEntry, encode, decode, encode_index, decode_index}

-- The key length, the offset and the size fit the widths in the file.
pub record IsStorable (e : IndexEntry) : Type 0 where
  pub key_fits : length e.first_key < 2 ^ 16
  pub offset_fits : e.offset < 2 ^ 64
  pub size_fits : e.size < 2 ^ 32

module _ ⦃buf : Buf⦄ where
  pub length-encode : (e : IndexEntry) → length (encode e) ≡ length e.first_key + 14
  unfolding encode
  length-encode e = simp (length-append, buf.length-put_le) (omega arith)

  layout :
      (e : IndexEntry) (rest : List ℕ)
      → encode e ++ rest
        ≡ put_le 2 (length e.first_key % 2 ^ 16)
          ++ (e.first_key ++ (put_le 8 e.offset ++ (put_le 4 e.size ++ rest)))
  unfolding encode
  layout e rest = simp append_assoc

  room :
      (e : IndexEntry) (rest : List ℕ)
      → length e.first_key + 12
        ≤ length (e.first_key ++ (put_le 8 e.offset ++ (put_le 4 e.size ++ rest)))
  room e rest = simp (length-append, buf.length-put_le) (omega arith)

  -- One entry, with whatever follows it.
  pub decode-encode :
      (e : IndexEntry) (rest : List ℕ) → IsStorable e → decode (encode e ++ rest) ≡ ok (e, rest)
  unfolding decode
  decode-encode e rest s =
      let tail = put_le 8 e.offset ++ (put_le 4 e.size ++ rest) in
      let n1 : length (encode e ++ rest) ≡ length (encode e) + length rest =
        length-append (encode e) rest in
      let k : length e.first_key % 2 ^ 16 ≡ length e.first_key = omega (arith, s.key_fits) in
      rw (
        le→ltb (length (encode e ++ rest)) 2 (omega (arith, length-encode e)),
        layout e rest,
        buf.get_le-put_le 2 (length e.first_key % 2 ^ 16) _ (omega arith),
        k,
        le→ltb (length (e.first_key ++ tail)) (length e.first_key + 12) (room e rest),
        drop-append e.first_key tail,
        buf.get_le-put_le 8 e.offset _ s.offset_fits,
        buf.get_le-put_le 4 e.size _ s.size_fits,
        take-append e.first_key tail,
      )

  -- On any bytes `decode` gives an error or an entry, and never panics; an entry takes 14 bytes or
  -- more.
  pub decode_total :
      (bytes : List ℕ)
      → (decode bytes ≡ err invalid_format)
        ⊎ ((e : IndexEntry) × (rest : List ℕ) × (decode bytes ≡ ok (e, rest))
            × (length rest + 14 ≤ length bytes))
  unfolding decode
  decode_total bytes = elim (Bool-cases (ltb (length bytes) 2)) [
    | inl short ↦ inl (rw short)
    | inr long ↦ rw long (
        let n1 = ltb→le (length bytes) 2 long in
        let c1 = drop 2 bytes in
        let n2 : length c1 ≡ length bytes - 2 = length-drop 2 bytes in
        let (key_len, e1) = buf.get_le_enough 2 bytes n1 in
        elim (Bool-cases (ltb (length c1) (key_len + 12))) [
          | inl cut ↦ inl (rw (e1, cut))
          | inr fits ↦
              let n3 = ltb→le (length c1) (key_len + 12) fits in
              let c2 = drop key_len c1 in
              let c3 = drop 8 c2 in
              let n4 : length c2 ≡ length c1 - key_len = length-drop key_len c1 in
              let n5 : length c3 ≡ length c2 - 8 = length-drop 8 c2 in
              let n6 : length (drop 4 c3) ≡ length c3 - 4 = length-drop 4 c3 in
              let (offset, e2) = buf.get_le_enough 8 c2 (omega arith) in
              let (size, e3) = buf.get_le_enough 4 c3 (omega arith) in
              inr (
                record { first_key = take key_len c1; offset = offset; size = size },
                drop 4 c3,
                rw (e1, fits, e2, e3),
                omega arith,
              )
        ])
  ]

  decode_index_step :
      (fuel : ℕ) (bytes : List ℕ) (e : IndexEntry) (rest : List ℕ)
      → decode bytes ≡ ok (e, rest)
      → length rest < length bytes
      → decode_index (suc fuel) bytes ≡ (decode_index fuel rest >>= λ entries. ok (e ∷ entries))
  unfolding decode_index
  decode_index_step fuel [] e rest d h = absurd (omega arith)
  decode_index_step fuel (b ∷ bytes) e rest d h = rw d

  -- With a round for each byte, the reader loads from an encoded index just the entries that the
  -- writer stored, where their lengths, offsets and sizes fit the file format.
  pub decode_index-encode_index :
      (fuel : ℕ) (entries : List IndexEntry)
      → All IsStorable entries
      → length (encode_index entries) ≤ fuel
      → decode_index fuel (encode_index entries) ≡ ok entries
  unfolding encode_index
  decode_index-encode_index fuel [] s h = unfold decode_index in refl
  decode_index-encode_index zero (e ∷ entries) s h =
      absurd (omega (arith, length-append (encode e) (encode_index entries), length-encode e))
  decode_index-encode_index (suc fuel) (e ∷ entries) (s, ss) h =
      let n1 : length (encode e ++ encode_index entries)
          ≡ length (encode e) + length (encode_index entries) =
        length-append (encode e) (encode_index entries) in
      let n2 = length-encode e in
      rw (
        decode_index_step fuel (encode e ++ encode_index entries) e (encode_index entries)
            (decode-encode e (encode_index entries) s) (omega arith),
        decode_index-encode_index fuel entries ss (omega arith),
      )

  -- With a round for each byte, loading the index from any bytes ends with a list of entries or
  -- with a format error, and never panics.
  pub decode_index_total :
      (fuel : ℕ) (bytes : List ℕ)
      → length bytes ≤ fuel
      → (decode_index fuel bytes ≡ err invalid_format)
        ⊎ ((entries : List IndexEntry) × (decode_index fuel bytes ≡ ok entries))
  decode_index_total fuel [] h = inr ([], unfold decode_index in refl)
  decode_index_total zero (b ∷ bytes) h = absurd (omega arith)
  decode_index_total (suc fuel) (b ∷ bytes) h = elim (decode_total (b ∷ bytes)) [
    | inl bad ↦ inl (unfold decode_index in rw bad)
    | inr (e, rest, good, shorter) ↦ elim (decode_index_total fuel rest (omega arith)) [
      | inl bad ↦ inl (rw (decode_index_step fuel (b ∷ bytes) e rest good (omega arith), bad))
      | inr (entries, rest_good) ↦ inr (
        e ∷ entries,
        rw (decode_index_step fuel (b ∷ bytes) e rest good (omega arith), rest_good),
      )
    ]
  ]
