-- ===== src/Wal/Record/RoundTrip.antt =====
-- A record that was written is read back; which entries can be written; what recovery returns for a
-- run of records, for one that is cut short and for one that was damaged.
use cityhall.Base.{ℕ, ◌+◌, ◌^◌, ◌≤◌, ◌<◌, ◌≡◌, inl, inr, refl, sym, ap}
use cityhall.Base.{arith, List, [], ◌∷◌, ◌++◌, append_assoc, length, length-append, take}
use cityhall.Base.{take-append, drop-append, ltb, le→ltb, lt→ltb, Bool-cases, ==_iff}
use cityhall.Base.{some, not, ◌==◌, if◌then◌else◌, All}
use cityhall.Types.{Entry, OpType, as_u8, from_u8-as_u8, ok, err, invalid_format, corruption}
use cityhall.Types.Bytes.{Buf, put_le, u16_max, u32_max}
use cityhall.Wal.Record.{Crc32, record_checksum, payload, encode_record, read_payload, read_record}

-- What fits a record: the payload has 14 bytes beside the key and the value.
pub record IsLoggable (e : Entry) : Type 0 where
  pub sizes : length e.key + length e.value + 14 < 2 ^ 16
  pub timestamp_fits : e.timestamp < 2 ^ 64

module _ ⦃buf : Buf⦄ where
  pub length-payload : (e : Entry) → length (payload e) ≡ length e.key + length e.value + 14
  unfolding payload
  length-payload e = simp (length-append, buf.length-put_le) (omega arith)

  read_payload-payload : (e : Entry) → IsLoggable e → read_payload (payload e) ≡ ok e
  unfolding read_payload payload
  read_payload-payload e fits =
      let s = fits.sizes in
      let behind = put_le 4 (length e.value) ++ e.value in
      let n1 : length (e.key ++ behind) ≡ length e.key + length behind =
        length-append e.key behind in
      rw
        (
          buf.get_le-put_le 8 e.timestamp _ fits.timestamp_fits,
          buf.get_le-put_le 2 (length e.key) _ (omega arith),
          le→ltb (length (e.key ++ behind)) (length e.key) (omega arith),
          drop-append e.key behind,
          take-append e.key behind,
          buf.get_le-put_le 4 (length e.value) e.value (omega arith),
          le→ltb (length e.value) (length e.value) (omega arith),
        )
        (ap (λ v. ok (record { key = e.key; value = v; timestamp = e.timestamp }))
          (take_all e.value))
    where
      take_all : (xs : List ℕ) → take (length xs) xs ≡ xs
      take_all [] = refl
      take_all (x ∷ xs) = ap (λ ys. x ∷ ys) (take_all xs)

module _ ⦃buf : Buf⦄ ⦃crc : Crc32⦄ where
  abbrev pub stored_checksum : OpType → Entry → ℕ
  stored_checksum op e = record_checksum (length (payload e)) (as_u8 op) (payload e)

  -- A record with a given checksum field.
  unfoldable pub framed : ℕ → OpType → Entry → List ℕ
  framed sum op e =
      put_le 4 sum ++ (put_le 2 (length (payload e)) ++ (put_le 1 (as_u8 op) ++ payload e))

  -- The entries that `encode_record` takes are those whose key and value fit 64 KiB together.
  pub encode_record_ok :
      (op : OpType) (e : Entry)
      → length e.key + length e.value + 14 < 2 ^ 16
      → encode_record op e ≡ ok (framed (stored_checksum op e) op e)
  unfolding encode_record framed
  encode_record_ok op e fits =
      let n1 = length-payload e in
      rw (
        le→ltb u16_max (length e.key) (omega arith),
        le→ltb u32_max (length e.value) (omega arith),
        le→ltb u16_max (length (payload e)) (omega arith),
      )

  pub encode_record_too_large :
      (op : OpType) (e : Entry)
      → 2 ^ 16 ≤ length e.key + length e.value + 14
      → encode_record op e ≡ err invalid_format
  unfolding encode_record
  encode_record_too_large op e large =
      let n1 = length-payload e in
      elim (Bool-cases (ltb u16_max (length e.key))) [
        | inl x1 ↦ rw x1
        | inr x1 ↦ elim (Bool-cases (ltb u32_max (length e.value))) [
          | inl x2 ↦ rw (x1, x2)
          | inr x2 ↦ rw (x1, x2, lt→ltb u16_max (length (payload e)) (omega arith))
        ]
      ]

  pub as_u8_fits : (op : OpType) → as_u8 op < 256 ^ 1
  unfolding as_u8
  as_u8_fits OpType.put = omega arith
  as_u8_fits OpType.delete = omega arith

  pub length-framed :
      (sum : ℕ) (op : OpType) (e : Entry) → length (framed sum op e) ≡ 7 + length (payload e)
  unfolding framed
  length-framed sum op e = simp (length-append, buf.length-put_le) (omega arith)

  framed_layout :
      (sum : ℕ) (op : OpType) (e : Entry) (rest : List ℕ)
      → framed sum op e ++ rest
        ≡ put_le 4 sum
          ++ (put_le 2 (length (payload e)) ++ (put_le 1 (as_u8 op) ++ (payload e ++ rest)))
  unfolding framed
  framed_layout sum op e rest = simp append_assoc

  -- What the reader makes of a framed record, by its checksum field.
  pub read_framed :
      (sum : ℕ) (op : OpType) (e : Entry) (rest : List ℕ)
      → sum < 2 ^ 32
      → IsLoggable e
      → read_record (framed sum op e ++ rest)
        ≡ (if not (stored_checksum op e == sum) then err corruption else ok (some (op, e, rest)))
  unfolding read_record
  read_framed sum op e rest hs fits =
      let n1 = length-append (framed sum op e) rest in
      let n2 = length-framed sum op e in
      let n3 = length-payload e in
      let n4 : length (payload e ++ rest) ≡ length (payload e) + length rest =
        length-append (payload e) rest in
      let s = fits.sizes in
      rw (
        le→ltb (length (framed sum op e ++ rest)) 7 (omega arith),
        framed_layout sum op e rest,
        buf.get_le-put_le 4 sum _ hs,
        buf.get_le-put_le 2 (length (payload e)) _ (omega arith),
        buf.get_le-put_le 1 (as_u8 op) _ (as_u8_fits op),
        from_u8-as_u8 op,
        le→ltb (length (payload e ++ rest)) (length (payload e)) (omega arith),
        take-append (payload e) rest,
        drop-append (payload e) rest,
        read_payload-payload e fits,
      )

  -- An operation whose key and value fit a record together and whose timestamp fits 64 bits is
  -- encoded, and read back from the bytes with what follows them left over.
  pub read_record-encode_record :
      (op : OpType) (e : Entry) (rest : List ℕ)
      → IsLoggable e
      → (r : List ℕ) × (encode_record op e ≡ ok r)
        × (read_record (r ++ rest) ≡ ok (some (op, e, rest)))
  read_record-encode_record op e rest fits = (
    framed (stored_checksum op e) op e,
    encode_record_ok op e fits.sizes,
    rw (read_framed (stored_checksum op e) op e rest (crc.checksum_fits _) fits)
        (rw ((==_iff (stored_checksum op e) _).1 refl)),
  )

  -- The bytes that a run of operations leaves in a segment.
  unfoldable pub encode_log : List (OpType × Entry) → List ℕ
  unfolding framed payload
  encode_log [] = []
  encode_log ((op, e) ∷ log) = framed (stored_checksum op e) op e ++ encode_log log

  pub encode_log-append :
      (log more : List (OpType × Entry))
      → encode_log (log ++ more) ≡ encode_log log ++ encode_log more
  unfolding encode_log
  encode_log-append [] more = refl
  encode_log-append ((op, e) ∷ log) more =
      rw (encode_log-append log more)
        (sym (append_assoc (framed (stored_checksum op e) op e) (encode_log log) (encode_log more)))

  abbrev pub entry_of : OpType × Entry → Entry
  entry_of p = p.1

  abbrev pub AllLoggable : List (OpType × Entry) → Type 0
  AllLoggable log = All (λ p. IsLoggable p.1) log

  pub read_written :
      (op : OpType) (e : Entry) (rest : List ℕ)
      → IsLoggable e
      → read_record (framed (stored_checksum op e) op e ++ rest) ≡ ok (some (op, e, rest))
  read_written op e rest fits =
      rw (read_framed (stored_checksum op e) op e rest (crc.checksum_fits _) fits)
        (rw ((==_iff (stored_checksum op e) _).1 refl))
