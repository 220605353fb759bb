-- ===== src/Sstable/Block/Corruption.antt =====
-- `decode_block` on any bytes: which outcomes there are, the order of what it returns, and that its
-- loop ends.
use cityhall.Base.{ℕ, zero, suc, ◌+◌, ◌-◌, ◌%◌, ◌^◌, ◌≤◌, ◌<◌, ◌≡◌, ◌⊎◌, inl, inr, refl, ap, ◌∙◌}
use cityhall.Base.{arith, List, [], ◌∷◌, ◌++◌, length, take, drop, length-drop, ltb, ltb→le, lt→ltb}
use cityhall.Base.{false, not, ◌&&◌, Bool-cases, Ordering, if◌then◌else◌, subst, length-append}
use cityhall.Types.{Entry, Result, ok, err, panic, corrupted_data, ◌>>=◌, >>=-eq-ok}
use cityhall.Types.Bytes.{Buf, get_le}
use cityhall.Types.Keys.{compare_keys, compare_keys-flip, Ordering-cases, key_le}
use cityhall.Sstable.Varint.{encode_varint, read_varint}
use cityhall.Sstable.Varint.RoundTrip.{
  read_varint-encode_varint, encode_varint_pos, decode_varint_loop_total,
}
use cityhall.Sstable.Block.{
  is_empty_list, capacity_overflows, decode_entry, decode_entries, decode_block,
}

-- The key is above the previous one, unless that is empty.
abbrev pub IsAbove : List ℕ → Entry → Type 0
IsAbove previous e = (previous ≡ []) ⊎ (compare_keys previous e.key ≡ Ordering.lt)

read_varint_total :
    (bytes : List ℕ)
    → (read_varint bytes ≡ err corrupted_data)
      ⊎ ((v : ℕ) × (rest : List ℕ) × (read_varint bytes ≡ ok (v, rest))
          × (length rest < length bytes))
unfolding read_varint
read_varint_total bytes = decode_varint_loop_total corrupted_data bytes 0 0

IsAbove-of_check :
    (previous : List ℕ) (e : Entry)
    → (not (is_empty_list previous) && key_le e.key previous) ≡ false
    → IsAbove previous e
IsAbove-of_check [] e h = inl refl
IsAbove-of_check (x ∷ previous) e h = elim (Ordering-cases (compare_keys (x ∷ previous) e.key)) [
  | inl less ↦ inr less
  | inr (inl same) ↦ cc (compare_keys-flip (x ∷ previous) e.key, same, h)
  | inr (inr more) ↦ cc (compare_keys-flip (x ∷ previous) e.key, more, h)
]

-- The outcomes of one round.
abbrev Outcome : List ℕ → List ℕ → Result (Entry × List ℕ) → Type 0
Outcome previous bytes r =
    (r ≡ err corrupted_data)
    ⊎ ((r ≡ panic)
        ⊎ ((e : Entry) × (rest : List ℕ) × (r ≡ ok (e, rest))
            × (length rest < length bytes)
            × IsAbove previous e))

module _ ⦃buf : Buf⦄ where
  -- The round behind its three lengths.
  entry_body : List ℕ → ℕ → ℕ → ℕ → List ℕ → Result (Entry × List ℕ)
  entry_body previous_key shared_len unshared_len value_len cursor =
      if ltb (length previous_key) shared_len
      then err corrupted_data
      else if capacity_overflows shared_len unshared_len
      then panic
      else if ltb (length cursor) unshared_len
      then err corrupted_data
      else let c = drop unshared_len cursor in
        if ltb (length c) value_len
        then err corrupted_data
        else if ltb (length (drop value_len c)) 8
        then err corrupted_data
        else do
          (timestamp, rest) ← get_le 8 (drop value_len c)
          let key = take shared_len previous_key ++ take unshared_len cursor
          if not (is_empty_list previous_key) && key_le key previous_key
              then err corrupted_data
              else ok (record { key = key; value = take value_len c; timestamp = timestamp }, rest)

  entry_body_total :
      (previous : List ℕ) (s u v : ℕ) (cursor bytes : List ℕ)
      → length cursor < length bytes
      → Outcome previous bytes (entry_body previous s u v cursor)
  unfolding entry_body
  entry_body_total previous s u v cursor bytes h = elim (Bool-cases (ltb (length previous) s)) [
    | inl x1 ↦ inl (rw x1)
    | inr x1 ↦ elim (Bool-cases (capacity_overflows s u)) [
      | inl x2 ↦ inr (inl (rw (x1, x2)))
      | inr x2 ↦ elim (Bool-cases (ltb (length cursor) u)) [
        | inl x3 ↦ inl (rw (x1, x2, x3))
        | inr x3 ↦ elim (Bool-cases (ltb (length (drop u cursor)) v)) [
          | inl x4 ↦ inl (rw (x1, x2, x3, x4))
          | inr x4 ↦ elim (Bool-cases (ltb (length (drop v (drop u cursor))) 8)) [
            | inl x5 ↦ inl (rw (x1, x2, x3, x4, x5))
            | inr x5 ↦
                let c = drop v (drop u cursor) in
                let (t, e) = buf.get_le_enough 8 c (ltb→le (length c) 8 x5) in
                let key = take s previous ++ take u cursor in
                let entry : Entry = record {
                  key = key;
                  value = take v (drop u cursor);
                  timestamp = t;
                } in
                let n1 = length-drop 8 c in
                let n2 = length-drop v (drop u cursor) in
                let n3 = length-drop u cursor in
                elim (Bool-cases (not (is_empty_list previous) && key_le key previous)) [
                  | inl x6 ↦ inl (rw (x1, x2, x3, x4, x5, e, x6))
                  | inr x6 ↦ inr (
                      inr (
                        entry,
                        drop 8 c,
                        rw (x1, x2, x3, x4, x5, e, x6),
                        omega arith,
                        IsAbove-of_check previous entry x6,
                      ))
                ]
          ]
        ]
      ]
    ]
  ]

  -- One round gives a corruption error, a panic, or an entry whose key is above the previous one.
  decode_entry_total :
      (previous bytes : List ℕ) → Outcome previous bytes (decode_entry previous bytes)
  unfolding decode_entry entry_body
  decode_entry_total previous bytes = elim (read_varint_total bytes) [
    | inl x1 ↦ inl (rw x1)
    | inr (s, c1, e1, h1) ↦ elim (read_varint_total c1) [
      | inl x2 ↦ inl (rw (e1, x2))
      | inr (u, c2, e2, h2) ↦ elim (read_varint_total c2) [
        | inl x3 ↦ inl (rw (e1, e2, x3))
        | inr (v, c3, e3, h3) ↦
            rw (e1, e2, e3) (entry_body_total previous s u v c3 bytes (omega arith))
      ]
    ]
  ]

  -- The rounds that the loop gets do not change its result, once there is one for each byte.
  pub decode_entries_fuel :
      (f g : ℕ) (previous bytes : List ℕ)
      → length bytes ≤ f
      → length bytes ≤ g
      → decode_entries f previous bytes ≡ decode_entries g previous bytes
  unfolding decode_entries
  decode_entries_fuel f g previous [] hf hg = refl
  decode_entries_fuel zero g previous (b ∷ bytes) hf hg = absurd (omega arith)
  decode_entries_fuel (suc f) zero previous (b ∷ bytes) hf hg = absurd (omega arith)
  decode_entries_fuel (suc f) (suc g) previous (b ∷ bytes) hf hg =
      elim (decode_entry_total previous (b ∷ bytes)) [
        | inl bad ↦ rw bad
        | inr (inl bad) ↦ rw bad
        | inr (inr (e, rest, good, shorter, above)) ↦
            rw good (rw (decode_entries_fuel f g e.key rest (omega arith) (omega arith)))
      ]

  -- Each key is above the one before it, where that is not empty.
  abbrev pub Chain : List ℕ → List Entry → Type 0
  Chain previous [] = Unit
  Chain previous (e ∷ entries) = IsAbove previous e × Chain e.key entries

  decode_entries-Chain :
      (fuel : ℕ) (previous bytes : List ℕ) (entries : List Entry)
      → decode_entries fuel previous bytes ≡ ok entries
      → Chain previous entries
  unfolding decode_entries
  decode_entries-Chain fuel previous bytes [] h = tt
  decode_entries-Chain fuel previous [] (e ∷ entries) h = cc
  decode_entries-Chain zero previous (b ∷ bytes) (e ∷ entries) h = cc
  decode_entries-Chain (suc fuel) previous (b ∷ bytes) (e ∷ entries) h =
      let ((x, rest), h1, h2) = >>=-eq-ok (decode_entry previous (b ∷ bytes)) _ h in
      let (tail, h3, h4) = >>=-eq-ok (decode_entries fuel x.key rest) _ h2 in
      let same : (x ≡ e) × (tail ≡ entries) = ground arith in
      elim (decode_entry_total previous (b ∷ bytes)) [
        | inl bad ↦ cc
        | inr (inl bad) ↦ cc
        | inr (inr (y, rest', good, shorter, above)) ↦
            let same' : y ≡ e = ground arith in
            (
              subst (λ z. IsAbove previous z) same' above,
              decode_entries-Chain fuel e.key rest entries (
                  subst (λ z. decode_entries fuel z.key rest ≡ ok entries) same.0
                    (h3 ∙ ap ok same.1)),
            )
      ]

  -- Whatever bytes a block decodes from, the keys of the entries that come out are strictly
  -- ascending, except that any key may follow an empty one.
  pub decode_block-Chain :
      (bytes : List ℕ) (entries : List Entry) → decode_block bytes ≡ ok entries → Chain [] entries
  unfolding decode_block
  decode_block-Chain bytes entries h = decode_entries-Chain (length bytes) [] bytes entries h

  decode_entry_panics :
      (unshared value_len : ℕ) (rest : List ℕ)
      → 2 ^ 63 ≤ unshared
      → unshared < 2 ^ 64
      → value_len < 2 ^ 64
      → decode_entry []
          (encode_varint 0 ++ (encode_varint unshared ++ (encode_varint value_len ++ rest)))
        ≡ panic
  unfolding decode_entry
  decode_entry_panics unshared value_len rest lo hi hv = rw (
    read_varint-encode_varint 0 _ (omega arith),
    read_varint-encode_varint unshared _ hi,
    read_varint-encode_varint value_len _ hv,
    lt→ltb (2 ^ 63 - 1) ((0 + unshared) % 2 ^ 64) (omega arith),
  )

  panic_passes :
      (fuel : ℕ) (previous bytes : List ℕ)
      → decode_entry previous bytes ≡ panic
      → 0 < length bytes
      → length bytes ≤ fuel
      → decode_entries fuel previous bytes ≡ panic
  unfolding decode_entries
  panic_passes fuel previous [] e h k = absurd (omega arith)
  panic_passes zero previous (b ∷ bytes) e h k = refl
  panic_passes (suc fuel) previous (b ∷ bytes) e h k = rw e

  -- A block whose first entry claims 2^63 or more bytes of key makes the reader panic: the length
  -- is used for an allocation before it is compared with the bytes that are left.
  pub decode_block_panics :
      (unshared value_len : ℕ) (rest : List ℕ)
      → 2 ^ 63 ≤ unshared
      → unshared < 2 ^ 64
      → value_len < 2 ^ 64
      → decode_block
          (encode_varint 0 ++ (encode_varint unshared ++ (encode_varint value_len ++ rest)))
        ≡ panic
  unfolding decode_block
  decode_block_panics unshared value_len rest lo hi hv =
      let more = encode_varint unshared ++ (encode_varint value_len ++ rest) in
      let n1 : length (encode_varint 0 ++ more) ≡ length (encode_varint 0) + length more =
        length-append (encode_varint 0) more in
      panic_passes (length (encode_varint 0 ++ more)) [] (encode_varint 0 ++ more)
        (decode_entry_panics unshared value_len rest lo hi hv) (omega (arith, encode_varint_pos 0))
        (omega arith)
