-- ===== src/Sstable/Block/RoundTrip.antt =====
-- A block that was built from ascending keys decodes to the entries that were added.
use cityhall.Base.{ℕ, zero, suc, ◌+◌, ◌-◌, ◌%◌, ◌^◌, ◌≤◌, ◌<◌, ◌≡◌, ◌⊎◌, inl, inr, refl, sym, ◌∙◌}
use cityhall.Base.{
  arith, List, [], ◌∷◌, ◌++◌, append_assoc, append-nil, length, length-append, drop,
}
use cityhall.Base.{length-drop, take-append, drop-append, le→ltb, false, not, ◌&&◌}
use cityhall.Base.{Ordering, All}
use cityhall.Types.{Entry, ok, ◌>>=◌}
use cityhall.Types.Entries.{AscendingFrom, IsAscending}
use cityhall.Types.Bytes.{Buf, put_le}
use cityhall.Types.Keys.{compare_keys, compare_keys-flip, key_le}
use cityhall.Sstable.Varint.{encode_varint}
use cityhall.Sstable.Varint.RoundTrip.{read_varint-encode_varint, encode_varint_pos}
use cityhall.Sstable.Block.{
  BlockBuilder, new, add, common_prefix_len, is_empty_list, encode_entry, decode_entry,
  decode_entries, decode_block,
}
use cityhall.Sstable.Block.Prefix.{common_prefix_len-IsCommonPrefix, prefix_rest}

-- The lengths and the timestamp are in the range of the machine.
pub record IsEncodable (e : Entry) : Type 0 where
  pub key_fits : length e.key < 2 ^ 63
  pub value_fits : length e.value < 2 ^ 64
  pub timestamp_fits : e.timestamp < 2 ^ 64

-- The reader's test on the order of keys passes.
abbrev Follows : List ℕ → Entry → Type 0
Follows previous e = (previous ≡ []) ⊎ (compare_keys previous e.key ≡ Ordering.lt)

order_check :
    (previous : List ℕ) (e : Entry)
    → Follows previous e
    → (not (is_empty_list previous) && key_le e.key previous) ≡ false
order_check [] e h = refl
order_check (x ∷ previous) e (inl h) = cc
order_check (x ∷ previous) e (inr h) = rw (compare_keys-flip (x ∷ previous) e.key, h)

module _ ⦃buf : Buf⦄ where
  tail_of : ℕ → Entry → List ℕ → List ℕ
  tail_of shared e rest = drop shared e.key ++ (e.value ++ (put_le 8 e.timestamp ++ rest))

  layout :
      (previous : List ℕ) (e : Entry) (rest : List ℕ)
      → encode_entry previous e ++ rest
        ≡ encode_varint (common_prefix_len previous e.key)
          ++ (encode_varint (length e.key - common_prefix_len previous e.key)
              ++ (encode_varint (length e.value)
                  ++ (drop (common_prefix_len previous e.key) e.key
                      ++ (e.value ++ (put_le 8 e.timestamp ++ rest)))))
  unfolding encode_entry
  layout previous e rest = simp append_assoc

  -- One entry, behind the key that it was encoded against.
  pub decode_entry-encode_entry :
      (previous : List ℕ) (e : Entry) (rest : List ℕ)
      → Follows previous e
      → IsEncodable e
      → decode_entry previous (encode_entry previous e ++ rest) ≡ ok (e, rest)
  unfolding decode_entry
  decode_entry-encode_entry previous e rest follows fits =
      let shared = common_prefix_len previous e.key in
      let common = common_prefix_len-IsCommonPrefix previous e.key in
      let unshared = length e.key - shared in
      let delta = drop shared e.key in
      let n1 : length delta ≡ unshared = length-drop shared e.key in
      let behind_value = put_le 8 e.timestamp ++ rest in
      let behind_key = e.value ++ behind_value in
      let n2 : length (delta ++ behind_key) ≡ length delta + length behind_key =
        length-append delta behind_key in
      let n3 : length behind_key ≡ length e.value + length behind_value =
        length-append e.value behind_value in
      let n4 : length behind_value ≡ 8 + length rest =
        length-append (put_le 8 e.timestamp) rest ∙ rw (buf.length-put_le 8 e.timestamp) in
      let c1 = common.within_left in
      let c2 = common.within_right in
      let f1 = fits.key_fits in
      rw (
        layout previous e rest,
        read_varint-encode_varint shared _ (omega arith),
        read_varint-encode_varint unshared _ (omega arith),
        read_varint-encode_varint (length e.value) _ fits.value_fits,
        le→ltb (length previous) shared c1,
        le→ltb (2 ^ 63 - 1) ((shared + unshared) % 2 ^ 64) (omega arith),
        ← n1,
        le→ltb (length (delta ++ behind_key)) (length delta) (omega arith),
        drop-append delta behind_key,
        take-append delta behind_key,
        le→ltb (length behind_key) (length e.value) (omega arith),
        drop-append e.value behind_value,
        take-append e.value behind_value,
        le→ltb (length behind_value) 8 (omega arith),
        buf.get_le-put_le 8 e.timestamp rest fits.timestamp_fits,
        prefix_rest previous e.key,
        order_check previous e follows,
      )

  -- What a builder's buffer gains when all entries are added.
  unfoldable pub encode_entries : List ℕ → List Entry → List ℕ
  encode_entries previous [] = []
  encode_entries previous (e ∷ entries) = encode_entry previous e ++ encode_entries e.key entries

  unfoldable pub add_all : BlockBuilder → List Entry → BlockBuilder
  add_all b [] = b
  add_all b (e ∷ entries) = add_all (add b e) entries

  pub buffer-add_all :
      (b : BlockBuilder) (entries : List Entry)
      → (add_all b entries).buffer ≡ b.buffer ++ encode_entries b.last_key entries
  unfolding add_all encode_entries
  buffer-add_all b [] = sym (append-nil b.buffer)
  buffer-add_all b (e ∷ entries) =
      buffer-add_all (add b e) entries
      ∙ unfold add in
        append_assoc b.buffer (encode_entry b.last_key e) (encode_entries e.key entries)

  encode_entry_pos : (previous : List ℕ) (e : Entry) → 0 < length (encode_entry previous e)
  unfolding encode_entry
  encode_entry_pos previous e =
      let shared = common_prefix_len previous e.key in
      omega (
        arith,
        encode_varint_pos shared,
        length-append (encode_varint shared) (
            encode_varint (length e.key - shared)
            ++ (encode_varint (length e.value)
                ++ (drop shared e.key ++ (e.value ++ put_le 8 e.timestamp)))),
      )

  decode_entries_step :
      (fuel : ℕ) (previous bytes : List ℕ) (e : Entry) (rest : List ℕ)
      → decode_entry previous bytes ≡ ok (e, rest)
      → 0 < length bytes
      → decode_entries (suc fuel) previous bytes
        ≡ (decode_entries fuel e.key rest >>= λ entries. ok (e ∷ entries))
  unfolding decode_entries
  decode_entries_step fuel previous [] e rest d h = absurd (omega arith)
  decode_entries_step fuel previous (b ∷ bytes) e rest d h = rw d

  decode_entries-encode_entries :
      (fuel : ℕ) (previous : List ℕ) (e : Entry) (entries : List Entry)
      → Follows previous e
      → AscendingFrom e.key entries
      → IsEncodable e
      → All IsEncodable entries
      → length (encode_entries previous (e ∷ entries)) ≤ suc fuel
      → decode_entries (suc fuel) previous (encode_entries previous (e ∷ entries))
        ≡ ok (e ∷ entries)
  unfolding encode_entries
  decode_entries-encode_entries fuel previous e [] follows asc fits all h =
      rw
        (decode_entries_step fuel previous (encode_entry previous e ++ []) e []
          (decode_entry-encode_entry previous e [] follows fits)
          (rw (append-nil (encode_entry previous e)) (encode_entry_pos previous e)))
        (unfold decode_entries in refl)
  decode_entries-encode_entries zero previous e (e' ∷ entries) follows asc fits all h = absurd (
      omega (
        arith,
        length-append (encode_entry previous e) (encode_entries e.key (e' ∷ entries)),
        length-append (encode_entry e.key e') (encode_entries e'.key entries),
        encode_entry_pos previous e,
        encode_entry_pos e.key e',
      ))
  decode_entries-encode_entries (suc fuel) previous e (e' ∷ entries) follows asc fits all h =
      let rest = encode_entries e.key (e' ∷ entries) in
      let n1 : length (encode_entry previous e ++ rest)
          ≡ length (encode_entry previous e) + length rest =
        length-append (encode_entry previous e) rest in
      let n2 = encode_entry_pos previous e in
      rw (
        decode_entries_step (suc fuel) previous (encode_entry previous e ++ rest) e rest
            (decode_entry-encode_entry previous e rest follows fits) (omega arith),
        decode_entries-encode_entries fuel e.key e' entries (inr asc.0) asc.1 all.0 all.1
            (omega arith),
      )

  -- Entries with strictly ascending keys and lengths and timestamps in the range of the machine,
  -- added to a new block builder, are what the reader decodes from the buffer of the builder.
  pub decode_block-add_all :
      (entries : List Entry)
      → IsAscending entries
      → All IsEncodable entries
      → decode_block (add_all new entries).buffer ≡ ok entries
  unfolding decode_block
  decode_block-add_all [] asc fits = unfold decode_entries add_all in refl
  decode_block-add_all (e ∷ entries) asc fits =
      let n1 = length-append (encode_entry [] e) (encode_entries e.key entries) in
      let n2 = encode_entry_pos [] e in
      let whole = encode_entries [] (e ∷ entries) in
      let pos : 0 < length whole = unfold encode_entries in omega arith in
      let n3 : length whole ≡ suc (length whole - 1) = omega arith in
      rw (buffer-add_all, n3)
        (decode_entries-encode_entries (length whole - 1) [] e entries (inl refl) asc fits.0 fits.1
          (omega arith))
