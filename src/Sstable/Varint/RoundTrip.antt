-- ===== src/Sstable/Varint/RoundTrip.antt =====
-- A 64-bit integer is read back from its encoding, and decoding any bytes gives a number or an error.
use Prim.Native.Nat.{bit_and, bit_or}
use mathlib.Core.WellFounded.{Acc}
use mathlib.Core.Logic.{dif_pos, dif_neg}
use native.Mathlib.Bridge.{le_prop}
use native.Mathlib.Decide.{dec_le, dec_lt}
use native.Mathlib.Nat.{pow-le-pow_right, div-add-mod}
use native.Mathlib.Numerals.{towards_suc}
use cityhall.Base.{
  ℕ, ◌+◌, ◌*◌, ◌/◌, ◌%◌, ◌^◌, ◌≤◌, ◌<◌, ◌≡◌, ◌⊎◌, inl, inr, refl, ap, ◌∙◌, ◌==◌, leb, Bool-cases,
}
use cityhall.Base.{List, [], ◌∷◌, ◌++◌, length, arith}
use cityhall.Base.Bits.{bit_and_low, bit_and_top, bit_or_top, bit_or_high}
use cityhall.Base.WellFounded.{lt_wf}
use cityhall.Types.{StorageError, ok, err, invalid_format, corrupted_data}
use cityhall.Sstable.Varint.{
  shift_shrinks, encode_varint_loop, encode_varint, add_group, decode_varint_loop, decode_varint,
  read_varint,
}

shift_seven : (s : ℕ) → 2 ^ (s + 7) ≡ 128 * 2 ^ s
shift_seven s = simp towards_suc (omega arith)

-- The lowest group of `v` and the rest, both shifted by `s`.
split_group : (v s : ℕ) → v * 2 ^ s ≡ v % 128 * 2 ^ s + v / 128 * 2 ^ (s + 7)
split_group v s = omega (
  arith,
  ap (λ (t : ℕ). t * 2 ^ s) (div-add-mod v 128),
  ap (λ (t : ℕ). v / 128 * t) (shift_seven s),
)

-- A group within 64 bits joins the bits below it.
add_group_lem :
    (value byte shift : ℕ)
    → byte < 256
    → value < 2 ^ shift
    → byte % 128 * 2 ^ shift < 2 ^ 64
    → add_group value byte shift ≡ value + byte % 128 * 2 ^ shift
add_group_lem value byte shift hb hv fits = rw (bit_and_low byte hb) (
    omega (
      arith,
      bit_or_high shift value (byte % 128) hv,
      ap (λ (t : ℕ). bit_or value t) (small (byte % 128 * 2 ^ shift) fits),
    ))
  where
    small : (x : ℕ) → x < 2 ^ 64 → x % 2 ^ 64 ≡ x
    small x h = omega arith

last_byte :
    (e : StorageError) (w value shift : ℕ) (rest : List ℕ)
    → w < 128
    → value < 2 ^ shift
    → w * 2 ^ shift < 2 ^ 64
    → decode_varint_loop e (w ∷ rest) value shift ≡ ok (value + w * 2 ^ shift, rest)
unfolding decode_varint_loop
last_byte e w value shift rest hw hv fits =
    let k : w % 128 ≡ w = omega arith in
    ground (arith, bit_and_top w, add_group_lem value w shift (omega arith) hv (rw k fits))

inner_byte :
    (e : StorageError) (b value shift : ℕ) (rest : List ℕ)
    → b < 256
    → 128 ≤ b
    → value < 2 ^ shift
    → b % 128 * 2 ^ shift < 2 ^ 64
    → shift + 7 < 64
    → decode_varint_loop e (b ∷ rest) value shift
      ≡ decode_varint_loop e rest (value + b % 128 * 2 ^ shift) (shift + 7)
unfolding decode_varint_loop
inner_byte e b value shift rest hb top hv fits hs =
    ground (arith, bit_and_top b, add_group_lem value b shift hb hv fits)

scale : (a b c : ℕ) → a ≤ b → a * c ≤ b * c
scale a b c h = grind arith

-- A value of eight bits or more that fits at `shift` leaves room for another group.
room_for_group : (v shift : ℕ) → 128 ≤ v → v * 2 ^ shift < 2 ^ 64 → shift + 7 < 64
room_for_group v shift h fits = elim (dec_lt (shift + 7) 64) [
  | yes p ↦ p
  | no p ↦
      let wide : 2 ^ 64 ≤ 2 ^ (shift + 7) =
        pow-le-pow_right (omega arith) {i = 64} {j = shift + 7} (omega arith) in
      let more : 128 * 2 ^ shift ≤ v * 2 ^ shift = scale 128 v (2 ^ shift) h in
      absurd (omega (arith, shift_seven shift))
]

decode-encode_loop :
    (e : StorageError) (v value shift : ℕ) (w : Acc ◌<◌ v) (rest : List ℕ)
    → value < 2 ^ shift
    → v * 2 ^ shift < 2 ^ 64
    → decode_varint_loop e (encode_varint_loop v w ++ rest) value shift
      ≡ ok (value + v * 2 ^ shift, rest)
unfolding encode_varint_loop
decode-encode_loop e v value shift (Acc.intro _ smaller) rest hv fits = elim (dec_le 128 v) [
  | yes p ↦
      let b = bit_or (v % 256) 0x80 in
      let hs : shift + 7 < 64 = room_for_group v shift p fits in
      let eb : b ≡ v % 128 + 128 = omega (arith, bit_or_top (v % 256) (omega arith)) in
      let em : b % 128 ≡ v % 128 = omega arith in
      let group = v % 128 * 2 ^ shift in
      let parts = split_group v shift in
      let seven = shift_seven shift in
      let below : group ≤ 127 * 2 ^ shift = scale (v % 128) 127 (2 ^ shift) (omega arith) in
      rw
        (
          dif_pos (dec_le 128 v) le_prop p,
          inner_byte e b value shift
              (encode_varint_loop (v / 128) (smaller (v / 128) (shift_shrinks v p)) ++ rest)
              (omega arith) (omega arith) hv (rw em (omega arith)) hs,
          em,
          decode-encode_loop e (v / 128) (value + group) (shift + 7)
              (smaller (v / 128) (shift_shrinks v p)) rest (omega arith) (omega arith),
        )
        (ap (λ (t : ℕ). ok (t, rest)) (omega arith))
  | no p ↦
      let k : v % 256 ≡ v = omega arith in
      rw (dif_neg (dec_le 128 v) p, k, last_byte e v value shift rest (omega arith) hv fits)
]

decode-encode :
    (e : StorageError) (v : ℕ) (rest : List ℕ)
    → v < 2 ^ 64
    → decode_varint_loop e (encode_varint v ++ rest) 0 0 ≡ ok (v, rest)
unfolding encode_varint
decode-encode e v rest h =
    decode-encode_loop e v 0 0 (lt_wf.apply v) rest (omega arith) (omega arith)
    ∙ ap (λ (t : ℕ). ok (t, rest)) (omega arith)

-- A number below 2^64 that was written as a varint is read back by both decoders, which stop just
-- behind it.
pub decode_varint-encode_varint :
    (v : ℕ) (rest : List ℕ)
    → v < 2 ^ 64
    → (decode_varint (encode_varint v ++ rest) ≡ ok (v, rest))
      × (read_varint (encode_varint v ++ rest) ≡ ok (v, rest))
unfolding decode_varint read_varint
decode_varint-encode_varint v rest h =
    (decode-encode invalid_format v rest h, decode-encode corrupted_data v rest h)

pub read_varint-encode_varint :
    (v : ℕ) (rest : List ℕ) → v < 2 ^ 64 → read_varint (encode_varint v ++ rest) ≡ ok (v, rest)
read_varint-encode_varint v rest h = (decode_varint-encode_varint v rest h).1

-- The encoding is not empty.
pub encode_varint_pos : (v : ℕ) → 0 < length (encode_varint v)
unfolding encode_varint
encode_varint_pos v = loop_pos v (lt_wf.apply v)
  where
    loop_pos : (v : ℕ) (w : Acc ◌<◌ v) → 0 < length (encode_varint_loop v w)
    loop_pos v (Acc.intro _ smaller) = grind arith

-- On any bytes the loop ends with the decoder's error, or with a number after a byte or more: it
-- takes what it read and nothing else.
pub decode_varint_loop_total :
    (e : StorageError) (bytes : List ℕ) (value shift : ℕ)
    → (decode_varint_loop e bytes value shift ≡ err e)
      ⊎ ((v : ℕ) × (rest : List ℕ) × (decode_varint_loop e bytes value shift ≡ ok (v, rest))
          × (length rest < length bytes))
unfolding decode_varint_loop
decode_varint_loop_total e [] value shift = inl refl
decode_varint_loop_total e (byte ∷ bytes) value shift =
    let value' = add_group value byte shift in
    elim (Bool-cases (bit_and byte 0x80 == 0)) [
      | inl last ↦ inr (value', bytes, rw last, omega arith)
      | inr inner ↦ elim (Bool-cases (leb 64 (shift + 7))) [
        | inl wide ↦ inl (rw (inner, wide))
        | inr narrow ↦ elim (decode_varint_loop_total e bytes value' (shift + 7)) [
          | inl bad ↦ inl (rw (inner, narrow, bad))
          | inr (v, rest, good, shorter) ↦ inr (v, rest, rw (inner, narrow, good), omega arith)
        ]
      ]
    ]
