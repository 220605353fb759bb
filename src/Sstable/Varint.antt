-- ===== src/Sstable/Varint.antt =====
-- The variable-length integers of src/sstable/block.rs and src/sstable/reader.rs.
pub mod RoundTrip
pub mod Size
use Prim.Native.Nat.{bit_and, bit_or}
use mathlib.Core.Logic.{dite}
use mathlib.Core.WellFounded.{Acc}
use native.Mathlib.Decide.{dec_le}
use cityhall.Base.{ℕ, ◌+◌, ◌*◌, ◌/◌, ◌%◌, ◌^◌, ◌≤◌, ◌<◌, List, [], ◌∷◌, leb, ◌==◌, if◌then◌else◌}
use cityhall.Base.{arith}
use cityhall.Base.WellFounded.{lt_wf}
use cityhall.Types.{StorageError, Result, ok, err, invalid_format, corrupted_data}

pub shift_shrinks : (value : ℕ) → 128 ≤ value → value / 128 < value
shift_shrinks value h = omega arith

-- `while value >= 0x80`; `value as u8` is `value % 256` and `value >>= 7` is `value / 128`.
encode_varint_loop : (value : ℕ) → Acc ◌<◌ value → List ℕ
encode_varint_loop value (Acc.intro _ smaller) =
    dite (dec_le 128 value)
      (λ more.
        bit_or (value % 256) 0x80
        ∷ encode_varint_loop (value / 128) (smaller _ (shift_shrinks value more)))
      (λ _. (value % 256) ∷ [])

-- The bytes that `encode_varint` appends to its buffer.
unfoldable pub encode_varint : ℕ → List ℕ
unfolding encode_varint_loop lt_wf dec_le
encode_varint value = encode_varint_loop value (lt_wf.apply value)

-- `value |= ((byte & 0x7F) as usize) << shift` on 64 bits.
abbrev pub add_group : ℕ → ℕ → ℕ → ℕ
add_group value byte shift = bit_or value (bit_and byte 0x7f * 2 ^ shift % 2 ^ 64)

-- The loop of both decoders, which differ in the error that they return.
pub decode_varint_loop : StorageError → List ℕ → ℕ → ℕ → Result (ℕ × List ℕ)
decode_varint_loop e [] value shift = err e
decode_varint_loop e (byte ∷ bytes) value shift =
    let value' = add_group value byte shift in
    let more = decode_varint_loop e bytes value' (shift + 7) in
    if bit_and byte 0x80 == 0
    then ok (value', bytes)
    else if leb 64 (shift + 7)
    then err e
    else more

-- `block::decode_varint`.
unfoldable pub decode_varint : List ℕ → Result (ℕ × List ℕ)
unfolding decode_varint_loop
decode_varint bytes = decode_varint_loop invalid_format bytes 0 0

-- `SsTableReader::decode_varint`.
unfoldable pub read_varint : List ℕ → Result (ℕ × List ℕ)
unfolding decode_varint_loop
read_varint bytes = decode_varint_loop corrupted_data bytes 0 0
