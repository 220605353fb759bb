-- ===== src/Sstable/Writer/Blocks.antt =====
-- What a table writer has written: the blocks in the file, the index entries that lead to them, and
-- the filter; and that `flush_block` and `add` keep it so.
use cityhall.Base.{ℕ, ◌+◌, ◌*◌, ◌^◌, ◌≤◌, ◌<◌, ◌≡◌, sym, ap, ◌∙◌, arith, List, [], ◌∷◌, ◌++◌}
use cityhall.Base.{append_assoc, append-nil, length, length-append, All}
use cityhall.Types.{Entry}
use cityhall.Types.Bytes.{Buf}
use cityhall.Sstable.Header.{header_size, magic_number}
use cityhall.Sstable.Header.RoundTrip.{IsInRange}
use cityhall.Sstable.Index
use cityhall.Sstable.Index.{IndexEntry, encode_index}
use cityhall.Sstable.Index.RoundTrip
use cityhall.Sstable.Index.RoundTrip.{length-encode}
use cityhall.Sstable.Snappy.{Snappy}
use cityhall.Sstable.Block
use cityhall.Sstable.Block.RoundTrip.{IsEncodable, add_all}
use cityhall.Sstable.Block.Size.{total_weight}
use cityhall.Sstable.Bloom.{KeyHasher}
use cityhall.Sstable.Bloom.Filled.{HasKeys}
use cityhall.Sstable.Reader.Blocks.{LiesAt-append, concat_blocks, BlockAt, Placed}
use cityhall.Sstable.Writer.{SsTableWriter}

-- What the file format can hold: the index has the length of a key in 16 bits.
pub record IsTableEntry (e : Entry) : Type 0 where
  pub key_fits : length e.key < 2 ^ 16
  pub value_fits : length e.value < 2 ^ 64
  pub timestamp_fits : e.timestamp < 2 ^ 64

pub All-IsEncodable : (entries : List Entry) → All IsTableEntry entries → All IsEncodable entries
All-IsEncodable [] fits = tt
All-IsEncodable (e ∷ entries) (f, fits) = (
  record {
    key_fits = omega (arith, f.key_fits);
    value_fits = f.value_fits;
    timestamp_fits = f.timestamp_fits;
  },
  All-IsEncodable entries fits,
)

pub concat_blocks-append :
    (blocks : List (List Entry)) (b : List Entry)
    → concat_blocks (blocks ++ b ∷ []) ≡ concat_blocks blocks ++ b
concat_blocks-append [] b = append-nil b
concat_blocks-append (c ∷ blocks) b =
    ap (λ es. c ++ es) (concat_blocks-append blocks b)
    ∙ sym (append_assoc c (concat_blocks blocks) b)

pub All-behind : (xs ys : List Entry) → All IsTableEntry (xs ++ ys) → All IsTableEntry ys
All-behind [] ys fits = fits
All-behind (x ∷ xs) ys fits = All-behind xs ys fits.1

pub All-before : (xs ys : List Entry) → All IsTableEntry (xs ++ ys) → All IsTableEntry xs
All-before [] ys fits = tt
All-before (x ∷ xs) ys fits = (fits.0, All-before xs ys fits.1)

module _ ⦃buf : Buf⦄ where
  pub encode_index-append :
      (index : List IndexEntry) (i : IndexEntry)
      → length (encode_index (index ++ i ∷ []))
        ≡ length (encode_index index) + (length i.first_key + 14)
  unfolding encode_index
  encode_index-append [] i = omega (arith, length-append (Index.encode i) [], length-encode i)
  encode_index-append (j ∷ index) i = omega (
    arith,
    length-append (Index.encode j) (encode_index (index ++ i ∷ [])),
    length-append (Index.encode j) (encode_index index),
    encode_index-append index i,
  )

module _ ⦃buf : Buf⦄ ⦃snappy : Snappy⦄ where
  pub Placed-append :
      (body more : List ℕ) (index : List IndexEntry) (blocks : List (List Entry))
      → Placed body index blocks
      → Placed (body ++ more) index blocks
  Placed-append body more [] [] p = tt
  Placed-append body more [] (b ∷ blocks) p = absurd p
  Placed-append body more (i ∷ index) [] p = absurd p
  Placed-append body more (i ∷ index) (b ∷ blocks) (at, p) = (
    record {
      compressed = at.compressed;
      raw = at.raw;
      lies = LiesAt-append at.compressed i.offset body more at.lies;
      sized = at.sized;
      unpacked = at.unpacked;
      decoded = at.decoded;
      first = at.first;
      others = at.others;
      filled = at.filled;
      first_key_at = at.first_key_at;
    },
    Placed-append body more index blocks p,
  )

  pub Placed-snoc :
      (body : List ℕ) (index : List IndexEntry) (blocks : List (List Entry)) (i : IndexEntry)
      (b : List Entry)
      → Placed body index blocks
      → BlockAt body i b
      → Placed body (index ++ i ∷ []) (blocks ++ b ∷ [])
  Placed-snoc body [] [] i b p at = (at, tt)
  Placed-snoc body [] (c ∷ blocks) i b p at = absurd p
  Placed-snoc body (j ∷ index) [] i b p at = absurd p
  Placed-snoc body (j ∷ index) (c ∷ blocks) i b p at =
      (p.0, Placed-snoc body index blocks i b p.1 at)

  -- After `all` entries, `blocks` are in the file and `pending` in the builder.
  pub record Written ⦃hasher : KeyHasher⦄ (w : SsTableWriter) (all : List Entry) : Type 0 where
    pub blocks : List (List Entry)
    pub pending : List Entry
    pub header_bytes : List ℕ
    pub body : List ℕ
    pub file : w.file ≡ header_bytes ++ body
    pub header_length : length header_bytes ≡ header_size
    pub magic : w.header.magic ≡ magic_number
    pub in_range : IsInRange w.header
    pub placed : Placed body w.index_entries blocks
    pub storable : All RoundTrip.IsStorable w.index_entries
    pub index_weight : length (encode_index w.index_entries) ≤ total_weight (concat_blocks blocks)
    pub builder : w.block_builder ≡ add_all Block.new pending
    pub offset : w.offset ≡ header_size + length body
    pub body_weight : length body ≤ 3 * total_weight (concat_blocks blocks)
    pub filter : HasKeys w.bloom_filter all
    pub whole : all ≡ concat_blocks blocks ++ pending
