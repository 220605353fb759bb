-- ===== src/Sstable/Writer/Finish.antt =====
-- A table writer over a whole list of entries, and the parts of the file that it finishes.
use cityhall.Base.{ℕ, ◌+◌, ◌^◌, ◌<◌, ◌≡◌, refl, sym, ap, ◌∙◌, subst, arith, List, [], ◌∷◌, ◌++◌}
use cityhall.Base.{append_assoc, append-nil, length, length-append, drop, drop-append, ◌≢◌}
use cityhall.Types.{Entry, ok}
use cityhall.Types.Bytes.{Buf, length-to_le_bytes}
use cityhall.Sstable.Header
use cityhall.Sstable.Header.{Header, header_size}
use cityhall.Sstable.Header.RoundTrip.{header_length-encode}
use cityhall.Sstable.Footer
use cityhall.Sstable.Footer.{Footer, footer_size}
use cityhall.Sstable.Footer.RoundTrip
use cityhall.Sstable.Footer.RoundTrip.{footer_decode-encode, footer_length-encode}
use cityhall.Sstable.Index.{encode_index}
use cityhall.Sstable.Snappy.{Snappy}
use cityhall.Sstable.Block.RoundTrip.{add_all}
use cityhall.Sstable.Block.Size.{total_weight, total_weight-append}
use cityhall.Sstable.Bloom
use cityhall.Sstable.Bloom.{BloomFilter, KeyHasher, bytes_for}
use cityhall.Sstable.Bloom.Filled.{HasKeys-new}
use cityhall.Sstable.Reader.Blocks.{concat_blocks}
use cityhall.Sstable.Writer.{SsTableWriter, new, overwrite_front, footer_of, finished, add_entries}
use cityhall.Sstable.Writer.Blocks.{Written}
use cityhall.Sstable.Writer.Flush.{IsTable}
use cityhall.Sstable.Writer.Add.{IsTable-before, add-Written}

length-bloom : (f : BloomFilter) → length (Bloom.encode f) ≡ 8 + length f.bits
unfolding Bloom.encode
length-bloom f = simp (length-append, length-to_le_bytes) (omega arith)

module _ ⦃buf : Buf⦄ ⦃snappy : Snappy⦄ ⦃hasher : KeyHasher⦄ where
  pub new-Written :
      (block_size num_bits k : ℕ)
      → 0 < num_bits
      → num_bits < 2 ^ 32
      → k < 2 ^ 32
      → Written (new block_size num_bits k) []
  unfolding new
  new-Written block_size num_bits k pos hb hk = record {
    blocks = [];
    pending = [];
    header_bytes = Header.encode Header.new;
    body = [];
    file = sym (append-nil (Header.encode Header.new));
    header_length = header_length-encode Header.new;
    magic = refl;
    in_range = record {
      version_fits = omega arith;
      num_blocks_fits = omega arith;
      min_fits = omega arith;
      max_fits = omega arith;
    };
    placed = tt;
    storable = tt;
    index_weight = unfold encode_index in omega arith;
    builder = unfold add_all in refl;
    offset = omega arith;
    body_weight = omega arith;
    filter = HasKeys-new num_bits k pos hb hk;
    whole = refl;
  }

  pub add_entries-Written :
      (w : SsTableWriter) (done entries : List Entry)
      → Written w done
      → IsTable (done ++ entries)
      → (w' : SsTableWriter) × (add_entries w entries ≡ ok w') × Written w' (done ++ entries)
  unfolding add_entries
  add_entries-Written w done [] h t = (w, refl, subst (Written w) (sym (append-nil done)) h)
  add_entries-Written w done (e ∷ entries) h t =
      let shift : (done ++ e ∷ []) ++ entries ≡ done ++ e ∷ entries =
        append_assoc done (e ∷ []) entries in
      let t' = subst IsTable (sym shift) t in
      let (w1, added, h1) = add-Written w done e h (IsTable-before (done ++ e ∷ []) entries t') in
      let (w2, rest, h2) = add_entries-Written w1 (done ++ e ∷ []) entries h1 t' in
      (w2, rw added rest, subst (Written w2) shift h2)

  -- The parts of a finished file.
  pub finished_parts :
      (w : SsTableWriter) (all : List Entry) (h : Written w all)
      → finished w
        ≡ Header.encode w.header
          ++ (h.body
              ++ (Bloom.encode w.bloom_filter
                  ++ (encode_index w.index_entries ++ Footer.encode (footer_of w))))
  unfolding finished
  finished_parts w all h =
      let more =
        Bloom.encode w.bloom_filter
        ++ (encode_index w.index_entries ++ Footer.encode (footer_of w)) in
      let whole : w.file ++ more ≡ h.header_bytes ++ (h.body ++ more) =
        ap (λ f. f ++ more) h.file ∙ append_assoc h.header_bytes h.body more in
      let front : length (Header.encode w.header) ≡ length h.header_bytes =
        header_length-encode w.header ∙ sym h.header_length in
      ap (λ f. overwrite_front (Header.encode w.header) f) whole
      ∙ ap (λ n. Header.encode w.header ++ drop n (h.header_bytes ++ (h.body ++ more))) front
      ∙ ap (λ f. Header.encode w.header ++ f) (drop-append h.header_bytes (h.body ++ more))

  -- What a finished writer says of the sizes in its footer.
  pub record Sizes (w : SsTableWriter) (all : List Entry) (h : Written w all) : Type 0 where
    pub index_at :
        (footer_of w).index_offset
        ≡ header_size + (length h.body + length (Bloom.encode w.bloom_filter))
    pub bloom_at : (footer_of w).bloom_offset ≡ header_size + length h.body
    pub index_long : (footer_of w).index_size ≡ length (encode_index w.index_entries)
    pub bloom_long : (footer_of w).bloom_size ≡ length (Bloom.encode w.bloom_filter)
    pub bloom_some : (footer_of w).bloom_size ≢ 0
    pub footer_fits : RoundTrip.IsInRange (footer_of w)

  pub finished-Sizes :
      (w : SsTableWriter) (all : List Entry) (h : Written w all) → IsTable all → Sizes w all h
  unfolding footer_of
  finished-Sizes w all h t =
      let weights : total_weight all
          ≡ total_weight (concat_blocks h.blocks) + total_weight h.pending =
        ap total_weight h.whole ∙ total_weight-append (concat_blocks h.blocks) h.pending in
      let b = length-bloom w.bloom_filter in
      let s = h.filter.storable in
      let sn = s.num_bits_fits in
      let se = s.exact in
      let small = t.small in
      let iw = h.index_weight in
      let bw = h.body_weight in
      let at = h.offset in
      record {
        index_at = omega arith;
        bloom_at = omega arith;
        index_long = omega arith;
        bloom_long = omega arith;
        bloom_some = λ e. omega arith;
        footer_fits = record {
          index_offset_fits = omega arith;
          bloom_offset_fits = omega arith;
          index_size_fits = omega arith;
          bloom_size_fits = omega arith;
          checksum_fits = omega arith;
        };
      }
