-- ===== src/Sstable/Writer/RoundTrip.antt =====
-- A table that src/sstable/writer.rs wrote is opened by src/sstable/reader.rs, and has just the
-- entries that were added.
use cityhall.Base.{ℕ, ◌+◌, ◌-◌, ◌^◌, ◌<◌, ◌≡◌, refl, sym, ap, ◌∙◌, subst, arith, List, [], ◌++◌}
use cityhall.Base.{append_assoc, append-nil, length, length-append, le→ltb, ==_ne}
use cityhall.Types.{Entry, ok}
use cityhall.Types.Bytes.{Buf}
use cityhall.Types.Entries.{find_key}
use cityhall.Sstable.Header
use cityhall.Sstable.Header.{Header, header_size}
use cityhall.Sstable.Header.RoundTrip.{header_decode-encode, header_length-encode}
use cityhall.Sstable.Footer
use cityhall.Sstable.Footer.{Footer, footer_size}
use cityhall.Sstable.Footer.RoundTrip.{footer_decode-encode, footer_length-encode}
use cityhall.Sstable.Index.{encode_index}
use cityhall.Sstable.Index.RoundTrip.{decode_index-encode_index}
use cityhall.Sstable.Snappy.{Snappy}
use cityhall.Sstable.Bloom
use cityhall.Sstable.Bloom.{BloomFilter, KeyHasher, bytes_for}
use cityhall.Sstable.Bloom.Codec.{bloom_decode-encode}
use cityhall.Sstable.Bloom.Filled.{HasKeys-contains}
use cityhall.Sstable.Reader.{
  SsTableReader, read_exact_at, read_header, read_footer, read_bloom_filter, read_index, open_table,
  get, scan, value_and_timestamp,
}
use cityhall.Sstable.Reader.Blocks.{read_exact_at_lem, LiesAt, read_exact_at-LiesAt, concat_blocks}
use cityhall.Sstable.Reader.Lookup.{get-find_key}
use cityhall.Sstable.Reader.Scan.{scan-within}
use cityhall.Sstable.Reader.Within.{within}
use cityhall.Sstable.Writer.{SsTableWriter, new, footer_of, finished, finish, write_entries}
use cityhall.Sstable.Writer.Blocks.{Written, Placed-append}
use cityhall.Sstable.Writer.Flush.{IsTable, flush_block-Written}
use cityhall.Types.Entries.{IsAscending}
use cityhall.Sstable.Writer.Finish.{
  new-Written, add_entries-Written, finished_parts, finished-Sizes,
}

module _ ⦃buf : Buf⦄ ⦃snappy : Snappy⦄ ⦃hasher : KeyHasher⦄ where
  module _ (w : SsTableWriter) (all : List Entry) (h : Written w all) (t : IsTable all) where
    abbrev bloom_data : List ℕ
    bloom_data = Bloom.encode w.bloom_filter

    abbrev index_data : List ℕ
    index_data = encode_index w.index_entries

    abbrev footer_data : List ℕ
    footer_data = Footer.encode (footer_of w)

    abbrev behind_header : List ℕ
    behind_header = h.body ++ (bloom_data ++ (index_data ++ footer_data))

    read_header-finished : read_header (finished w) ≡ ok w.header
    unfolding read_header
    read_header-finished =
        let n = header_length-encode w.header in
        let bytes : read_exact_at 0 header_size (finished w) ≡ ok (Header.encode w.header) =
          rw (finished_parts w all h, ← n)
            (read_exact_at_lem [] (Header.encode w.header) behind_header) in
        rw (bytes, header_decode-encode w.header h.magic h.in_range)

    read_footer-finished : read_footer (finished w) ≡ ok (footer_of w)
    unfolding read_footer
    read_footer-finished =
        let front = Header.encode w.header ++ (h.body ++ (bloom_data ++ index_data)) in
        let whole : finished w ≡ front ++ (footer_data ++ []) =
          finished_parts w all h ∙ simp (append_assoc, append-nil) in
        let n : length footer_data ≡ footer_size = footer_length-encode (footer_of w) in
        let n1 : length (front ++ (footer_data ++ [])) ≡ length front + length (footer_data ++ []) =
          length-append front (footer_data ++ []) in
        let n2 : length (footer_data ++ []) ≡ length footer_data =
          ap length (append-nil footer_data) in
        let n3 : length (finished w) ≡ length front + footer_size =
          ap length whole ∙ (omega arith) in
        let at : length (finished w) - footer_size ≡ length front = omega arith in
        let bytes : read_exact_at (length (finished w) - footer_size) footer_size (finished w)
            ≡ ok footer_data =
          rw (at, whole, ← n) (read_exact_at_lem front footer_data []) in
        let decoded : Footer.decode footer_data ≡ ok (footer_of w) =
          subst (λ f. Footer.decode f ≡ ok (footer_of w)) (append-nil footer_data)
            (footer_decode-encode (footer_of w) [] (finished-Sizes w all h t).footer_fits) in
        rw (le→ltb (length (finished w)) footer_size (omega arith), bytes, decoded)

    read_bloom_filter-finished :
        (placeholder : BloomFilter)
        → read_bloom_filter placeholder (finished w) (footer_of w) ≡ ok w.bloom_filter
    unfolding read_bloom_filter
    read_bloom_filter-finished placeholder =
        let s = finished-Sizes w all h t in
        let lies : LiesAt bloom_data (footer_of w).bloom_offset behind_header = record {
          before = h.body;
          behind = index_data ++ footer_data;
          split = refl;
          at = sym s.bloom_at;
        } in
        let bytes : read_exact_at (footer_of w).bloom_offset (footer_of w).bloom_size (finished w)
            ≡ ok bloom_data =
          rw (s.bloom_long, finished_parts w all h)
            (read_exact_at-LiesAt (Header.encode w.header) bloom_data (footer_of w).bloom_offset
              behind_header (header_length-encode w.header) lies) in
        rw (
          ==_ne (footer_of w).bloom_size 0 s.bloom_some,
          bytes,
          bloom_decode-encode w.bloom_filter h.filter.storable,
        )

    read_index-finished : read_index (finished w) (footer_of w) ≡ ok w.index_entries
    unfolding read_index
    read_index-finished =
        let s = finished-Sizes w all h t in
        let lies : LiesAt index_data (footer_of w).index_offset behind_header = record {
          before = h.body ++ bloom_data;
          behind = footer_data;
          split = sym (append_assoc h.body bloom_data (index_data ++ footer_data));
          at = omega (arith, s.index_at, length-append h.body bloom_data);
        } in
        let bytes : read_exact_at (footer_of w).index_offset (footer_of w).index_size (finished w)
            ≡ ok index_data =
          rw (s.index_long, finished_parts w all h)
            (read_exact_at-LiesAt (Header.encode w.header) index_data (footer_of w).index_offset
              behind_header (header_length-encode w.header) lies) in
        rw (
          bytes,
          decode_index-encode_index (length index_data) w.index_entries h.storable (omega arith),
        )

    abbrev reader_of : SsTableReader
    reader_of = record {
      file = finished w;
      file_size = length (finished w);
      index = w.index_entries;
      bloom_filter = w.bloom_filter;
      header = w.header;
    }

    open_table-finished :
        (placeholder : BloomFilter) → open_table placeholder (finished w) ≡ ok reader_of
    unfolding open_table
    open_table-finished placeholder = rw (
      read_header-finished,
      read_footer-finished,
      read_bloom_filter-finished placeholder,
      read_index-finished,
    )

    get-finished :
        h.pending ≡ []
        → (key : List ℕ) → get reader_of key ≡ ok (value_and_timestamp (find_key key all))
    get-finished flushed key =
        let whole : all ≡ concat_blocks h.blocks =
          h.whole
          ∙ ap (λ p. concat_blocks h.blocks ++ p) flushed
          ∙ append-nil (concat_blocks h.blocks) in
        let (maybe, c, has) = HasKeys-contains w.bloom_filter all key h.filter in
        get-find_key reader_of (Header.encode w.header) behind_header key h.blocks maybe
          (finished_parts w all h) (header_length-encode w.header)
          (Placed-append h.body (bloom_data ++ (index_data ++ footer_data)) w.index_entries h.blocks
            h.placed)
          (subst IsAscending whole t.ascending) c
          (λ e found. has e (ap (find_key key) whole ∙ found))
        ∙ ap (λ l. ok (value_and_timestamp (find_key key l))) (sym whole)

    scan-finished :
        h.pending ≡ []
        → (start stop : List ℕ) → scan reader_of start stop ≡ ok (within start stop all)
    scan-finished flushed start stop =
        let whole : all ≡ concat_blocks h.blocks =
          h.whole
          ∙ ap (λ p. concat_blocks h.blocks ++ p) flushed
          ∙ append-nil (concat_blocks h.blocks) in
        scan-within start stop (Header.encode w.header) behind_header
          (header_length-encode w.header) reader_of h.blocks (finished_parts w all h)
          (Placed-append h.body (bloom_data ++ (index_data ++ footer_data)) w.index_entries h.blocks
            h.placed)
          (subst IsAscending whole t.ascending)
        ∙ ap (λ l. ok (within start stop l)) (sym whole)

  -- Entries in strictly ascending order whose lengths and timestamps fit the file format, a
  -- gigabyte at most, are written to a table file without an error, whatever the block size, the
  -- sizes of the filter (within 32 bits, and some bit), the hash and the compression are; the file
  -- opens; get finds just the entries that were written; and a scan returns, in order, just those
  -- from its start to its end, both included.
  pub open_table-write_entries :
      (block_size num_bits k : ℕ) (entries : List Entry) (placeholder : BloomFilter)
      → 0 < num_bits
      → num_bits < 2 ^ 32
      → k < 2 ^ 32
      → IsTable entries
      → (file : List ℕ) × (r : SsTableReader) × (write_entries block_size num_bits k entries
          ≡ ok file)
        × (open_table placeholder file ≡ ok r)
        × ((key : List ℕ) → get r key ≡ ok (value_and_timestamp (find_key key entries)))
        × ((start stop : List ℕ) → scan r start stop ≡ ok (within start stop entries))
  unfolding write_entries finish
  open_table-write_entries block_size num_bits k entries placeholder pos hb hk t =
      let (w, added, h) =
        add_entries-Written (new block_size num_bits k) [] entries
          (new-Written block_size num_bits k pos hb hk) t in
      let (w', flushed, (h', none_left), same) = flush_block-Written w entries h t in
      (
        finished w',
        reader_of w' entries h' t,
        rw (added, flushed),
        open_table-finished w' entries h' t placeholder,
        λ key. get-finished w' entries h' t none_left key,
        λ start stop. scan-finished w' entries h' t none_left start stop,
      )
