-- ===== src/Sstable/Writer/Flush.antt =====
-- `flush_block` of src/sstable/writer.rs on a writer that has written some entries.
use cityhall.Base.{true}
use cityhall.Base.{
  ℕ, ◌+◌, ◌/◌, ◌%◌, ◌^◌, ◌≤◌, ◌<◌, ◌≡◌, refl, sym, ap, ◌∙◌, subst, arith, List, [], ◌∷◌, ◌++◌,
}
use cityhall.Base.{append_assoc, append-nil, length, length-append, All, All-append, some, false}
use cityhall.Types.{Entry, ok}
use cityhall.Types.Bytes.{Buf}
use cityhall.Types.Entries.{IsAscending}
use cityhall.Types.Entries.Append.{IsAscending-behind}
use cityhall.Sstable.Index.{IndexEntry}
use cityhall.Sstable.Index.RoundTrip
use cityhall.Sstable.Snappy.{Snappy}
use cityhall.Sstable.Block
use cityhall.Sstable.Block.RoundTrip.{add_all, decode_block-add_all}
use cityhall.Sstable.Block.Size.{weight, total_weight, total_weight-append, length-buffer}
use cityhall.Sstable.Block.Builder.{is_empty-add_all, first_key-add_all, finish_lem}
use cityhall.Sstable.Bloom.{KeyHasher}
use cityhall.Sstable.Reader.Blocks.{concat_blocks, BlockAt}
use cityhall.Sstable.Writer.{SsTableWriter, write_block, flush_block}
use cityhall.Sstable.Writer.Blocks.{
  IsTableEntry, All-IsEncodable, concat_blocks-append, All-behind, encode_index-append,
  Placed-append, Placed-snoc, Written,
}

module _ ⦃buf : Buf⦄ ⦃snappy : Snappy⦄ ⦃hasher : KeyHasher⦄ where
  -- What a table can hold: entries in order that fit the format, a gigabyte of them at most.
  pub record IsTable (entries : List Entry) : Type 0 where
    pub ascending : IsAscending entries
    pub entries_fit : All IsTableEntry entries
    pub small : total_weight entries < 2 ^ 30

  write_block-Written :
      (w : SsTableWriter) (all : List Entry) (h : Written w all) (e : Entry) (others : List Entry)
      (out : List ℕ)
      → h.pending ≡ e ∷ others
      → IsTable all
      → snappy.compress w.block_builder.buffer ≡ some out
      → length out ≤ 32 + length w.block_builder.buffer + length w.block_builder.buffer / 6
      → (h' : Written (write_block w e.key out) all) × (h'.pending ≡ [])
  unfolding write_block
  write_block-Written w all h e others out has t packed small =
      let pending = h.pending in
      let fits =
        All-behind (concat_blocks h.blocks) pending
          (subst (All IsTableEntry) h.whole t.entries_fit) in
      let first_fits : IsTableEntry e = (subst (All IsTableEntry) has fits).0 in
      let encodable = All-IsEncodable pending fits in
      let asc =
        IsAscending-behind (concat_blocks h.blocks) pending
          (subst IsAscending h.whole t.ascending) in
      let raw_small : length w.block_builder.buffer ≤ total_weight pending =
        rw h.builder (length-buffer pending encodable) in
      let weights : total_weight all
          ≡ total_weight (concat_blocks h.blocks) + total_weight pending =
        ap total_weight h.whole ∙ total_weight-append (concat_blocks h.blocks) pending in
      let pending_weight : total_weight pending ≡ weight e + total_weight others =
        ap total_weight has in
      let all_small = t.small in
      let bw = h.body_weight in
      let iw = h.index_weight in
      let at = h.offset in
      let long = length-append h.body out in
      let new_entry : IndexEntry = record {
        first_key = e.key;
        offset = w.offset;
        size = length out % 2 ^ 32;
      } in
      let blocks' = h.blocks ++ pending ∷ [] in
      let weights' : total_weight (concat_blocks blocks')
          ≡ total_weight (concat_blocks h.blocks) + total_weight pending =
        ap total_weight (concat_blocks-append h.blocks pending)
        ∙ total_weight-append (concat_blocks h.blocks) pending in
      let index_long = encode_index-append w.index_entries new_entry in
      let there : BlockAt (h.body ++ out) new_entry pending = record {
        compressed = out;
        raw = w.block_builder.buffer;
        lies = record {
          before = h.body;
          behind = [];
          split = ap (λ b. h.body ++ b) (sym (append-nil out));
          at = sym at;
        };
        sized = omega arith;
        unpacked = snappy.decompress-compress w.block_builder.buffer out packed;
        decoded = rw h.builder (decode_block-add_all pending asc encodable);
        first = e;
        others = others;
        filled = has;
        first_key_at = refl;
      } in
      (
        record {
          blocks = blocks';
          pending = [];
          header_bytes = h.header_bytes;
          body = h.body ++ out;
          file = ap (λ f. f ++ out) h.file ∙ append_assoc h.header_bytes h.body out;
          header_length = h.header_length;
          magic = h.magic;
          in_range = record {
            version_fits = h.in_range.version_fits;
            num_blocks_fits = omega arith;
            min_fits = h.in_range.min_fits;
            max_fits = h.in_range.max_fits;
          };
          placed =
              Placed-snoc (h.body ++ out) w.index_entries h.blocks new_entry pending
                (Placed-append h.body out w.index_entries h.blocks h.placed) there;
          storable = All-append RoundTrip.IsStorable w.index_entries (new_entry ∷ []) h.storable (
            record {
              key_fits = first_fits.key_fits;
              offset_fits = omega arith;
              size_fits = omega arith;
            },
            tt,
          );
          index_weight = omega arith;
          builder = unfold add_all in refl;
          offset = omega arith;
          body_weight = omega arith;
          filter = h.filter;
          whole =
              h.whole
              ∙ sym (append-nil (concat_blocks blocks') ∙ concat_blocks-append h.blocks pending);
        },
        refl,
      )

  flush_block_lem :
      (w : SsTableWriter) (key out : List ℕ)
      → Block.is_empty w.block_builder ≡ false
      → w.block_builder.first_key ≡ some key
      → Block.finish w.block_builder ≡ ok out
      → flush_block w ≡ ok (write_block w key out)
  unfolding flush_block
  flush_block_lem w key out full first done = rw (full, done, first)

  -- A flush succeeds, and leaves nothing in the builder.
  pub flush_block-Written :
      (w : SsTableWriter) (all : List Entry) (h : Written w all)
      → IsTable all
      → (w' : SsTableWriter) × (flush_block w ≡ ok w')
        × ((h' : Written w' all) × (h'.pending ≡ []))
        × (w'.bloom_filter ≡ w.bloom_filter)
  unfolding flush_block write_block
  flush_block-Written w all h t = by_pending h.pending refl
    where
      by_pending :
          (pending : List Entry)
          → h.pending ≡ pending
          → (w' : SsTableWriter) × (flush_block w ≡ ok w')
            × ((h' : Written w' all) × (h'.pending ≡ []))
            × (w'.bloom_filter ≡ w.bloom_filter)
      by_pending [] has =
          let empty : Block.is_empty w.block_builder ≡ true =
            ap Block.is_empty (h.builder ∙ ap (add_all Block.new) has) ∙ unfold add_all in refl in
          (w, rw empty refl, (h, has), refl)
      by_pending (e ∷ others) has =
          let built : w.block_builder ≡ add_all Block.new (e ∷ others) =
            h.builder ∙ ap (add_all Block.new) has in
          let full : Block.is_empty w.block_builder ≡ false =
            ap Block.is_empty built ∙ is_empty-add_all e others in
          let first : w.block_builder.first_key ≡ some e.key =
            ap (λ b. b.first_key) built ∙ first_key-add_all e others in
          let fits =
            All-behind (concat_blocks h.blocks) h.pending
              (subst (All IsTableEntry) h.whole t.entries_fit) in
          let raw_small : length w.block_builder.buffer ≤ total_weight h.pending =
            rw h.builder (length-buffer h.pending (All-IsEncodable h.pending fits)) in
          let weights : total_weight all
              ≡ total_weight (concat_blocks h.blocks) + total_weight h.pending =
            ap total_weight h.whole ∙ total_weight-append (concat_blocks h.blocks) h.pending in
          let all_small = t.small in
          let (out, packed, small) = snappy.compress_fits w.block_builder.buffer (omega arith) in
          (
            write_block w e.key out,
            flush_block_lem w e.key out full first (finish_lem w.block_builder out full packed),
            write_block-Written w all h e others out has t packed small,
            refl,
          )
