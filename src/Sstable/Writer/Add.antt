-- ===== src/Sstable/Writer/Add.antt =====
-- `add` of src/sstable/writer.rs on a writer that has written some entries.
use cityhall.Base.{ℕ, ◌^◌, ◌<◌, ◌≡◌, sym, ap, ◌∙◌, arith, List, [], ◌∷◌, ◌++◌}
use cityhall.Base.{append_assoc, leb, Bool-cases, inl, inr}
use cityhall.Types.{Entry, ok}
use cityhall.Types.Bytes.{Buf}
use cityhall.Types.Entries.Append.{IsAscending-before}
use cityhall.Sstable.Header.{Header}
use cityhall.Sstable.Header.RoundTrip.{IsInRange}
use cityhall.Sstable.Snappy.{Snappy}
use cityhall.Sstable.Block
use cityhall.Sstable.Block.Size.{total_weight-append}
use cityhall.Sstable.Block.Builder.{add_all-append}
use cityhall.Sstable.Bloom.{KeyHasher}
use cityhall.Sstable.Bloom.Filled.{HasKeys-add}
use cityhall.Sstable.Reader.Blocks.{concat_blocks}
use cityhall.Sstable.Writer.{SsTableWriter, add, see_timestamp}
use cityhall.Sstable.Writer.Blocks.{All-behind, All-before, Written}
use cityhall.Sstable.Writer.Flush.{IsTable, flush_block-Written}

see_timestamp-IsInRange :
    (timestamp : ℕ) (h : Header)
    → timestamp < 2 ^ 64
    → IsInRange h
    → IsInRange (see_timestamp timestamp h)
see_timestamp-IsInRange timestamp h fits r = record {
  version_fits = r.version_fits;
  num_blocks_fits = r.num_blocks_fits;
  min_fits = ground (arith, r.min_fits);
  max_fits = ground (arith, r.max_fits);
}

module _ ⦃buf : Buf⦄ ⦃snappy : Snappy⦄ ⦃hasher : KeyHasher⦄ where
  pub IsTable-before : (xs ys : List Entry) → IsTable (xs ++ ys) → IsTable xs
  IsTable-before xs ys t = record {
    ascending = IsAscending-before xs ys t.ascending;
    entries_fit = All-before xs ys t.entries_fit;
    small = omega (arith, total_weight-append xs ys, t.small);
  }

  -- `add` succeeds, whether the block was full or not.
  pub add-Written :
      (w : SsTableWriter) (all : List Entry) (e : Entry)
      → Written w all
      → IsTable (all ++ e ∷ [])
      → (w' : SsTableWriter) × (add w e ≡ ok w') × Written w' (all ++ e ∷ [])
  unfolding add
  add-Written w all e h t =
      let (filter, added, has) = HasKeys-add w.bloom_filter all e h.filter in
      let w1 : SsTableWriter = record w {
        bloom_filter = filter;
        header = see_timestamp e.timestamp w.header;
        block_builder = Block.add w.block_builder e;
      } in
      let h1 : Written w1 (all ++ e ∷ []) = record {
        blocks = h.blocks;
        pending = h.pending ++ e ∷ [];
        header_bytes = h.header_bytes;
        body = h.body;
        file = h.file;
        header_length = h.header_length;
        magic = h.magic;
        in_range =
            see_timestamp-IsInRange e.timestamp w.header
              (All-behind all (e ∷ []) t.entries_fit).0.timestamp_fits h.in_range;
        placed = h.placed;
        storable = h.storable;
        index_weight = h.index_weight;
        builder = ap (λ b. Block.add b e) h.builder ∙ sym (add_all-append Block.new h.pending e);
        offset = h.offset;
        body_weight = h.body_weight;
        filter = has;
        whole =
            ap (λ l. l ++ e ∷ []) h.whole
            ∙ append_assoc (concat_blocks h.blocks) h.pending (e ∷ []);
      } in
      elim (Bool-cases (leb w.block_size (Block.size (Block.add w.block_builder e)))) [
        | inl full ↦
            let (w', flushed, (h', none_left), same) =
              flush_block-Written w1 (all ++ e ∷ []) h1 t in
            (w', rw (added, full) flushed, h')
        | inr room ↦ (w1, rw (added, room), h1)
      ]
