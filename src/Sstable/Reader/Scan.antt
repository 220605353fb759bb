-- ===== src/Sstable/Reader/Scan.antt =====
-- `scan` of the reader against the list of all entries of the table.
use cityhall.Base.{
  ℕ, suc, ◌-◌, ◌≡◌, refl, sym, ap, ◌∙◌, subst, arith, List, [], ◌∷◌, ◌++◌, length, append-nil, drop,
}
use cityhall.Base.{ltb, lt→ltb, Bool-cases, inl, inr, true, none, some, if◌then◌else◌}
use cityhall.Types.{Entry, ok}
use cityhall.Types.Bytes.{Buf}
use cityhall.Types.Keys.{compare_keys-flip, key_lt, key_le}
use cityhall.Types.Entries.{IsAscending}
use cityhall.Types.Entries.Append.{IsAscending-behind, IsAscending-before}
use cityhall.Sstable.Header.{header_size}
use cityhall.Sstable.Index.{IndexEntry}
use cityhall.Sstable.Snappy.{Snappy}
use cityhall.Sstable.Reader.{
  SsTableReader, partition_point, find_block_for_key, scan_entries, scan_blocks, blocks_from, scan,
}
use cityhall.Sstable.Reader.Blocks.{concat_blocks, BlockAt, read_block_at-BlockAt, Placed}
use cityhall.Sstable.Reader.Within.{
  within, within-append, within_before, scan_entries_found, scan_entries_past,
}

module _ (start stop : List ℕ) where
  module _ ⦃buf : Buf⦄ ⦃snappy : Snappy⦄ (header body : List ℕ)
      (h : length header ≡ header_size) where
    scan_blocks_lem :
        (index : List IndexEntry) (blocks : List (List Entry))
        → Placed body index blocks
        → IsAscending (concat_blocks blocks)
        → scan_blocks (header ++ body) start stop index
          ≡ ok (within start stop (concat_blocks blocks))
    unfolding scan_blocks
    scan_blocks_lem [] [] placed asc = unfold within in refl
    scan_blocks_lem [] (b ∷ blocks) placed asc = absurd placed
    scan_blocks_lem (i ∷ index) [] placed asc = absurd placed
    scan_blocks_lem (i ∷ index) (b ∷ blocks) (here, placed) asc =
        let read = read_block_at-BlockAt header body i b h here in
        let rest =
          scan_blocks_lem index blocks placed (IsAscending-behind b (concat_blocks blocks) asc) in
        let found =
          scan_entries_found start stop b (IsAscending-before b (concat_blocks blocks) asc) in
        let split = within-append start stop b (concat_blocks blocks) in
        elim (Bool-cases (scan_entries start stop b).1) [
          | inl past ↦
              let none_left = scan_entries_past start stop b (concat_blocks blocks) asc past in
              rw (read, past, found, split, none_left, append-nil (within start stop b))
          | inr on ↦ rw (read, on, found, rest, split)
        ]

    scan_from_block :
        (i : IndexEntry) (index : List IndexEntry) (b : List Entry) (blocks : List (List Entry))
        → BlockAt body i b
        → Placed body index blocks
        → IsAscending (b ++ concat_blocks blocks)
        → scan_blocks (header ++ body) start stop (drop (partition_point start index) (i ∷ index))
          ≡ ok (within start stop (b ++ concat_blocks blocks))
    unfolding partition_point
    scan_from_block i [] b [] here placed asc = scan_blocks_lem (i ∷ []) (b ∷ []) (here, tt) asc
    scan_from_block i [] b (c ∷ blocks) here placed asc = absurd placed
    scan_from_block i (j ∷ index) b [] here placed asc = absurd placed
    scan_from_block i (j ∷ index) b (c ∷ blocks) here (next, placed) asc =
        let rest = c ++ concat_blocks blocks in
        elim (Bool-cases (key_le j.first_key start)) [
          | inl at_or_above ↦
              let le = subst (λ k. key_le k start ≡ true) next.first_key_at at_or_above in
              let none_here : within start stop b ≡ [] =
                within_before start stop b next.first (next.others ++ concat_blocks blocks)
                  (subst (λ z. IsAscending (b ++ (z ++ concat_blocks blocks))) next.filled asc)
                  le in
              let tail =
                scan_from_block j index c blocks next placed (IsAscending-behind b rest asc) in
              rw at_or_above (
                tail
                ∙ ap (λ l. ok l)
                    (sym (
                      within-append start stop b rest
                      ∙ ap (λ l. l ++ within start stop rest) none_here)))
          | inr below ↦
              rw below (scan_blocks_lem (i ∷ j ∷ index) (b ∷ c ∷ blocks) (here, (next, placed)) asc)
        ]

    scan_index :
        (index : List IndexEntry) (blocks : List (List Entry))
        → Placed body index blocks
        → IsAscending (concat_blocks blocks)
        → scan_blocks
            (header ++ body)
            start
            stop
            (blocks_from (find_block_for_key start index) index)
          ≡ ok (within start stop (concat_blocks blocks))
    unfolding find_block_for_key
    scan_index [] [] placed asc = scan_blocks_lem [] [] placed asc
    scan_index [] (b ∷ blocks) placed asc = absurd placed
    scan_index (i ∷ index) [] placed asc = absurd placed
    scan_index (i ∷ index) (b ∷ blocks) (here, placed) asc =
        elim (Bool-cases (key_lt start i.first_key)) [
          | inl before ↦ rw before (scan_blocks_lem (i ∷ index) (b ∷ blocks) (here, placed) asc)
          | inr from_on ↦
              let le : key_le i.first_key start ≡ true =
                ground (arith, compare_keys-flip start i.first_key) in
              rw
                (from_on, partition_point_step i index le, last_index (partition_point start index))
                (scan_from_block i index b blocks here placed asc)
        ]
      where
        partition_point_step :
            (i : IndexEntry) (index : List IndexEntry)
            → key_le i.first_key start ≡ true
            → partition_point start (i ∷ index) ≡ suc (partition_point start index)
        partition_point_step i index le = unfold partition_point in rw le

        last_index : (n : ℕ) → (if ltb 0 (suc n) then some (suc n - 1) else none) ≡ some n
        last_index n = let k : suc n - 1 ≡ n = omega arith in rw (lt→ltb 0 (suc n) (omega arith), k)

    -- On a table whose index leads to blocks with all its entries in ascending order, a scan returns
    -- just the entries from `start` to `stop`, both included, in order.
    pub scan-within :
        (r : SsTableReader) (blocks : List (List Entry))
        → r.file ≡ header ++ body
        → Placed body r.index blocks
        → IsAscending (concat_blocks blocks)
        → scan r start stop ≡ ok (within start stop (concat_blocks blocks))
    unfolding scan
    scan-within r blocks file placed asc = rw file (scan_index r.index blocks placed asc)
