-- ===== src/Sstable/Reader/Lookup.antt =====
-- `get` of the reader against the list of all entries of the table.
use cityhall.Base.{ℕ, suc, ◌-◌, ◌≡◌, refl, sym, subst, arith, List, [], ◌∷◌, ◌++◌, length}
use cityhall.Base.{
  ltb, lt→ltb, Bool-cases, inl, inr, Bool, true, false, none, some, Option-cases, if◌then◌else◌,
  Ordering,
}
use cityhall.Types.{Entry, ok}
use cityhall.Types.Bytes.{Buf}
use cityhall.Types.Keys.{compare_keys, compare_keys-flip, key_lt, key_le}
use cityhall.Types.Entries.{IsAscending, find_key}
use cityhall.Types.Entries.Append.{find_key_before}
use cityhall.Sstable.Header.{header_size}
use cityhall.Sstable.Index.{IndexEntry}
use cityhall.Sstable.Snappy.{Snappy}
use cityhall.Sstable.Bloom.{KeyHasher, contains}
use cityhall.Sstable.Reader.{
  SsTableReader, partition_point, find_block_for_key, index_at, read_and_decompress_block,
  value_and_timestamp, get_from, get,
}
use cityhall.Sstable.Reader.Blocks.{
  concat_blocks, read_block_at-BlockAt, Placed, Located, partition_point-Located,
}

module _ ⦃buf : Buf⦄ ⦃snappy : Snappy⦄ where
  get_from-Located :
      (r : SsTableReader) (header body key : List ℕ) (all : List Entry) (i : ℕ)
      → r.file ≡ header ++ body
      → length header ≡ header_size
      → Located body key all (index_at r.index i)
      → get_from r key (some i) ≡ ok (value_and_timestamp (find_key key all))
  unfolding read_and_decompress_block
  get_from-Located r header body key all i file h l =
      rw (l.found, file, read_block_at-BlockAt header body l.entry l.block h l.there, l.enough)

  -- Behind the filter.
  get_from-find_block :
      (r : SsTableReader) (header body key : List ℕ) (index : List IndexEntry)
      (blocks : List (List Entry))
      → r.index ≡ index
      → r.file ≡ header ++ body
      → length header ≡ header_size
      → Placed body index blocks
      → IsAscending (concat_blocks blocks)
      → get_from r key (find_block_for_key key index)
        ≡ ok (value_and_timestamp (find_key key (concat_blocks blocks)))
  unfolding find_block_for_key find_key
  get_from-find_block r header body key [] [] e file h placed asc = refl
  get_from-find_block r header body key [] (b ∷ blocks) e file h placed asc = absurd placed
  get_from-find_block r header body key (i ∷ index) [] e file h placed asc = absurd placed
  get_from-find_block r header body key (i ∷ index) (b ∷ blocks) e file h (here, placed) asc =
      elim (Bool-cases (key_lt key i.first_key)) [
        | inl before ↦
            let less : compare_keys key here.first.key ≡ Ordering.lt =
              subst (λ k. compare_keys key k ≡ Ordering.lt) here.first_key_at (ground arith) in
            let absent : find_key key (b ++ concat_blocks blocks) ≡ none =
              subst (λ z. find_key key (z ++ concat_blocks blocks) ≡ none) (sym here.filled)
                (find_key_before key here.first (here.others ++ concat_blocks blocks)
                  (subst (λ z. IsAscending (z ++ concat_blocks blocks)) here.filled asc) less) in
            rw (before, absent)
        | inr from_on ↦
            let le : key_le i.first_key key ≡ true =
              ground (arith, compare_keys-flip key i.first_key) in
            let l = partition_point-Located body key i index b blocks here placed asc in
            rw
              (from_on, partition_point_step key i index le, last_index (partition_point key index))
              (get_from-Located r header body key (b ++ concat_blocks blocks)
                (partition_point key index) file h
                (subst
                  (λ z.
                    Located body key (b ++ concat_blocks blocks)
                      (index_at z (partition_point key index)))
                  (sym e) l))
      ]
    where
      last_index : (n : ℕ) → (if ltb 0 (suc n) then some (suc n - 1) else none) ≡ some n
      last_index n = let k : suc n - 1 ≡ n = omega arith in rw (lt→ltb 0 (suc n) (omega arith), k)

      partition_point_step :
          (key : List ℕ) (i : IndexEntry) (index : List IndexEntry)
          → key_le i.first_key key ≡ true
          → partition_point key (i ∷ index) ≡ suc (partition_point key index)
      partition_point_step key i index le = unfold partition_point in rw le

  -- On a table whose index leads to blocks with all its entries in ascending order, and whose filter
  -- has the keys of all of them, `get` finds just what the list of the entries has.
  pub get-find_key :
      ⦃hasher : KeyHasher⦄ (r : SsTableReader) (header body key : List ℕ)
      (blocks : List (List Entry)) (maybe : Bool)
      → r.file ≡ header ++ body
      → length header ≡ header_size
      → Placed body r.index blocks
      → IsAscending (concat_blocks blocks)
      → contains r.bloom_filter key ≡ ok maybe
      → ((e : Entry) → find_key key (concat_blocks blocks) ≡ some e → maybe ≡ true)
      → get r key ≡ ok (value_and_timestamp (find_key key (concat_blocks blocks)))
  unfolding get
  get-find_key r header body key blocks true file h placed asc c has =
      rw c (get_from-find_block r header body key r.index blocks refl file h placed asc)
  get-find_key r header body key blocks false file h placed asc c has =
      elim (Option-cases (find_key key (concat_blocks blocks))) [
        | inl absent ↦ rw (c, absent)
        | inr (e, present) ↦ let no = has e present in cc
      ]
