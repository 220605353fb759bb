-- ===== src/Sstable/Reader/Blocks.antt =====
-- The blocks in a table file as the reader finds them, and its search for a key among them.
use cityhall.Base.{
  ℕ, ◌+◌, ◌≡◌, refl, sym, ap, ◌∙◌, subst, arith, List, [], ◌∷◌, ◌++◌, append_assoc, append-nil,
}
use cityhall.Base.{length, length-append, take-append, drop-append, le→ltb, Bool-cases, inl, inr}
use cityhall.Base.{true, false, none, some, Ordering}
use cityhall.Types.{Entry, Result, ok}
use cityhall.Types.Bytes.{Buf}
use cityhall.Types.Keys.{compare_keys, compare_keys-flip, key_le}
use cityhall.Types.Entries.{IsAscending, find_key}
use cityhall.Types.Entries.Append.{
  find_key-append_left, find_key-append_right, IsAscending-behind, find_key_above, find_key_before,
}
use cityhall.Sstable.Header.{header_size}
use cityhall.Sstable.Index.{IndexEntry}
use cityhall.Sstable.Snappy.{Snappy}
use cityhall.Sstable.Block.{decode_block}
use cityhall.Sstable.Reader.{read_exact_at, partition_point, index_at, read_block_at}

pub read_exact_at_lem :
    (pre bytes post : List ℕ)
    → read_exact_at (length pre) (length bytes) (pre ++ (bytes ++ post)) ≡ ok bytes
unfolding read_exact_at
read_exact_at_lem pre bytes post =
    let n1 = length-append bytes post in
    rw (
      drop-append pre (bytes ++ post),
      le→ltb (length (bytes ++ post)) (length bytes) (omega arith),
      take-append bytes post,
    )

-- The bytes stand at an offset of a file whose body follows a header.
pub record LiesAt (bytes : List ℕ) (offset : ℕ) (body : List ℕ) : Type 0 where
  pub before : List ℕ
  pub behind : List ℕ
  pub split : body ≡ before ++ (bytes ++ behind)
  pub at : header_size + length before ≡ offset

pub LiesAt-append :
    (bytes : List ℕ) (offset : ℕ) (body more : List ℕ)
    → LiesAt bytes offset body
    → LiesAt bytes offset (body ++ more)
LiesAt-append bytes offset body more l = record {
  before = l.before;
  behind = l.behind ++ more;
  split =
      ap (λ b. b ++ more) l.split
      ∙ append_assoc l.before (bytes ++ l.behind) more
      ∙ ap (λ b. l.before ++ b) (append_assoc bytes l.behind more);
  at = l.at;
}

pub read_exact_at-LiesAt :
    (header bytes : List ℕ) (offset : ℕ) (body : List ℕ)
    → length header ≡ header_size
    → LiesAt bytes offset body
    → read_exact_at offset (length bytes) (header ++ body) ≡ ok bytes
read_exact_at-LiesAt header bytes offset body h l =
    let whole : header ++ body ≡ (header ++ l.before) ++ (bytes ++ l.behind) =
      ap (λ b. header ++ b) l.split ∙ sym (append_assoc header l.before (bytes ++ l.behind)) in
    let n1 : length (header ++ l.before) ≡ length header + length l.before =
      length-append header l.before in
    let at : offset ≡ length (header ++ l.before) = omega (arith, l.at) in
    rw (whole, at) (read_exact_at_lem (header ++ l.before) bytes l.behind)

abbrev pub concat_blocks : List (List Entry) → List Entry
concat_blocks [] = []
concat_blocks (b ∷ blocks) = b ++ concat_blocks blocks

module _ ⦃buf : Buf⦄ ⦃snappy : Snappy⦄ where
  -- An index entry leads to the bytes of a block.
  pub record BlockAt (body : List ℕ) (i : IndexEntry) (block : List Entry) : Type 0 where
    pub compressed : List ℕ
    pub raw : List ℕ
    pub lies : LiesAt compressed i.offset body
    pub sized : i.size ≡ length compressed
    pub unpacked : snappy.decompress compressed ≡ some raw
    pub decoded : decode_block raw ≡ ok block
    pub first : Entry
    pub others : List Entry
    pub filled : block ≡ first ∷ others
    pub first_key_at : i.first_key ≡ first.key

  pub read_block_at-BlockAt :
      (header body : List ℕ) (i : IndexEntry) (block : List Entry)
      → length header ≡ header_size
      → BlockAt body i block
      → read_block_at (header ++ body) i ≡ ok block
  unfolding read_block_at
  read_block_at-BlockAt header body i block h b = rw (
    b.sized,
    read_exact_at-LiesAt header b.compressed i.offset body h b.lies,
    b.unpacked,
    b.decoded,
  )

  -- The index entries lead to the blocks, in order.
  abbrev pub Placed : List ℕ → List IndexEntry → List (List Entry) → Type 0
  Placed body [] [] = Unit
  Placed body [] (b ∷ blocks) = ⊥
  Placed body (i ∷ index) [] = ⊥
  Placed body (i ∷ index) (b ∷ blocks) = BlockAt body i b × Placed body index blocks

  -- What the search for a key needs of the place that the index gives.
  pub record Located (body : List ℕ) (key : List ℕ) (all : List Entry) (place : Result IndexEntry)
      : Type 0 where
    pub entry : IndexEntry
    pub block : List Entry
    pub found : place ≡ ok entry
    pub there : BlockAt body entry block
    pub enough : find_key key all ≡ find_key key block

  next_block_above :
      (key : List ℕ) (xs b rest : List Entry) (e : Entry) (others : List Entry)
      → b ≡ e ∷ others
      → IsAscending (xs ++ (b ++ rest))
      → key_le e.key key ≡ true
      → find_key key xs ≡ none
  next_block_above key xs b rest e others same asc h =
      find_key_above key xs e (others ++ rest)
        (subst (λ z. IsAscending (xs ++ (z ++ rest))) same asc) h

  next_block_below :
      (key : List ℕ) (b rest : List Entry) (e : Entry) (others : List Entry)
      → b ≡ e ∷ others
      → IsAscending (b ++ rest)
      → key_le e.key key ≡ false
      → find_key key (b ++ rest) ≡ none
  next_block_below key b rest e others same asc h =
      let less : compare_keys key e.key ≡ Ordering.lt =
        ground (arith, compare_keys-flip e.key key) in
      subst (λ z. find_key key (z ++ rest) ≡ none) (sym same)
        (find_key_before key e (others ++ rest) (subst (λ z. IsAscending (z ++ rest)) same asc)
          less)

  -- The block that the partition point gives has the key if any block has it.
  pub partition_point-Located :
      (body key : List ℕ) (i : IndexEntry) (index : List IndexEntry) (b : List Entry)
      (blocks : List (List Entry))
      → BlockAt body i b
      → Placed body index blocks
      → IsAscending (b ++ concat_blocks blocks)
      → Located body key
          (b ++ concat_blocks blocks)
          (index_at (i ∷ index) (partition_point key index))
  unfolding partition_point
  partition_point-Located body key i [] b [] here placed asc = record {
    entry = i;
    block = b;
    found = refl;
    there = here;
    enough = rw (append-nil b) refl;
  }
  partition_point-Located body key i [] b (c ∷ blocks) here placed asc = absurd placed
  partition_point-Located body key i (j ∷ index) b [] here placed asc = absurd placed
  partition_point-Located body key i (j ∷ index) b (c ∷ blocks) here (next, placed) asc =
      let rest = c ++ concat_blocks blocks in
      let asc' = IsAscending-behind b rest asc in
      elim (Bool-cases (key_le j.first_key key)) [
        | inl at_or_above ↦
            let h = subst (λ k. key_le k key ≡ true) next.first_key_at at_or_above in
            let not_here =
              next_block_above key b c (concat_blocks blocks) next.first next.others next.filled asc
                h in
            let r = partition_point-Located body key j index c blocks next placed asc' in
            rw at_or_above (record {
              entry = r.entry;
              block = r.block;
              found = r.found;
              there = r.there;
              enough = find_key-append_left key b rest not_here ∙ r.enough;
            })
        | inr below ↦
            let h = subst (λ k. key_le k key ≡ false) next.first_key_at below in
            let not_there =
              next_block_below key c (concat_blocks blocks) next.first next.others next.filled asc'
                h in
            rw below (record {
              entry = i;
              block = b;
              found = refl;
              there = here;
              enough = find_key-append_right key b rest not_there;
            })
      ]
