-- ===== src/Sstable/Block/Builder.antt =====
-- What a block builder holds after a list of entries.
use cityhall.Base.{ℕ, ◌+◌, ◌≡◌, refl, arith, List, [], ◌∷◌, ◌++◌, length, some, false}
use cityhall.Types.{Entry, ok}
use cityhall.Types.Bytes.{Buf}
use cityhall.Sstable.Snappy.{Snappy}
use cityhall.Sstable.Block.{BlockBuilder, new, is_empty, add, finish}
use cityhall.Sstable.Block.RoundTrip.{add_all}

module _ ⦃buf : Buf⦄ where
  pub add_all-append :
      (b : BlockBuilder) (entries : List Entry) (e : Entry)
      → add_all b (entries ++ e ∷ []) ≡ add (add_all b entries) e
  unfolding add_all
  add_all-append b [] e = refl
  add_all-append b (x ∷ entries) e = add_all-append (add b x) entries e

  entries_count-add_all :
      (b : BlockBuilder) (entries : List Entry)
      → (add_all b entries).entries_count ≡ b.entries_count + length entries
  unfolding add_all add
  entries_count-add_all b [] = omega arith
  entries_count-add_all b (x ∷ entries) = omega (arith, entries_count-add_all (add b x) entries)

  pub is_empty-add_all :
      (e : Entry) (entries : List Entry) → is_empty (add_all new (e ∷ entries)) ≡ false
  is_empty-add_all e entries = let k = entries_count-add_all new (e ∷ entries) in ground (arith, k)

  first_key_kept :
      (b : BlockBuilder) (entries : List Entry) (key : List ℕ)
      → b.first_key ≡ some key
      → (add_all b entries).first_key ≡ some key
  unfolding add_all add
  first_key_kept b [] key h = h
  first_key_kept b (x ∷ entries) key h = first_key_kept (add b x) entries key (rw h)

  pub first_key-add_all :
      (e : Entry) (entries : List Entry) → (add_all new (e ∷ entries)).first_key ≡ some e.key
  unfolding add_all add
  first_key-add_all e entries = first_key_kept (add new e) entries e.key refl

  pub finish_lem :
      ⦃snappy : Snappy⦄ (b : BlockBuilder) (out : List ℕ)
      → is_empty b ≡ false
      → snappy.compress b.buffer ≡ some out
      → finish b ≡ ok out
  unfolding finish
  finish_lem b out h k = rw (h, k)
