-- ===== src/Sstable/Bloom/Filled.antt =====
-- A filter that is filled with the keys of a list of entries, as a table writer fills it.
use cityhall.Base.{
  ℕ, ◌/◌, ◌^◌, ◌<◌, ◌≡◌, sym, subst, List, [], ◌∷◌, ◌++◌, length, length-set, length-replicate,
}
use cityhall.Base.{ltb, Bool-cases, inl, inr, Bool, true, some, All, All-append}
use cityhall.Types.{Entry, ok}
use cityhall.Types.Keys.{key_eq}
use cityhall.Types.Entries.{find_key, eq_of_key_eq}
use cityhall.Sstable.Bloom.{
  BloomFilter, KeyHasher, new, bytes_for, set_bit, set_bits, all_set, contains, add,
}
use cityhall.Sstable.Bloom.Bits.{IsWellFormed, num_bits-set_bit, num_hashes-set_bit}
use cityhall.Sstable.Bloom.Membership.{
  positions, add_lem, contains_lem, add_keys, contains-add, contains-add_keys,
}
use cityhall.Sstable.Bloom.Codec.{IsStorable, new-IsWellFormed}

length-set_bit : (f : BloomFilter) (pos : ℕ) → length (set_bit f pos).bits ≡ length f.bits
unfolding set_bit
length-set_bit f pos = elim (Bool-cases (ltb (pos / 8) (length f.bits))) [
  | inl fits ↦ rw fits (length-set f.bits (pos / 8) _)
  | inr beyond ↦ rw beyond
]

set_bits-IsStorable :
    (f : BloomFilter) (hashes : List ℕ) → IsStorable f → IsStorable (set_bits f hashes)
unfolding set_bits
set_bits-IsStorable f [] s = s
set_bits-IsStorable f (pos ∷ hashes) s = set_bits-IsStorable (set_bit f pos) hashes (record {
  num_bits_fits = rw (num_bits-set_bit f pos) s.num_bits_fits;
  hashes_fit = rw (num_hashes-set_bit f pos) s.hashes_fit;
  exact = rw (length-set_bit f pos, num_bits-set_bit f pos) s.exact;
})

module _ ⦃hasher : KeyHasher⦄ where
  abbrev HasKey : BloomFilter → Entry → Type 0
  HasKey f e = contains f e.key ≡ ok true

  pub record HasKeys (f : BloomFilter) (entries : List Entry) : Type 0 where
    pub well_formed : IsWellFormed f
    pub storable : IsStorable f
    pub has : All (HasKey f) entries

  pub HasKeys-new :
      (num_bits k : ℕ) → 0 < num_bits → num_bits < 2 ^ 32 → k < 2 ^ 32 → HasKeys (new num_bits k) []
  HasKeys-new num_bits k pos hb hk = record {
    well_formed = new-IsWellFormed num_bits k pos;
    storable =
        unfold new in
        record {
          num_bits_fits = hb;
          hashes_fit = hk;
          exact = length-replicate (bytes_for num_bits) 0;
        };
    has = tt;
  }

  added_one : (f g : BloomFilter) (key : List ℕ) → add f key ≡ ok g → add_keys f (key ∷ []) ≡ ok g
  unfolding add_keys
  added_one f g key e = rw e

  HasKey-add :
      (f g : BloomFilter) (key : List ℕ) (e : Entry)
      → IsWellFormed f
      → add f key ≡ ok g
      → HasKey f e
      → HasKey g e
  HasKey-add f g key e w added h =
      let (g', added', h', w') = contains-add_keys f e.key (key ∷ []) w h in
      let same : g' ≡ g = cc (added_one f g key added, added') in subst (λ z. HasKey z e) same h'

  All-HasKey-add :
      (f g : BloomFilter) (key : List ℕ) (entries : List Entry)
      → IsWellFormed f
      → add f key ≡ ok g
      → All (HasKey f) entries
      → All (HasKey g) entries
  All-HasKey-add f g key [] w added h = tt
  All-HasKey-add f g key (e ∷ entries) w added h =
      (HasKey-add f g key e w added h.0, All-HasKey-add f g key entries w added h.1)

  pub HasKeys-add :
      (f : BloomFilter) (entries : List Entry) (e : Entry)
      → HasKeys f entries
      → (g : BloomFilter) × (add f e.key ≡ ok g) × HasKeys g (entries ++ e ∷ [])
  HasKeys-add f entries e h =
      let w = h.well_formed in
      let (g, added, here, wg) = contains-add f e.key w in
      let same : set_bits f (positions f e.key) ≡ g = cc (add_lem f e.key w, added) in
      (
        g,
        added,
        record {
          well_formed = wg;
          storable = subst IsStorable same (set_bits-IsStorable f (positions f e.key) h.storable);
          has =
              All-append (HasKey g) entries (e ∷ [])
                (All-HasKey-add f g e.key entries w added h.has) (here, tt);
        },
      )

  has_found :
      (f : BloomFilter) (key : List ℕ) (entries : List Entry) (e : Entry)
      → All (HasKey f) entries
      → find_key key entries ≡ some e
      → contains f key ≡ ok true
  unfolding find_key
  has_found f key [] e has h = cc
  has_found f key (x ∷ entries) e has h = elim (Bool-cases (key_eq key x.key)) [
    | inl same ↦ subst (λ k. contains f k ≡ ok true) (sym (eq_of_key_eq key x.key same)) has.0
    | inr other ↦ let h' = rw other at h in has_found f key entries e has.1 h'
  ]

  pub HasKeys-contains :
      (f : BloomFilter) (entries : List Entry) (key : List ℕ)
      → HasKeys f entries
      → (maybe : Bool) × (contains f key ≡ ok maybe)
        × ((e : Entry) → find_key key entries ≡ some e → maybe ≡ true)
  HasKeys-contains f entries key h =
      let c = contains_lem f key h.well_formed in
      (all_set f (positions f key), c, λ e found. cc (c, has_found f key entries e h.has found))
