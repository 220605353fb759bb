-- ===== src/Sstable/Bloom/Membership.antt =====
-- A filter answers `true` for every key that was added to it.
use cityhall.Base.{ℕ, zero, suc, ◌<◌, ◌≡◌, refl, sym, ◌∙◌, subst, arith}
use cityhall.Base.{List, [], ◌∷◌, ◌++◌, All, Bool, true, ◌&&◌}
use cityhall.Types.{Result, ok, ◌>>=◌}
use cityhall.Sstable.Bloom.{
  BloomFilter, KeyHasher, set_bit, get_bit, double_hash, set_bits, all_set, hash, contains, add,
}
use cityhall.Sstable.Bloom.Bits.{
  IsWellFormed, set_bit-IsWellFormed, num_bits-set_bit, num_hashes-set_bit, get_bit-set_bit_self,
  get_bit-set_bit,
}

double_hash_bounds :
    (h1 h2 num_bits i count : ℕ)
    → 0 < num_bits
    → All (λ pos. pos < num_bits) (double_hash h1 h2 num_bits i count)
unfolding double_hash
double_hash_bounds h1 h2 num_bits i zero h = tt
double_hash_bounds h1 h2 num_bits i (suc count) h =
    (omega arith, double_hash_bounds h1 h2 num_bits (suc i) count h)

pub set_bits-IsWellFormed :
    (f : BloomFilter) (hashes : List ℕ) → IsWellFormed f → IsWellFormed (set_bits f hashes)
unfolding set_bits
set_bits-IsWellFormed f [] w = w
set_bits-IsWellFormed f (pos ∷ hashes) w =
    set_bits-IsWellFormed (set_bit f pos) hashes (set_bit-IsWellFormed f pos w)

-- The sizes of a filter stay.
pub sizes-set_bits :
    (f : BloomFilter) (hashes : List ℕ)
    → ((set_bits f hashes).num_bits ≡ f.num_bits)
      × ((set_bits f hashes).num_hash_functions ≡ f.num_hash_functions)
unfolding set_bits
sizes-set_bits f [] = (refl, refl)
sizes-set_bits f (pos ∷ hashes) =
    let (a, b) = sizes-set_bits (set_bit f pos) hashes in
    (a ∙ num_bits-set_bit f pos, b ∙ num_hashes-set_bit f pos)

get_bit-set_bits :
    (f : BloomFilter) (hashes : List ℕ) (q : ℕ)
    → IsWellFormed f
    → get_bit f q ≡ true
    → get_bit (set_bits f hashes) q ≡ true
unfolding set_bits
get_bit-set_bits f [] q w h = h
get_bit-set_bits f (pos ∷ hashes) q w h =
    get_bit-set_bits (set_bit f pos) hashes q (set_bit-IsWellFormed f pos w)
      (get_bit-set_bit f pos q w h)

and_true : (a b : Bool) → (a && b) ≡ true → (a ≡ true) × (b ≡ true)
and_true a b h = ground arith

-- Bits that are all set stay set.
all_set-set_bits_old :
    (f : BloomFilter) (old hashes : List ℕ)
    → IsWellFormed f
    → all_set f old ≡ true
    → all_set (set_bits f hashes) old ≡ true
unfolding all_set
all_set-set_bits_old f [] hashes w h = refl
all_set-set_bits_old f (q ∷ old) hashes w h =
    let (a, b) = and_true (get_bit f q) (all_set f old) h in
    rw (get_bit-set_bits f hashes q w a, all_set-set_bits_old f old hashes w b)

all_set-set_bits_self :
    (f : BloomFilter) (hashes : List ℕ)
    → IsWellFormed f
    → All (λ pos. pos < f.num_bits) hashes
    → all_set (set_bits f hashes) hashes ≡ true
unfolding all_set set_bits
all_set-set_bits_self f [] w h = refl
all_set-set_bits_self f (pos ∷ hashes) w h =
    let g = set_bit f pos in
    let wg = set_bit-IsWellFormed f pos w in
    let same : g.num_bits ≡ f.num_bits = num_bits-set_bit f pos in
    rw (
      get_bit-set_bits g hashes pos wg (get_bit-set_bit_self f pos w h.0),
      all_set-set_bits_self g hashes wg (subst (λ n. All (λ p. p < n) hashes) (sym same) h.1),
    )

module _ ⦃hasher : KeyHasher⦄ where
  abbrev pub positions : BloomFilter → List ℕ → List ℕ
  positions f key =
      double_hash (hasher.hash_fn key 0) (hasher.hash_fn key 1) f.num_bits 0 f.num_hash_functions

  hash_lem : (f : BloomFilter) (key : List ℕ) → IsWellFormed f → hash f key ≡ ok (positions f key)
  unfolding hash
  hash_lem f key w = ground (arith, w.some_bits)

  pub add_lem :
      (f : BloomFilter) (key : List ℕ)
      → IsWellFormed f
      → add f key ≡ ok (set_bits f (positions f key))
  unfolding add
  add_lem f key w = rw (hash_lem f key w)

  pub contains_lem :
      (f : BloomFilter) (key : List ℕ)
      → IsWellFormed f
      → contains f key ≡ ok (all_set f (positions f key))
  unfolding contains
  contains_lem f key w = rw (hash_lem f key w)

  -- The calls of `add` for a list of keys.
  unfoldable pub add_keys : BloomFilter → List (List ℕ) → Result BloomFilter
  add_keys f [] = ok f
  add_keys f (key ∷ keys) = add f key >>= λ g. add_keys g keys

  add_lem_then :
      (f : BloomFilter) (key : List ℕ) (keys : List (List ℕ)) (w : IsWellFormed f) {r : BloomFilter}
      → add_keys (set_bits f (positions f key)) keys ≡ ok r
      → add_keys f (key ∷ keys) ≡ ok r
  unfolding add_keys
  add_lem_then f key keys w e = rw (add_lem f key w) e

  -- A key that the filter has is still there when more are added, and the filter stays well formed.
  pub contains-add_keys :
      (f : BloomFilter) (key : List ℕ) (keys : List (List ℕ))
      → IsWellFormed f
      → contains f key ≡ ok true
      → (g : BloomFilter) × (add_keys f keys ≡ ok g) × (contains g key ≡ ok true) × IsWellFormed g
  unfolding add_keys all_set
  contains-add_keys f key [] w h = (f, refl, h, w)
  contains-add_keys f key (k ∷ keys) w h =
      let g = set_bits f (positions f k) in
      let wg = set_bits-IsWellFormed f (positions f k) w in
      let (s1, s2) = sizes-set_bits f (positions f k) in
      let old : all_set f (positions f key) ≡ true = cc (contains_lem f key w) in
      let kept : contains g key ≡ ok true = rw (
        contains_lem g key wg,
        s1,
        s2,
        all_set-set_bits_old f (positions f key) (positions f k) w old,
      ) in
      let (r, e, c, wr) = contains-add_keys g key keys wg kept in
      (r, add_lem_then f k keys w e, c, wr)

  -- After a key is added the filter has it.
  pub contains-add :
      (f : BloomFilter) (key : List ℕ)
      → IsWellFormed f
      → (g : BloomFilter) × (add f key ≡ ok g) × (contains g key ≡ ok true) × IsWellFormed g
  unfolding all_set
  contains-add f key w =
      let hs = positions f key in
      let g = set_bits f hs in
      let wg = set_bits-IsWellFormed f hs w in
      let (s1, s2) = sizes-set_bits f hs in
      let h1 = hasher.hash_fn key 0 in
      let h2 = hasher.hash_fn key 1 in
      let bounds = double_hash_bounds h1 h2 f.num_bits 0 f.num_hash_functions w.some_bits in
      (
        g,
        add_lem f key w,
        rw (contains_lem g key wg, s1, s2, all_set-set_bits_self f hs w bounds),
        wg,
      )

  -- A well-formed filter to which keys are added one after the other has each of them in the end,
  -- whatever the hash function is; no call panics, and the filter stays well formed.
  pub no_false_negative :
      (f : BloomFilter) (before : List (List ℕ)) (key : List ℕ) (behind : List (List ℕ))
      → IsWellFormed f
      → (g : BloomFilter) × (add_keys f (before ++ key ∷ behind) ≡ ok g)
        × (contains g key ≡ ok true)
        × IsWellFormed g
  no_false_negative f [] key behind w =
      let (g, e1, c, wg) = contains-add f key w in
      let (r, e2, c2, wr) = contains-add_keys g key behind wg c in
      (r, (unfold add_keys in rw e1 e2), c2, wr)
  no_false_negative f (k ∷ before) key behind w =
      let wg = set_bits-IsWellFormed f (positions f k) w in
      let (r, e, c, wr) = no_false_negative (set_bits f (positions f k)) before key behind wg in
      (r, add_lem_then f k (before ++ key ∷ behind) w e, c, wr)
