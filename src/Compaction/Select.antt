-- ===== src/Compaction/Select.antt =====
-- Which tables a compaction selects.
pub mod Best
use cityhall.Base.{
  suc, ◌+◌, ◌<◌, ◌++◌, length-append, append_assoc, sym, ap, ◌∙◌, subst, le→leb, ltb→lt,
}
use cityhall.Base.{
  ℕ, ◌*◌, ◌≤◌, ◌≡◌, ◌⊎◌, refl, arith, List, [], ◌∷◌, length, All, ltb, leb, leb→le, Bool-cases, inl,
  inr, ◌&&◌,
}
use cityhall.Compaction.{
  SizedPath, insert_by_size, sort_by_size, is_similar, group_from, best_group_of,
  select_sstables_for_compaction,
}

-- From a base on, up to one and a half times of it.
abbrev pub IsSimilar : ℕ → SizedPath → Type 0
IsSimilar base p = (base ≤ p.size) × (2 * p.size ≤ 3 * base)

abbrev AtLeast : ℕ → List SizedPath → Type 0
AtLeast n paths = All (λ p. n ≤ p.size) paths

abbrev pub IsBySize : List SizedPath → Type 0
IsBySize [] = Unit
IsBySize (p ∷ paths) = AtLeast p.size paths × IsBySize paths

-- A group that may be compacted: there are enough of them, and all are similar to the smallest.
pub record IsGroup (min_sstables : ℕ) (group : List SizedPath) : Type 0 where
  pub base : ℕ
  pub enough : min_sstables ≤ length group
  pub similar : All (IsSimilar base) group

AtLeast-le : (m n : ℕ) (paths : List SizedPath) → m ≤ n → AtLeast n paths → AtLeast m paths
AtLeast-le m n [] h a = tt
AtLeast-le m n (p ∷ paths) h (a, rest) = (omega arith, AtLeast-le m n paths h rest)

insert-AtLeast :
    (n : ℕ) (p : SizedPath) (paths : List SizedPath)
    → n ≤ p.size
    → AtLeast n paths
    → AtLeast n (insert_by_size p paths)
unfolding insert_by_size
insert-AtLeast n p [] h a = (h, tt)
insert-AtLeast n p (q ∷ paths) h (a, rest) = elim (Bool-cases (leb p.size q.size)) [
  | inl before ↦ rw before (h, (a, rest))
  | inr after ↦ rw after (a, insert-AtLeast n p paths h rest)
]

insert-IsBySize :
    (p : SizedPath) (paths : List SizedPath) → IsBySize paths → IsBySize (insert_by_size p paths)
unfolding insert_by_size
insert-IsBySize p [] s = (tt, tt)
insert-IsBySize p (q ∷ paths) (a, s) = elim (Bool-cases (leb p.size q.size)) [
  | inl before ↦
      let le = leb→le _ _ before in rw before ((le, AtLeast-le p.size q.size paths le a), (a, s))
  | inr after ↦
      let le : q.size ≤ p.size = ground arith in
      rw after (insert-AtLeast q.size p paths le a, insert-IsBySize p paths s)
]

pub sort-IsBySize : (paths : List SizedPath) → IsBySize (sort_by_size paths)
unfolding sort_by_size
sort-IsBySize [] = tt
sort-IsBySize (p ∷ paths) = insert-IsBySize p (sort_by_size paths) (sort-IsBySize paths)

group_from-IsSimilar :
    (base : ℕ) (paths : List SizedPath)
    → AtLeast base paths
    → All (IsSimilar base) (group_from base paths)
unfolding group_from
group_from-IsSimilar base [] a = tt
group_from-IsSimilar base (p ∷ paths) (a, rest) = elim (Bool-cases (is_similar base p.size)) [
  | inl near ↦ let le = leb→le _ _ near in rw near ((a, le), group_from-IsSimilar base paths rest)
  | inr far ↦ rw far tt
]

-- Nothing, or a group that may be compacted.
abbrev pub IsSelection : ℕ → List SizedPath → Type 0
IsSelection min_sstables best = (best ≡ []) ⊎ IsGroup min_sstables best

pub best_group_of-IsSelection :
    (m : ℕ) (paths best : List SizedPath)
    → IsBySize paths
    → IsSelection m best
    → IsSelection m (best_group_of m paths best)
unfolding best_group_of
best_group_of-IsSelection m [] best s h = h
best_group_of-IsSelection m (p ∷ paths) best (a, s) h =
    let group = p ∷ group_from p.size paths in
    elim (Bool-cases (leb m (length group) && ltb (length best) (length group))) [
      | inl better ↦
          let enough : m ≤ length group = ground arith in
          let near = group_from-IsSimilar p.size paths a in
          rw better (
            best_group_of-IsSelection m paths group s (
              inr (record {
                base = p.size;
                enough = enough;
                similar = ((omega arith, omega arith), near);
              })))
      | inr kept ↦ rw kept (best_group_of-IsSelection m paths best s h)
    ]
