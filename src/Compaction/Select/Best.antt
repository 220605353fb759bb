-- ===== src/Compaction/Select/Best.antt =====
-- The best of the tables that a compaction in src/compaction.rs may select.
use mathlib.Core.List.{Perm}
use mathlib.Core.List.Perm
use cityhall.Base.{
  ℕ, suc, ◌*◌, ◌≤◌, ◌<◌, ◌≡◌, refl, sym, ap, ◌∙◌, subst, arith, List, [], ◌∷◌, ◌++◌, length,
  length-append, append_assoc, All, ltb, leb, le→leb, ltb→lt, Bool-cases, inl, inr, ◌&&◌,
}
use cityhall.Compaction.{
  SizedPath, insert_by_size, sort_by_size, is_similar, group_from, best_group_of,
  select_sstables_for_compaction,
}
use cityhall.Compaction.Select.{
  IsSimilar, IsBySize, sort-IsBySize, IsSelection, best_group_of-IsSelection,
}

length-insert_by_size :
    (p : SizedPath) (paths : List SizedPath) → length (insert_by_size p paths) ≡ suc (length paths)
unfolding insert_by_size
length-insert_by_size p [] = refl
length-insert_by_size p (q ∷ paths) = elim (Bool-cases (leb p.size q.size)) [
  | inl before ↦ rw before refl
  | inr after ↦ rw after (ap suc (length-insert_by_size p paths))
]

length-sort_by_size : (paths : List SizedPath) → length (sort_by_size paths) ≡ length paths
unfolding sort_by_size
length-sort_by_size [] = refl
length-sort_by_size (p ∷ paths) =
    length-insert_by_size p (sort_by_size paths) ∙ ap suc (length-sort_by_size paths)

group_from-prefix :
    (base : ℕ) (paths : List SizedPath)
    → (rest : List SizedPath) × (paths ≡ group_from base paths ++ rest)
unfolding group_from
group_from-prefix base [] = ([], refl)
group_from-prefix base (p ∷ paths) = elim (Bool-cases (is_similar base p.size)) [
  | inl near ↦ let (rest, e) = group_from-prefix base paths in (rest, rw near (ap (λ l. p ∷ l) e))
  | inr far ↦ (p ∷ paths, rw far refl)
]

-- A part of the list, in one piece.
abbrev IsPlaced : List SizedPath → List SizedPath → Type 0
IsPlaced sorted best = (before behind : List SizedPath) × (sorted ≡ before ++ (best ++ behind))

best_group_of-IsPlaced :
    (m : ℕ) (sorted front paths best : List SizedPath)
    → sorted ≡ front ++ paths
    → IsPlaced sorted best
    → IsPlaced sorted (best_group_of m paths best)
unfolding best_group_of
best_group_of-IsPlaced m sorted front [] best e h = h
best_group_of-IsPlaced m sorted front (p ∷ paths) best e h =
    let group = p ∷ group_from p.size paths in
    let (rest, split) = group_from-prefix p.size paths in
    let next : sorted ≡ (front ++ p ∷ []) ++ paths = e ∙ sym (append_assoc front (p ∷ []) paths) in
    elim (Bool-cases (leb m (length group) && ltb (length best) (length group))) [
      | inl better ↦ rw better (
          best_group_of-IsPlaced m sorted (front ++ p ∷ []) paths group next
            (front, rest, e ∙ ap (λ l. front ++ p ∷ l) split))
      | inr kept ↦ rw kept (best_group_of-IsPlaced m sorted (front ++ p ∷ []) paths best next h)
    ]

best_group_of_grows :
    (m : ℕ) (paths best : List SizedPath) → length best ≤ length (best_group_of m paths best)
unfolding best_group_of
best_group_of_grows m [] best = omega arith
best_group_of_grows m (p ∷ paths) best =
    let group = p ∷ group_from p.size paths in
    elim (Bool-cases (leb m (length group) && ltb (length best) (length group))) [
      | inl better ↦
          let less : length best < length group = ground arith in
          let grows = best_group_of_grows m paths group in rw better (omega arith)
      | inr kept ↦ rw kept (best_group_of_grows m paths best)
    ]

length-group_from :
    (base : ℕ) (group rest : List SizedPath)
    → All (IsSimilar base) group
    → length group ≤ length (group_from base (group ++ rest))
unfolding group_from
length-group_from base [] rest all = omega arith
length-group_from base (p ∷ group) rest ((above, near), all) =
    rw (le→leb (2 * p.size) (3 * base) near) (omega (arith, length-group_from base group rest all))

best_group_of_first :
    (m : ℕ) (p : SizedPath) (paths best : List SizedPath) (n : ℕ)
    → m ≤ n
    → n ≤ length (p ∷ group_from p.size paths)
    → n ≤ length (best_group_of m (p ∷ paths) best)
unfolding best_group_of
best_group_of_first m p paths best n enough le =
    let found = p ∷ group_from p.size paths in
    elim (Bool-cases (leb m (length found) && ltb (length best) (length found))) [
      | inl better ↦ let grows = best_group_of_grows m paths found in rw better (omega arith)
      | inr kept ↦
          let grows = best_group_of_grows m paths best in
          let less : length found ≤ length best = ground arith in rw kept (omega arith)
    ]

best_group_of_greatest :
    (m : ℕ) (front : List SizedPath) (p : SizedPath) (group rest best : List SizedPath)
    → All (IsSimilar p.size) group
    → m ≤ length (p ∷ group)
    → length (p ∷ group) ≤ length (best_group_of m (front ++ p ∷ (group ++ rest)) best)
unfolding best_group_of
best_group_of_greatest m [] p group rest best all enough =
    let long = length-group_from p.size group rest all in
    best_group_of_first m p (group ++ rest) best (length (p ∷ group)) enough (omega arith)
best_group_of_greatest m (x ∷ front) p group rest best all enough =
    best_group_of_greatest m front p group rest _ all enough

insert_by_size-Perm :
    (p : SizedPath) (paths : List SizedPath) → Perm (insert_by_size p paths) (p ∷ paths)
unfolding insert_by_size
insert_by_size-Perm p [] = Perm.refl _
insert_by_size-Perm p (q ∷ paths) = elim (Bool-cases (leb p.size q.size)) [
  | inl before ↦ rw before (Perm.refl _)
  | inr after ↦
      rw after (Perm.trans (Perm.cons q (insert_by_size-Perm p paths)) (Perm.swap p q paths))
]

sort_by_size-Perm : (paths : List SizedPath) → Perm (sort_by_size paths) paths
unfolding sort_by_size
sort_by_size-Perm [] = Perm.refl _
sort_by_size-Perm (p ∷ paths) =
    Perm.trans (insert_by_size-Perm p (sort_by_size paths)) (Perm.cons p (sort_by_size-Perm paths))

-- The best selection from some tables: one piece of the tables in the order of their sizes, which is
-- nothing or a group, and as long as every group that is such a piece.
pub record IsBestGroup (min_sstables : ℕ) (paths best : List SizedPath) : Type 0 where
  pub sorted : List SizedPath
  pub permuted : Perm sorted paths
  pub by_size : IsBySize sorted
  pub before : List SizedPath
  pub behind : List SizedPath
  pub placed : sorted ≡ before ++ (best ++ behind)
  pub selection : IsSelection min_sstables best
  pub greatest :
      (front : List SizedPath) (p : SizedPath) (group rest : List SizedPath)
      → sorted ≡ front ++ p ∷ (group ++ rest)
      → All (IsSimilar p.size) group
      → min_sstables ≤ length (p ∷ group)
      → length (p ∷ group) ≤ length best

pieces_shorter :
    (sorted front : List SizedPath) (p : SizedPath) (group rest : List SizedPath)
    → sorted ≡ front ++ p ∷ (group ++ rest)
    → length (p ∷ group) ≤ length sorted
pieces_shorter sorted front p group rest e =
    let n1 = ap length e in
    let n2 = length-append front (p ∷ (group ++ rest)) in
    let n3 = length-append group rest in omega arith

-- From the given tables, each at most once, a compaction selects a piece of them in the order of
-- their sizes: nothing, or as many as were asked for or more, each of a size between that of the
-- smallest and one and a half times it; and no piece that is such a group is longer, so that
-- nothing is selected only where there is no such group.
pub select-IsBestGroup :
    (paths : List SizedPath) (min_sstables : ℕ)
    → IsBestGroup min_sstables paths (select_sstables_for_compaction paths min_sstables)
unfolding select_sstables_for_compaction
select-IsBestGroup paths m =
    let sorted = sort_by_size paths in
    let same : length sorted ≡ length paths = length-sort_by_size paths in
    elim (Bool-cases (ltb (length paths) m)) [
      | inl few ↦ rw few (record {
        sorted = sorted;
        permuted = sort_by_size-Perm paths;
        by_size = sort-IsBySize paths;
        before = [];
        behind = sorted;
        placed = refl;
        selection = inl refl;
        greatest = λ front p group rest e all enough.
            absurd
              (omega (arith, pieces_shorter sorted front p group rest e, ltb→lt _ _ few, same));
      })
      | inr many ↦
          let (before, behind, placed) =
            best_group_of-IsPlaced m sorted [] sorted [] refl ([], sorted, refl) in
          rw many (record {
            sorted = sorted;
            permuted = sort_by_size-Perm paths;
            by_size = sort-IsBySize paths;
            before = before;
            behind = behind;
            placed = placed;
            selection = best_group_of-IsSelection m sorted [] (sort-IsBySize paths) (inl refl);
            greatest = λ front p group rest e all enough.
                subst (λ l. length (p ∷ group) ≤ length (best_group_of m l [])) (sym e)
                  (best_group_of_greatest m front p group rest [] all enough);
          })
    ]
