-- ===== src/Compaction/Take.antt =====
-- Taking an entry from the heap of a merge: it is written, or its key has been.
use cityhall.Base.{
  ℕ, ◌+◌, ◌≤◌, ◌≡◌, refl, sym, ap, ◌∙◌, subst, arith, List, [], ◌∷◌, ◌++◌, All, All-append,
}
use cityhall.Base.{Option, some, none, true, false, Bool-cases, inl, inr, Ordering}
use cityhall.Types.{Entry}
use cityhall.Types.Keys.{compare_keys, compare_keys_refl, key_eq}
use cityhall.Types.Entries.{IsAscending, find_key, eq_of_key_eq, key_eq_self}
use cityhall.Compaction.{CompactionEntry, MergeState, is_key, take_entry}
use cityhall.Compaction.Lists.{IsAscending-snoc, find_key_last, find_key-append_some}
use cityhall.Compaction.Heap.{Before, BeforeAll}
use cityhall.Compaction.Invariant.{IsCovered, Front, IsFrom}

-- What was written before an entry was taken, against `written`, with `last` as its last entry.
pub record Taken (tables : List (List Entry)) (s : MergeState) (x : Entry)
    (rest : List CompactionEntry) : Type 0 where
  pub others : List Entry
  pub last : Entry
  pub split : (take_entry x s).written ≡ others ++ last ∷ []
  pub last_key_is : (take_entry x s).last_key ≡ some last.key
  pub same_key : last.key ≡ x.key
  pub first : BeforeAll last rest
  pub ascending : IsAscending (take_entry x s).written
  pub covers : IsCovered (take_entry x s).written x
  pub keeps : (e : Entry) → IsCovered s.written e → IsCovered (take_entry x s).written e
  pub sources : All (IsFrom tables) (take_entry x s).written

abbrev taken_new : Entry → MergeState → MergeState
taken_new e s = record s {
  written = s.written ++ e ∷ [];
  entries_merged = s.entries_merged + 1;
  last_key = some e.key;
}

abbrev taken_duplicate : MergeState → MergeState
taken_duplicate s = record s { duplicates_removed = s.duplicates_removed + 1 }

take_new :
    (e : Entry) (s : MergeState) → is_key s.last_key e.key ≡ false → take_entry e s ≡ taken_new e s
unfolding take_entry
take_new e s h = rw h

take_duplicate :
    (e : Entry) (s : MergeState)
    → is_key s.last_key e.key ≡ true
    → take_entry e s ≡ taken_duplicate s
unfolding take_entry
take_duplicate e s h = rw h

IsCovered-last :
    (ws : List Entry) (w x : Entry)
    → IsAscending (ws ++ w ∷ [])
    → w.key ≡ x.key
    → x.timestamp ≤ w.timestamp
    → IsCovered (ws ++ w ∷ []) x
IsCovered-last ws w x asc same older =
    (w, subst (λ k. find_key k (ws ++ w ∷ []) ≡ some w) same (find_key_last ws w asc), older)

-- An entry whose key is the last one that was written is older than what was written.
older_of_Before : (w x : Entry) → Before w x → w.key ≡ x.key → x.timestamp ≤ w.timestamp
older_of_Before w x (inl less) same =
    let no : compare_keys x.key x.key ≡ Ordering.lt =
      subst (λ k. compare_keys k x.key ≡ Ordering.lt) same less in
    cc (compare_keys_refl x.key, no)
older_of_Before w x (inr (same', older)) same = older

lt_of_Before :
    (w x : Entry) → Before w x → key_eq w.key x.key ≡ false → compare_keys w.key x.key ≡ Ordering.lt
lt_of_Before w x (inl less) h = less
lt_of_Before w x (inr (same, older)) h =
    cc (subst (λ k. key_eq w.key k ≡ true) same (key_eq_self w.key), h)

Taken-new :
    (tables : List (List Entry)) (s : MergeState) (x : Entry) (rest : List CompactionEntry)
    → is_key s.last_key x.key ≡ false
    → IsAscending (s.written ++ x ∷ [])
    → BeforeAll x rest
    → All (IsFrom tables) s.written
    → IsFrom tables x
    → Taken tables s x rest
Taken-new tables s x rest new asc first sources from =
    let e = take_new x s new in
    let written_is : (take_entry x s).written ≡ s.written ++ x ∷ [] = ap (λ z. z.written) e in
    record {
      others = s.written;
      last = x;
      split = written_is;
      last_key_is = ap (λ z. z.last_key) e;
      same_key = refl;
      first = first;
      ascending = subst IsAscending (sym written_is) asc;
      covers =
          subst (λ l. IsCovered l x) (sym written_is)
            (IsCovered-last s.written x x asc refl (omega arith));
      keeps = λ f (w, found, older).
          subst (λ l. IsCovered l f) (sym written_is)
            (w, find_key-append_some f.key s.written (x ∷ []) w found, older);
      sources =
          subst (All (IsFrom tables)) (sym written_is)
            (All-append (IsFrom tables) s.written (x ∷ []) sources (from, tt));
    }

Taken-duplicate :
    (tables : List (List Entry)) (s : MergeState) (x : Entry) (rest : List CompactionEntry)
    (ws : List Entry) (w : Entry)
    → is_key s.last_key x.key ≡ true
    → s.last_key ≡ some w.key
    → s.written ≡ ws ++ w ∷ []
    → IsAscending s.written
    → w.key ≡ x.key
    → Before w x
    → BeforeAll w rest
    → All (IsFrom tables) s.written
    → Taken tables s x rest
Taken-duplicate tables s x rest ws w old last split asc same before first sources =
    let e = take_duplicate x s old in
    let written_is : (take_entry x s).written ≡ s.written = ap (λ z. z.written) e in
    record {
      others = ws;
      last = w;
      split = written_is ∙ split;
      last_key_is = ap (λ z. z.last_key) e ∙ last;
      same_key = same;
      first = first;
      ascending = subst IsAscending (sym written_is) asc;
      covers =
          subst (λ l. IsCovered l x) (sym (written_is ∙ split))
            (IsCovered-last ws w x (subst IsAscending split asc) same
              (older_of_Before w x before same));
      keeps = λ f c. subst (λ l. IsCovered l f) (sym written_is) c;
      sources = subst (All (IsFrom tables)) (sym written_is) sources;
    }

pub take_entry-Taken :
    (tables : List (List Entry)) (s : MergeState) (x : CompactionEntry)
    (rest : List CompactionEntry) (last : Option (List ℕ))
    → s.last_key ≡ last
    → Front last s.written (x ∷ rest)
    → IsAscending s.written
    → BeforeAll x.entry rest
    → All (IsFrom tables) s.written
    → IsFrom tables x.entry
    → Taken tables s x.entry rest
take_entry-Taken tables s x rest none e none_yet asc first sources from =
    let new : is_key s.last_key x.entry.key ≡ false = rw e in
    Taken-new tables s x.entry rest new
      (subst (λ l. IsAscending (l ++ x.entry ∷ [])) (sym none_yet) tt) first sources from
take_entry-Taken tables s x rest (some key) e (ws, w, split, last, (before, behind)) asc first
      sources from =
    let last_is : s.last_key ≡ some w.key = e ∙ ap some (sym last) in
    elim (Bool-cases (key_eq w.key x.entry.key)) [
      | inl same ↦
          let old : is_key s.last_key x.entry.key ≡ true = rw last_is same in
          Taken-duplicate tables s x.entry rest ws w old last_is split asc
            (eq_of_key_eq w.key x.entry.key same) before behind sources
      | inr other ↦
          let new : is_key s.last_key x.entry.key ≡ false = rw last_is other in
          let less = lt_of_Before w x.entry before other in
          let asc' : IsAscending (s.written ++ x.entry ∷ []) =
            subst (λ l. IsAscending (l ++ x.entry ∷ [])) (sym split)
              (IsAscending-snoc ws w x.entry (subst IsAscending split asc) less) in
          Taken-new tables s x.entry rest new asc' first sources from
    ]
