-- ===== src/Compaction/Lists.antt =====
-- Ascending lists at their end and at a place, and the entries that a merge has still to take.
use cityhall.Base.{
  ℕ, zero, suc, ◌+◌, ◌-◌, ◌<◌, ◌≡◌, ap, ◌∙◌, subst, arith, List, [], ◌∷◌, ◌++◌, length, get_elem?,
  get_or, set, some, true, Bool-cases, inl, inr, Ordering,
}
use cityhall.Types.{Entry}
use cityhall.Types.Keys.{compare_keys, compare_keys_refl, key_eq, key_le}
use cityhall.Types.Entries.{AscendingFrom, IsAscending, find_key, key_eq_self}
use cityhall.Types.Entries.Append.{find_key-append_left, find_key_above}

pub IsAscending-snoc :
    (ws : List Entry) (w e : Entry)
    → IsAscending (ws ++ w ∷ [])
    → compare_keys w.key e.key ≡ Ordering.lt
    → IsAscending ((ws ++ w ∷ []) ++ e ∷ [])
IsAscending-snoc [] w e asc h = (h, tt)
IsAscending-snoc (x ∷ ws) w e asc h = from x.key ws w e asc h
  where
    from :
        (p : List ℕ) (ws : List Entry) (w e : Entry)
        → AscendingFrom p (ws ++ w ∷ [])
        → compare_keys w.key e.key ≡ Ordering.lt
        → AscendingFrom p ((ws ++ w ∷ []) ++ e ∷ [])
    from p [] w e asc h = (asc.0, (h, tt))
    from p (x ∷ ws) w e asc h = (asc.0, from x.key ws w e asc.1 h)

-- The last entry of an ascending list is found under its key.
pub find_key_last :
    (ws : List Entry) (w : Entry)
    → IsAscending (ws ++ w ∷ [])
    → find_key w.key (ws ++ w ∷ []) ≡ some w
unfolding find_key
find_key_last ws w asc =
    let le : key_le w.key w.key ≡ true = rw (compare_keys_refl w.key) in
    find_key-append_left w.key ws (w ∷ []) (find_key_above w.key ws w [] asc le)
    ∙ rw (key_eq_self w.key)

pub find_key-append_some :
    (key : List ℕ) (xs ys : List Entry) (e : Entry)
    → find_key key xs ≡ some e
    → find_key key (xs ++ ys) ≡ some e
unfolding find_key
find_key-append_some key [] ys e h = cc
find_key-append_some key (x ∷ xs) ys e h = elim (Bool-cases (key_eq key x.key)) [
  | inl here ↦ let h' = rw here at h in rw here h'
  | inr there ↦ let h' = rw there at h in rw there (find_key-append_some key xs ys e h')
]

pub ascending_at :
    (t : List Entry) (i : ℕ) (a b : Entry)
    → IsAscending t
    → get_elem? t i ≡ some a
    → get_elem? t (suc i) ≡ some b
    → compare_keys a.key b.key ≡ Ordering.lt
ascending_at [] i a b asc ha hb = cc
ascending_at (x ∷ []) zero a b asc ha hb = cc
ascending_at (x ∷ y ∷ t) zero a b asc ha hb =
    let sa : x ≡ a = ground arith in
    let sb : y ≡ b = ground arith in
    subst (λ z. compare_keys z.key b.key ≡ Ordering.lt) sa
      (subst (λ z. compare_keys x.key z.key ≡ Ordering.lt) sb asc.0)
ascending_at (x ∷ []) (suc i) a b asc ha hb = cc
ascending_at (x ∷ y ∷ t) (suc i) a b asc ha hb = ascending_at (y ∷ t) i a b asc.1 ha hb

-- How many entries the tables have from their positions on.
abbrev pub remaining : List (List Entry) → List ℕ → ℕ
remaining [] positions = 0
remaining (t ∷ tables) [] = length t + remaining tables []
remaining (t ∷ tables) (p ∷ positions) = (length t - p) + remaining tables positions

pub remaining-set :
    (tables : List (List Entry)) (positions : List ℕ) (id : ℕ) (t : List Entry)
    → length positions ≡ length tables
    → get_elem? tables id ≡ some t
    → get_or positions id 0 < length t
    → suc (remaining tables (set positions id (get_or positions id 0 + 1)))
      ≡ remaining tables positions
remaining-set [] positions id t n h k = cc
remaining-set (u ∷ tables) [] id t n h k = absurd (omega arith)
remaining-set (u ∷ tables) (p ∷ positions) zero t n h k =
    let same : u ≡ t = ground arith in
    let long : length u ≡ length t = ap length same in omega arith
remaining-set (u ∷ tables) (p ∷ positions) (suc id) t n h k =
    omega (arith, remaining-set tables positions id t (omega arith) h k)
