-- ===== src/Wal/Dir/Order.antt =====
-- The operations on a directory, seen through the order of segment numbers.
use cityhall.Base.{ℕ, ◌+◌, ◌≤◌, ◌<◌, ◌≡◌, refl, ap, ◌∙◌, arith, List, [], ◌∷◌, ◌++◌}
use cityhall.Base.{
  max, All, ltb, leb, ==_iff, ==_ne, Bool-cases, inl, inr, none, false, if◌then◌else◌,
}
use cityhall.Wal.Dir.{
  SegmentFile, SegmentDir, find_file, extend, append_file, open_file, latest_number, delete_below,
  insert_file, sort_files,
}

number-extend : (n : ℕ) (more : List ℕ) (f : SegmentFile) → (extend n more f).number ≡ f.number
number-extend n more f = ground arith

insert_file-append_file :
    (n : ℕ) (more : List ℕ) (f : SegmentFile) (dir : SegmentDir)
    → insert_file (extend n more f) (append_file n more dir)
      ≡ append_file n more (insert_file f dir)
unfolding insert_file append_file
insert_file-append_file n more f [] = refl
insert_file-append_file n more f (g ∷ dir) = elim (Bool-cases (leb f.number g.number)) [
  | inl before ↦ rw (number-extend n more f, number-extend n more g, before)
  | inr after ↦
      rw (number-extend n more f, number-extend n more g, after)
        (ap (λ d. extend n more g ∷ d) (insert_file-append_file n more f dir))
]

-- Writing to a file and sorting do not disturb each other.
pub sort_files-append_file :
    (n : ℕ) (more : List ℕ) (dir : SegmentDir)
    → sort_files (append_file n more dir) ≡ append_file n more (sort_files dir)
unfolding sort_files append_file
sort_files-append_file n more [] = refl
sort_files-append_file n more (f ∷ dir) =
    ap (insert_file (extend n more f)) (sort_files-append_file n more dir)
    ∙ insert_file-append_file n more f (sort_files dir)

module _ (P : SegmentFile → Type 0) where
  All-insert_file :
      (f : SegmentFile) (dir : SegmentDir) → P f → All P dir → All P (insert_file f dir)
  unfolding insert_file
  All-insert_file f [] h all = (h, tt)
  All-insert_file f (g ∷ dir) h all = elim (Bool-cases (leb f.number g.number)) [
    | inl before ↦ rw before (h, all)
    | inr after ↦ rw after (all.0, All-insert_file f dir h all.1)
  ]

  All-of_insert_file :
      (f : SegmentFile) (dir : SegmentDir) → All P (insert_file f dir) → P f × All P dir
  unfolding insert_file
  All-of_insert_file f [] all = all
  All-of_insert_file f (g ∷ dir) all = elim (Bool-cases (leb f.number g.number)) [
    | inl before ↦ rw before at all
    | inr after ↦
        let all' = rw after at all in
        let (h, rest) = All-of_insert_file f dir all'.1 in (h, (all'.0, rest))
  ]

  pub All-sort_files : (dir : SegmentDir) → All P dir → All P (sort_files dir)
  unfolding sort_files
  All-sort_files [] all = all
  All-sort_files (f ∷ dir) all = All-insert_file f (sort_files dir) all.0 (All-sort_files dir all.1)

  pub All-of_sort_files : (dir : SegmentDir) → All P (sort_files dir) → All P dir
  unfolding sort_files
  All-of_sort_files [] all = all
  All-of_sort_files (f ∷ dir) all =
      let (h, rest) = All-of_insert_file f (sort_files dir) all in (h, All-of_sort_files dir rest)

abbrev pub IsBelow : ℕ → SegmentFile → Type 0
IsBelow n f = f.number < n

pub append_file_last :
    (n : ℕ) (more bytes : List ℕ) (closed : SegmentDir)
    → All (IsBelow n) closed
    → append_file n more (closed ++ record { number = n; bytes = bytes } ∷ [])
      ≡ closed ++ record { number = n; bytes = bytes ++ more } ∷ []
unfolding append_file
append_file_last n more bytes [] all = rw ((==_iff n n).1 refl)
append_file_last n more bytes (f ∷ closed) all =
    rw (==_ne f.number n (λ e. absurd (omega arith)))
      (ap (λ d. f ∷ d) (append_file_last n more bytes closed all.1))

insert_file_last :
    (f : SegmentFile) (dir : SegmentDir)
    → All (IsBelow f.number) dir
    → insert_file f dir ≡ dir ++ f ∷ []
unfolding insert_file
insert_file_last f [] all = refl
insert_file_last f (g ∷ dir) all =
    let after : leb f.number g.number ≡ false = ground arith in
    rw after (ap (λ d. g ∷ d) (insert_file_last f dir all.1))

find_file-none : (n : ℕ) (dir : SegmentDir) → All (IsBelow n) dir → find_file n dir ≡ none
unfolding find_file
find_file-none n [] all = refl
find_file-none n (f ∷ dir) all =
    rw (==_ne f.number n (λ e. absurd (omega arith))) (find_file-none n dir all.1)

open_file_new :
    (n : ℕ) (dir : SegmentDir)
    → All (IsBelow n) dir
    → open_file n dir ≡ record { number = n; bytes = [] } ∷ dir
unfolding open_file
open_file_new n dir all = rw (find_file-none n dir all, open_file)

-- A new file with the highest number is the last one.
pub sort_files-open_file :
    (n : ℕ) (dir : SegmentDir)
    → All (IsBelow n) dir
    → sort_files (open_file n dir) ≡ sort_files dir ++ record { number = n; bytes = [] } ∷ []
unfolding sort_files
sort_files-open_file n dir all = rw (open_file_new n dir all) (
    insert_file_last (record { number = n; bytes = [] }) (sort_files dir)
      (All-sort_files (IsBelow n) dir all))

pub latest_number_above : (dir : SegmentDir) → All (IsBelow (latest_number dir + 1)) dir
unfolding latest_number
latest_number_above [] = tt
latest_number_above (f ∷ dir) = (
  omega arith,
  All_le (latest_number dir + 1) (max f.number (latest_number dir) + 1) dir (omega arith)
      (latest_number_above dir),
)
  where
    All_le : (m n : ℕ) (d : SegmentDir) → m ≤ n → All (IsBelow m) d → All (IsBelow n) d
    All_le m n [] h all = tt
    All_le m n (g ∷ d) h all = (omega arith, All_le m n d h all.1)

insert_file-delete_below :
    (n : ℕ) (f : SegmentFile) (dir : SegmentDir)
    → delete_below n (insert_file f dir)
      ≡ (if ltb f.number n then delete_below n dir else insert_file f (delete_below n dir))
unfolding insert_file delete_below
insert_file-delete_below n f [] = refl
insert_file-delete_below n f (g ∷ dir) = ground (arith, insert_file-delete_below n f dir)

-- Deleting old files and sorting do not disturb each other.
pub sort_files-delete_below :
    (n : ℕ) (dir : SegmentDir) → sort_files (delete_below n dir) ≡ delete_below n (sort_files dir)
unfolding sort_files delete_below
sort_files-delete_below n [] = refl
sort_files-delete_below n (f ∷ dir) =
    ground (arith, insert_file-delete_below n f (sort_files dir), sort_files-delete_below n dir)
