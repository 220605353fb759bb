-- ===== src/Wal/Dir.antt =====
-- The directory of segment files that src/wal.rs works on. A file is known by the number in its name,
-- and the list stands in the order of `read_dir`, which is any order.
pub mod Order
use cityhall.Base.{
  ℕ, ◌+◌, max, List, [], ◌∷◌, ◌++◌, length, ltb, leb, ◌==◌, if◌then◌else◌, Option, none, some,
}

pub record SegmentFile : Type 0 where
  pub number : ℕ
  pub bytes : List ℕ

abbrev pub SegmentDir : Type 0
SegmentDir = List SegmentFile

unfoldable pub find_file : ℕ → SegmentDir → Option SegmentFile
find_file n [] = none
find_file n (f ∷ dir) = if f.number == n then some f else find_file n dir

abbrev pub extend : ℕ → List ℕ → SegmentFile → SegmentFile
extend n more f = if f.number == n then record f { bytes = f.bytes ++ more } else f

-- `write_all` on a file that is open for appending.
unfoldable pub append_file : ℕ → List ℕ → SegmentDir → SegmentDir
append_file n more [] = []
append_file n more (f ∷ dir) = extend n more f ∷ append_file n more dir

-- Opening with `create` and `append`.
unfoldable pub open_file : ℕ → SegmentDir → SegmentDir
unfolding find_file
open_file n dir = elim (find_file n dir) [
  | none ↦ record { number = n; bytes = [] } ∷ dir
  | some f ↦ dir
]

-- `find_latest_segment_number`.
unfoldable pub latest_number : SegmentDir → ℕ
latest_number [] = 0
latest_number (f ∷ dir) = max f.number (latest_number dir)

-- The files that a cleanup leaves.
unfoldable pub delete_below : ℕ → SegmentDir → SegmentDir
delete_below n [] = []
delete_below n (f ∷ dir) =
    let rest = delete_below n dir in if ltb f.number n then rest else f ∷ rest

-- `sort_by_key` on the number.
unfoldable pub insert_file : SegmentFile → SegmentDir → SegmentDir
insert_file f [] = f ∷ []
insert_file f (g ∷ dir) =
    let rest = insert_file f dir in if leb f.number g.number then f ∷ g ∷ dir else g ∷ rest

unfoldable pub sort_files : SegmentDir → SegmentDir
unfolding insert_file
sort_files [] = []
sort_files (f ∷ dir) = insert_file f (sort_files dir)

unfoldable pub total_size : SegmentDir → ℕ
total_size [] = 0
total_size (f ∷ dir) = length f.bytes + total_size dir

-- The numbers below a number, ascending: `list_closed_segments` on a sorted directory.
unfoldable pub numbers_below : ℕ → SegmentDir → List ℕ
numbers_below n [] = []
numbers_below n (f ∷ dir) =
    let rest = numbers_below n dir in if ltb f.number n then f.number ∷ rest else rest
