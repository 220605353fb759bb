-- ===== src/Types/Tables.antt =====
-- The table files of the data directory: the names that src/storage_engine.rs gives them, and the
-- files under their names. The list stands in the order of `read_dir`, which is any order.
use cityhall.Base.{
  ℕ, ◌==◌, if◌then◌else◌, ◌≡◌, List, [], ◌∷◌, Option, none, some, Bool, true, false, ==_self,
}

-- `{:06}.sst` and `{:06}_compacted.sst`.
pub data TableName : Type 0 where
  numbered compacted : ℕ → TableName

unfoldable pub name_eq : TableName → TableName → Bool
name_eq (numbered i) (numbered j) = i == j
name_eq (numbered i) (compacted j) = false
name_eq (compacted i) (numbered j) = false
name_eq (compacted i) (compacted j) = i == j

-- `parse::<u64>` on the stem of the name.
abbrev pub parse_stem : TableName → Option ℕ
parse_stem (numbered i) = some i
parse_stem (compacted i) = none

pub record TableFile : Type 0 where
  pub path : TableName
  pub bytes : List ℕ

abbrev pub DataDir : Type 0
DataDir = List TableFile

unfoldable pub find_table : TableName → DataDir → Option (List ℕ)
unfolding name_eq
find_table path [] = none
find_table path (f ∷ dir) = if name_eq path f.path then some f.bytes else find_table path dir

-- `remove_file`.
unfoldable pub remove_table : TableName → DataDir → DataDir
unfolding name_eq
remove_table path [] = []
remove_table path (f ∷ dir) =
    let rest = remove_table path dir in if name_eq path f.path then rest else f ∷ rest

-- `File::create`, which empties a file that is there, and the bytes that are written to it.
unfoldable pub write_table : TableName → List ℕ → DataDir → DataDir
unfolding remove_table
write_table path bytes dir = record { path = path; bytes = bytes } ∷ remove_table path dir

pub name_eq_self : (path : TableName) → name_eq path path ≡ true
unfolding name_eq
name_eq_self (numbered i) = ==_self i
name_eq_self (compacted i) = ==_self i

pub find_table-write_table :
    (path : TableName) (bytes : List ℕ) (dir : DataDir)
    → find_table path (write_table path bytes dir) ≡ some bytes
unfolding find_table write_table
find_table-write_table path bytes dir = rw (name_eq_self path)
