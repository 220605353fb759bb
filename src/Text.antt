-- ===== src/Text.antt =====
-- Text as the source's `str`: the list of its characters, as numbers. What src/commands/server.rs and
-- src/commands/client.rs use of the standard library on text.
pub mod Trim
pub mod Decimal
use Prim.Native.Char.{code}
use Prim.Native.String.{String}
use cityhall.Base.{
  ℕ, ◌-◌, List, [], ◌∷◌, ◌++◌, leb, ◌==◌, if◌then◌else◌, Bool, true, false, ◌&&◌, ◌||◌, Option,
  none, some, ◌≡◌,
}

abbrev pub Text : Type 0
Text = List ℕ

-- The characters of a literal.
abbrev pub codes : String → Text
codes String.[] = []
codes (String.◌∷◌ c s) = code c ∷ codes s

abbrev pub newline : ℕ
newline = 10

abbrev pub space : ℕ
space = 32

-- The property White_Space of Unicode.
unfoldable pub is_whitespace : ℕ → Bool
is_whitespace c =
    (leb 9 c && leb c 13)
    || (c == 32)
    || (c == 133)
    || (c == 160)
    || (c == 5760)
    || (leb 8192 c && leb c 8202)
    || (c == 8232)
    || (c == 8233)
    || (c == 8239)
    || (c == 8287)
    || (c == 12288)

unfoldable pub trim_start : Text → Text
unfolding is_whitespace
trim_start [] = []
trim_start (c ∷ text) = let rest = trim_start text in if is_whitespace c then rest else c ∷ text

abbrev pub is_empty : Text → Bool
is_empty [] = true
is_empty (c ∷ text) = false

unfoldable pub trim_end : Text → Text
unfolding is_whitespace
trim_end [] = []
trim_end (c ∷ text) =
    let rest = trim_end text in if is_whitespace c && is_empty rest then [] else c ∷ rest

unfoldable pub trim : Text → Text
unfolding trim_start trim_end
trim text = trim_end (trim_start text)

-- `to_uppercase` on ASCII letters. Another letter stays: none of them becomes a letter of a command.
unfoldable pub to_uppercase : Text → Text
to_uppercase [] = []
to_uppercase (c ∷ text) =
    let rest = to_uppercase text in if leb 97 c && leb c 122 then (c - 32) ∷ rest else c ∷ rest

-- What is before the first space, and what is behind it if there is one.
abbrev pub add_front : ℕ → Text × Option Text → Text × Option Text
add_front c (part, rest) = (c ∷ part, rest)

unfoldable pub split_space : Text → Text × Option Text
split_space [] = ([], none)
split_space (c ∷ text) =
    let rest = split_space text in if c == space then ([], some text) else add_front c rest

-- `strip_prefix`.
unfoldable pub strip_prefix : Text → Text → Option Text
strip_prefix [] text = some text
strip_prefix (p ∷ prefix) [] = none
strip_prefix (p ∷ prefix) (c ∷ text) =
    let rest = strip_prefix prefix text in if p == c then rest else none

-- A character in front of the first line.
abbrev pub add_to_first : ℕ → List Text → List Text
add_to_first c [] = (c ∷ []) ∷ []
add_to_first c (line ∷ lines) = (c ∷ line) ∷ lines

-- What `read_line` returns, call after call, up to the end of the input: each line with its newline.
unfoldable pub lines_of : Text → List Text
lines_of [] = []
lines_of (c ∷ text) =
    let rest = lines_of text in if c == newline then (c ∷ []) ∷ rest else add_to_first c rest

-- `as_bytes` and `from_utf8_lossy`, of which the source relies on this: a text comes back.
pub record Utf8 : Type 0 where
  pub as_bytes : Text → List ℕ
  pub from_utf8_lossy : List ℕ → Text
  pub lossy-bytes : (text : Text) → from_utf8_lossy (as_bytes text) ≡ text
