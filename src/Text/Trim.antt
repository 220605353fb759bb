-- ===== src/Text/Trim.antt =====
-- What trimming and splitting leave of text that was put together.
use cityhall.Base.{
  ℕ, ◌≡◌, refl, ◌∙◌, [], ◌∷◌, ◌++◌, ◌==◌, true, false, none, some, Bool-cases, inl, inr, All,
}
use cityhall.Text.{
  Text, newline, space, is_whitespace, trim_start, trim_end, trim, is_empty, split_space, lines_of,
}

-- Whitespace at the end goes.
pub trim_end-whitespace :
    (text : Text) (c : ℕ) → is_whitespace c ≡ true → trim_end (text ++ c ∷ []) ≡ trim_end text
unfolding trim_end
trim_end-whitespace [] c h = rw h refl
trim_end-whitespace (x ∷ text) c h = rw (trim_end-whitespace text c h) refl

is_empty-append : (before : Text) (c : ℕ) (text : Text) → is_empty (before ++ c ∷ text) ≡ false
is_empty-append [] c text = refl
is_empty-append (x ∷ before) c text = refl

-- What stands before text that does not vanish stays.
pub trim_end-behind :
    (before text : Text) (c : ℕ) (kept : Text)
    → trim_end text ≡ c ∷ kept
    → trim_end (before ++ text) ≡ before ++ c ∷ kept
unfolding trim_end
trim_end-behind [] text c kept h = h
trim_end-behind (x ∷ before) text c kept h =
    rw (trim_end-behind before text c kept h, is_empty-append before c kept)
      (elim (Bool-cases (is_whitespace x)) [
        | inl white ↦ rw white refl
        | inr solid ↦ rw solid refl
      ])

abbrev pub HasNone : ℕ → Text → Type 0
HasNone c text = All (λ x. (x == c) ≡ false) text

pub split_space-found :
    (before behind : Text)
    → HasNone space before
    → split_space (before ++ space ∷ behind) ≡ (before, some behind)
unfolding split_space
split_space-found [] behind h = refl
split_space-found (x ∷ before) behind (first, h) =
    rw (first, split_space-found before behind h) refl

pub split_space-none : (text : Text) → HasNone space text → split_space text ≡ (text, none)
unfolding split_space
split_space-none [] h = refl
split_space-none (x ∷ text) (first, h) = rw (first, split_space-none text h) refl

pub lines_of-line :
    (line behind : Text)
    → HasNone newline line
    → lines_of (line ++ newline ∷ behind) ≡ (line ++ newline ∷ []) ∷ lines_of behind
unfolding lines_of
lines_of-line [] behind h = refl
lines_of-line (x ∷ line) behind (first, h) = rw (first, lines_of-line line behind h) refl

-- A line whose text starts and ends with something else than whitespace, without its newline.
pub trim-line :
    (x : ℕ) (before text : Text) (c : ℕ) (kept : Text)
    → is_whitespace x ≡ false
    → trim_end text ≡ c ∷ kept
    → trim (x ∷ (before ++ (text ++ newline ∷ []))) ≡ x ∷ (before ++ c ∷ kept)
unfolding trim trim_start
trim-line x before text c kept solid h = rw solid (
    trim_end-behind (x ∷ before) (text ++ newline ∷ []) c kept
      (trim_end-whitespace text newline (unfold is_whitespace in refl) ∙ h))
