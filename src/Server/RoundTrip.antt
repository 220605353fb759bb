-- ===== src/Server/RoundTrip.antt =====
-- Requests of src/commands/client.rs as src/commands/server.rs reads them, and replies as the client
-- reads them.
use cityhall.Base.{
  ℕ, ◌≡◌, refl, sym, ap, ap₂, ◌∙◌, [], ◌∷◌, ◌++◌, append_assoc, ◌==◌, false, none, some, All-append,
}
use cityhall.Types.{StorageError}
use cityhall.Types.Keys.{compare_keys}
use cityhall.Text.{
  Text, codes, newline, space, is_whitespace, trim_end, trim, is_empty, split_space, strip_prefix,
  lines_of, Utf8,
}
use cityhall.Text.Trim.{HasNone, split_space-found, split_space-none, lines_of-line, trim-line}
use cityhall.Server.{parts_of, done, found, text_of}
use cityhall.Server.Client.{prints, put_request, get_request, put_ending, get_ending}

-- Text that ends, but not with whitespace.
abbrev pub IsSolid : Text → Type 0
IsSolid text = (trim_end text ≡ text) × (is_empty text ≡ false)

-- A key without spaces and newlines, and a value without newlines, neither of which ends with
-- whitespace or is empty.
pub record IsSendable (key value : Text) : Type 0 where
  pub one_word : HasNone space key
  pub one_line : HasNone newline key
  pub key_ends : IsSolid key
  pub value_line : HasNone newline value
  pub value_ends : IsSolid value

cons_of : (text : Text) → is_empty text ≡ false → (c : ℕ) × (kept : Text) × (text ≡ c ∷ kept)
cons_of [] h = absurd (let k = h in cc)
cons_of (c ∷ text) h = (c, text, refl)

-- A command with an argument that is solid, on its own line.
trim-solid :
    (x : ℕ) (before text : Text)
    → is_whitespace x ≡ false
    → IsSolid text
    → trim (x ∷ (before ++ (text ++ newline ∷ []))) ≡ x ∷ (before ++ text)
trim-solid x before text solid (ends, filled) =
    let (c, kept, e) = cons_of text filled in
    trim-line x before text c kept solid (ends ∙ e) ∙ ap (λ t. x ∷ (before ++ t)) (sym e)

put_request-line :
    (key value : Text)
    → put_request key value ≡ (codes "PUT " ++ (key ++ space ∷ value)) ++ newline ∷ []
unfolding put_request
put_request-line key value =
    ap (λ t. codes "PUT " ++ t) (sym (append_assoc key (space ∷ value) (newline ∷ [])))

-- What the server splits.
put_request-trimmed :
    (key value : Text)
    → IsSolid value
    → trim (put_request key value) ≡ codes "PUT " ++ (key ++ space ∷ value)
unfolding put_request
put_request-trimmed key value solid =
    let rest = codes "UT " ++ (key ++ space ∷ []) in
    let whole : put_request key value ≡ 80 ∷ (rest ++ (value ++ newline ∷ [])) =
      ap (λ t. codes "PUT " ++ t) (sym (append_assoc key (space ∷ []) (value ++ newline ∷ []))) in
    ap trim whole
    ∙ trim-solid 80 rest value (unfold is_whitespace in refl) solid
    ∙ ap (λ t. codes "PUT " ++ t) (append_assoc key (space ∷ []) value)

parts_of-put :
    (first behind : Text)
    → HasNone space first
    → parts_of (codes "PUT " ++ (first ++ space ∷ behind))
      ≡ record { command = codes "PUT"; key = some first; value = some behind }
unfolding parts_of
parts_of-put first behind word =
    let command : split_space (codes "PUT " ++ (first ++ space ∷ behind))
        ≡ (codes "PUT", some (first ++ space ∷ behind)) =
      split_space-found (codes "PUT") (first ++ space ∷ behind) (refl, (refl, (refl, tt))) in
    rw (command, split_space-found first behind word)

pub parts_of-put_request :
    (key value : Text)
    → IsSendable key value
    → parts_of (trim (put_request key value))
      ≡ record { command = codes "PUT"; key = some key; value = some value }
parts_of-put_request key value s =
    ap parts_of (put_request-trimmed key value s.value_ends) ∙ parts_of-put key value s.one_word

line_of-put_request :
    (key value : Text)
    → HasNone newline key
    → HasNone newline value
    → lines_of (put_request key value) ≡ put_request key value ∷ []
line_of-put_request key value one_line value_line =
    let text = codes "PUT " ++ (key ++ space ∷ value) in
    let words : HasNone newline text =
      All-append (λ x. (x == newline) ≡ false) (codes "PUT ") (key ++ space ∷ value)
        (refl, (refl, (refl, (refl, tt))))
        (All-append (λ x. (x == newline) ≡ false) key (space ∷ value) one_line
          (refl, value_line)) in
    let nothing : lines_of [] ≡ [] = unfold lines_of in refl in
    let line = put_request-line key value in
    ap lines_of line ∙ lines_of-line text [] words ∙ ap₂ (λ l r. l ∷ r) (sym line) nothing

-- A put whose key has a space in it, where key and value have no newlines and the value is not
-- empty and does not end with whitespace, is one line, which is read as a put of the part before
-- the first space of the key; what is behind it goes to the value.
pub put_request-space :
    (first more value : Text)
    → HasNone space first
    → HasNone newline (first ++ space ∷ more)
    → HasNone newline value
    → IsSolid value
    → (lines_of (put_request (first ++ space ∷ more) value)
        ≡ put_request (first ++ space ∷ more) value ∷ [])
      × (parts_of (trim (put_request (first ++ space ∷ more) value)) ≡ record {
        command = codes "PUT";
        key = some first;
        value = some (more ++ space ∷ value);
      })
put_request-space first more value word one_line value_line solid = (
  line_of-put_request (first ++ space ∷ more) value one_line value_line,
  ap parts_of (
        put_request-trimmed (first ++ space ∷ more) value solid
        ∙ ap (λ t. codes "PUT " ++ t) (append_assoc first (space ∷ more) (space ∷ value)))
      ∙ parts_of-put first (more ++ space ∷ value) word,
)

pub parts_of-get_request :
    (key : Text)
    → HasNone space key
    → IsSolid key
    → parts_of (trim (get_request key))
      ≡ record { command = codes "GET"; key = some key; value = none }
unfolding get_request parts_of
parts_of-get_request key word solid =
    let trimmed : trim (get_request key) ≡ codes "GET " ++ key =
      trim-solid 71 (codes "ET ") key (unfold is_whitespace in refl) solid in
    let command : split_space (codes "GET " ++ key) ≡ (codes "GET", some key) =
      split_space-found (codes "GET") key (refl, (refl, (refl, tt))) in
    rw (trimmed, command, split_space-none key word)

-- Both requests, one after the other, are two lines.
pub lines_of-requests :
    (key value : Text)
    → IsSendable key value
    → lines_of (put_request key value ++ get_request key)
      ≡ put_request key value ∷ get_request key ∷ []
lines_of-requests key value s =
    let words : HasNone newline (codes "PUT " ++ (key ++ space ∷ value)) =
      All-append (λ x. (x == newline) ≡ false) (codes "PUT ") (key ++ space ∷ value)
        (refl, (refl, (refl, (refl, tt))))
        (All-append (λ x. (x == newline) ≡ false) key (space ∷ value) s.one_line
          (refl, s.value_line)) in
    let asked : HasNone newline (codes "GET " ++ key) =
      All-append (λ x. (x == newline) ≡ false) (codes "GET ") key (refl, (refl, (refl, (refl, tt))))
        s.one_line in
    let line = put_request-line key value in
    let nothing : lines_of [] ≡ [] = unfold lines_of in refl in
    let behind : lines_of (get_request key) ≡ get_request key ∷ [] =
      unfold get_request in
      lines_of-line (codes "GET " ++ key) [] asked ∙ ap (λ l. get_request key ∷ l) nothing in
    let text = codes "PUT " ++ (key ++ space ∷ value) in
    ap (λ t. lines_of (t ++ get_request key)) line
    ∙ ap lines_of (append_assoc text (newline ∷ []) (get_request key))
    ∙ lines_of-line text (get_request key) words
    ∙ ap₂ (λ l r. l ∷ r) (sym line) behind

module _ ⦃utf8 : Utf8⦄ where
  -- The client prints the value that the server found.
  pub get_ending-found :
      (words : StorageError → Text) (value : Text)
      → IsSolid value
      → get_ending (text_of words (found (utf8.as_bytes value))) ≡ prints value
  unfolding get_ending text_of strip_prefix
  get_ending-found words value solid =
      let trimmed : trim (codes "VALUE " ++ (value ++ newline ∷ [])) ≡ codes "VALUE " ++ value =
        trim-solid 86 (codes "ALUE ") value (unfold is_whitespace in refl) solid in
      rw (utf8.lossy-bytes value, trimmed)

  pub put_ending-done :
      (words : StorageError → Text) → put_ending (text_of words done) ≡ prints (codes "OK")
  unfolding put_ending text_of trim compare_keys
  put_ending-done words = refl
