-- ===== src/Dashboard/Scrape.antt =====
-- What a scraper reads from the text that src/http_server.rs gives it.
use cityhall.Base.{
  ℕ, suc, ◌≡◌, ◌/◌, ltb, zero, refl, ap, ◌∙◌, arith, List, [], ◌∷◌, ◌++◌, ◌==◌, ◌&&◌, not,
  if◌then◌else◌, Bool, true, false, All, All-append, append_assoc, Bool-cases, inl, inr, Option,
  some,
}
use cityhall.Text.{Text, newline, space, split_space, lines_of}
use cityhall.Text.Trim.{HasNone, lines_of-line, split_space-found}
use cityhall.Text.Decimal.{to_string, digits, reverse_onto}
use cityhall.Metrics.Registry.{Metrics, Rate}
use cityhall.Dashboard.{
  Value, number, fraction, Sample, text_of_value, help_line, type_line, value_line, text_of_samples,
  samples, get_prometheus_metrics,
}

abbrev pub hash : ℕ
hash = 35

-- Comment lines are passed over; of another line the name is before the space, and the value is
-- behind it.
abbrev pub scrape_line :
    Text → Text × Option Text → List (Text × Option Text) → List (Text × Option Text)
scrape_line [] parts rest = rest
scrape_line (c ∷ line) parts rest = if c == hash then rest else parts ∷ rest

unfoldable pub scrape_lines : List Text → List (Text × Option Text)
scrape_lines [] = []
scrape_lines (line ∷ lines) = scrape_line line (split_space line) (scrape_lines lines)

-- The names with the texts of their values, each with the end of its line.
abbrev pub readings : (Rate → Text) → List Sample → List (Text × Option Text)
readings show [] = []
readings show (s ∷ samples) =
    (s.name, some (text_of_value show s.value ++ newline ∷ [])) ∷ readings show samples

-- A test of `HasNone` that literals pass by computation.
unfoldable pub lacks : ℕ → Text → Bool
lacks c [] = true
lacks c (x ∷ text) = not (x == c) && lacks c text

HasNone-of_lacks : (c : ℕ) (text : Text) → lacks c text ≡ true → HasNone c text
unfolding lacks
HasNone-of_lacks c [] h = tt
HasNone-of_lacks c (x ∷ text) h = elim (Bool-cases (x == c)) [
  | inl same ↦ absurd (let h' = rw same at h in cc)
  | inr other ↦ let h' = rw other at h in (other, HasNone-of_lacks c text h')
]

-- A sample whose words fit the format.
pub record IsPlain (s : Sample) : Type 0 where
  pub name_start : (c : ℕ) × (rest : Text) × (s.name ≡ c ∷ rest) × ((c == hash) ≡ false)
  pub name_word : lacks space s.name ≡ true
  pub name_line : lacks newline s.name ≡ true
  pub help_fits : lacks newline s.help ≡ true
  pub kind_fits : lacks newline s.kind ≡ true

reverse_onto-HasNone :
    (c : ℕ) (text behind : Text)
    → HasNone c text
    → HasNone c behind
    → HasNone c (reverse_onto text behind)
unfolding reverse_onto
reverse_onto-HasNone c [] behind h h' = h'
reverse_onto-HasNone c (x ∷ text) behind (other, h) h' =
    reverse_onto-HasNone c text (x ∷ behind) h (other, h')

digits-HasNone : (fuel n : ℕ) → HasNone newline (digits fuel n)
unfolding digits
digits-HasNone zero n = tt
digits-HasNone (suc fuel) n = elim (Bool-cases (ltb n 10)) [
  | inl small ↦ rw small (ground arith, tt)
  | inr large ↦ rw large (ground arith, digits-HasNone fuel (n / 10))
]

value-HasNone :
    (show : Rate → Text)
    → ((r : Rate) → HasNone newline (show r))
    → (v : Value) → HasNone newline (text_of_value show v)
unfolding to_string
value-HasNone show plain (number n) =
    reverse_onto-HasNone newline (digits (suc n) n) [] (digits-HasNone (suc n) n) tt
value-HasNone show plain (fraction r) = plain r

joined-HasNone :
    (before behind : Text)
    → HasNone newline before
    → HasNone newline behind
    → HasNone newline (before ++ space ∷ behind)
joined-HasNone before behind h h' =
    All-append (λ x. (x == newline) ≡ false) before (space ∷ behind) h (refl, h')

-- A line that a comment sign starts.
scrape_comment :
    (line : Text) (lines : List Text) → scrape_lines ((hash ∷ line) ∷ lines) ≡ scrape_lines lines
unfolding scrape_lines
scrape_comment line lines = refl

scrape_start :
    (line : Text) (parts : Text × Option Text) (more : List (Text × Option Text)) (c : ℕ)
    (rest : Text)
    → line ≡ c ∷ rest
    → (c == hash) ≡ false
    → scrape_line line parts more ≡ parts ∷ more
scrape_start line parts more c rest starts other = rw (starts, other) refl

scrape_value :
    (name value : Text) (lines : List Text) (c : ℕ) (rest : Text)
    → name ≡ c ∷ rest
    → (c == hash) ≡ false
    → HasNone space name
    → scrape_lines ((name ++ space ∷ value) ∷ lines) ≡ (name, some value) ∷ scrape_lines lines
unfolding scrape_lines
scrape_value name value lines c rest starts other word = rw (split_space-found name value word) (
    scrape_start (name ++ space ∷ value) (name, some value) (scrape_lines lines) c
      (rest ++ space ∷ value) (ap (λ l. l ++ space ∷ value) starts) other)

scrape_samples :
    (show : Rate → Text) (samples : List Sample)
    → ((r : Rate) → HasNone newline (show r))
    → All IsPlain samples
    → scrape_lines (lines_of (text_of_samples show samples)) ≡ readings show samples
unfolding text_of_samples
scrape_samples show [] plain all = unfold lines_of scrape_lines in refl
scrape_samples show (s ∷ samples) plain (p, all) =
    let behind = text_of_samples show samples in
    let name = HasNone-of_lacks newline s.name p.name_line in
    let words : (text : Text)
        → lacks newline text ≡ true
        → HasNone newline (s.name ++ space ∷ text) =
      λ text fits. joined-HasNone s.name text name (HasNone-of_lacks newline text fits) in
    let help : HasNone newline (help_line s) =
      (refl, (refl, (refl, (refl, (refl, (refl, (refl, words s.help p.help_fits))))))) in
    let type : HasNone newline (type_line s) =
      (refl, (refl, (refl, (refl, (refl, (refl, (refl, words s.kind p.kind_fits))))))) in
    let value : HasNone newline (value_line show s) =
      joined-HasNone s.name (text_of_value show s.value) name (value-HasNone show plain s.value) in
    let l1 =
      lines_of-line (help_line s) (type_line s ++ newline ∷ (value_line show s ++ newline ∷ behind))
        help in
    let l2 = lines_of-line (type_line s) (value_line show s ++ newline ∷ behind) type in
    let l3 = lines_of-line (value_line show s) behind value in
    let (c, rest, starts, other) = p.name_start in
    ap scrape_lines l1
    ∙ scrape_comment _ _
    ∙ ap scrape_lines l2
    ∙ scrape_comment _ _
    ∙ ap scrape_lines l3
    ∙ ap (λ l. scrape_lines (l ∷ lines_of behind))
        (append_assoc s.name (space ∷ text_of_value show s.value) (newline ∷ []))
    ∙ scrape_value s.name (text_of_value show s.value ++ newline ∷ []) (lines_of behind) c rest
        starts other (HasNone-of_lacks space s.name p.name_word)
    ∙ ap (λ l. (s.name, some (text_of_value show s.value ++ newline ∷ [])) ∷ l)
        (scrape_samples show samples plain all)

-- A test of `IsPlain` that the samples pass by computation: it does not look at their values.
abbrev starts_plain : Text → Bool
starts_plain [] = false
starts_plain (c ∷ text) = not (c == hash)

unfoldable pub all_plain : List Sample → Bool
unfolding lacks
all_plain [] = true
all_plain (s ∷ samples) =
    (starts_plain s.name
      && (lacks space s.name
          && (lacks newline s.name && (lacks newline s.help && lacks newline s.kind))))
    && all_plain samples

both_true : (a b : Bool) → (a && b) ≡ true → (a ≡ true) × (b ≡ true)
both_true true b h = (refl, h)
both_true false b h = cc

start_of :
    (text : Text)
    → starts_plain text ≡ true
    → (c : ℕ) × (rest : Text) × (text ≡ c ∷ rest) × ((c == hash) ≡ false)
start_of [] h = cc
start_of (c ∷ text) h = (c, text, refl, ground arith)

all_plain-IsPlain : (samples : List Sample) → all_plain samples ≡ true → All IsPlain samples
unfolding all_plain
all_plain-IsPlain [] h = tt
all_plain-IsPlain (s ∷ samples) h =
    let (this, others) = both_true _ _ h in
    let (start, r1) = both_true _ _ this in
    let (word, r2) = both_true _ _ r1 in
    let (line, r3) = both_true _ _ r2 in
    let (help, kind) = both_true _ _ r3 in
    (
      record {
        name_start = start_of s.name start;
        name_word = word;
        name_line = line;
        help_fits = help;
        kind_fits = kind;
      },
      all_plain-IsPlain samples others,
    )

samples-IsPlain :
    (place : ℕ → ℕ → ℕ) (m : Metrics) (uptime : ℕ) → All IsPlain (samples place m uptime)
unfolding samples all_plain
samples-IsPlain place m uptime = all_plain-IsPlain (samples place m uptime) refl

-- Where the text of a fraction has no newline, a scraper that passes over the comments reads from
-- the text of the endpoint just the names of the metrics with the texts of their values, in order.
pub scrape-get_prometheus_metrics :
    (show : Rate → Text) (place : ℕ → ℕ → ℕ) (m : Metrics) (uptime : ℕ)
    → ((r : Rate) → HasNone newline (show r))
    → scrape_lines (lines_of (get_prometheus_metrics show place m uptime))
      ≡ readings show (samples place m uptime)
unfolding get_prometheus_metrics
scrape-get_prometheus_metrics show place m uptime plain =
    scrape_samples show (samples place m uptime) plain (samples-IsPlain place m uptime)
