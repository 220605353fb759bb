-- ===== src/Server/Client/Body.antt =====
-- The response of the dashboard as the metrics command of src/commands/client.rs reads it.
use cityhall.Base.{
  ℕ, ◌≡◌, refl, sym, subst, ap, ◌∙◌, arith, List, [], ◌∷◌, ◌++◌, append_assoc, ◌==◌, false, All,
  some,
}
use cityhall.Types.{ok}
use cityhall.Text.{Text, codes, strip_prefix}
use cityhall.Text.Trim.{HasNone}
use cityhall.Server.Client.Metrics.{
  carriage_return, slash, crlf, behind_first, body_of, split_path, split_url,
}

-- A line of a header: some text without a carriage return.
pub record IsHeaderLine (line : Text) : Type 0 where
  pub first : ℕ
  pub rest : Text
  pub whole : line ≡ first ∷ rest
  pub one_line : HasNone carriage_return line

abbrev pub header_of : List Text → Text
header_of [] = []
header_of (line ∷ lines) = line ++ (crlf ++ header_of lines)

abbrev blank : Text
blank = crlf ++ crlf

behind_first-skip :
    (c : ℕ) (text : Text)
    → (c == carriage_return) ≡ false
    → behind_first blank (c ∷ text) ≡ behind_first blank text
unfolding behind_first strip_prefix
behind_first-skip c text other =
    let other' : (carriage_return == c) ≡ false = ground arith in rw other' refl

behind_first-line :
    (line text : Text)
    → HasNone carriage_return line
    → behind_first blank (line ++ text) ≡ behind_first blank text
behind_first-line [] text none_there = refl
behind_first-line (c ∷ line) text (other, none_there) =
    behind_first-skip c (line ++ text) other ∙ behind_first-line line text none_there

-- The end of a line that another line follows.
behind_first-end :
    (c : ℕ) (text : Text)
    → (c == carriage_return) ≡ false
    → behind_first blank (crlf ++ c ∷ text) ≡ behind_first blank (c ∷ text)
unfolding behind_first strip_prefix
behind_first-end c text other =
    let other' : (carriage_return == c) ≡ false = ground arith in rw other' refl

behind_first-header :
    (line : Text) (lines : List Text) (body : Text)
    → IsHeaderLine line
    → All IsHeaderLine lines
    → behind_first blank (line ++ (crlf ++ (header_of lines ++ (crlf ++ body)))) ≡ some body
behind_first-header line [] body h all =
    behind_first-line line (crlf ++ (crlf ++ body)) h.one_line
    ∙ (unfold behind_first strip_prefix in refl)
behind_first-header line (next ∷ lines) body h (h', all) =
    let behind = crlf ++ (header_of lines ++ (crlf ++ body)) in
    let first_other : (h'.first == carriage_return) ≡ false =
      (subst (HasNone carriage_return) h'.whole h'.one_line).0 in
    let starts : next ++ behind ≡ h'.first ∷ (h'.rest ++ behind) = ap (λ l. l ++ behind) h'.whole in
    ap (λ t. behind_first blank (line ++ (crlf ++ t)))
      (append_assoc next (crlf ++ header_of lines) (crlf ++ body))
    ∙ behind_first-line line (crlf ++ (next ++ behind)) h.one_line
    ∙ ap (λ t. behind_first blank (crlf ++ t)) starts
    ∙ behind_first-end h'.first (h'.rest ++ behind) first_other
    ∙ ap (behind_first blank) (sym starts)
    ∙ behind_first-header next lines body h' all

-- Of a response with a status line and header lines, each with some text and without a carriage
-- return, the body is what stands behind the blank line, whatever it is.
pub body_of-response :
    (status : Text) (lines : List Text) (body : Text)
    → IsHeaderLine status
    → All IsHeaderLine lines
    → body_of (header_of (status ∷ lines) ++ (crlf ++ body)) ≡ ok body
unfolding body_of
body_of-response status lines body h all = rw (
  append_assoc status (crlf ++ header_of lines) (crlf ++ body),
  behind_first-header status lines body h all,
)

split_path-found :
    (host rest : Text)
    → HasNone slash host
    → split_path (host ++ slash ∷ rest) ≡ (host, slash ∷ rest)
unfolding split_path
split_path-found [] rest h = refl
split_path-found (c ∷ host) rest (other, h) = rw (other, split_path-found host rest h) refl

-- The URL of the metrics on a dashboard without a path of its own is split into the address and the
-- path of the API.
split_url-metrics :
    (host : Text)
    → HasNone slash host
    → split_url (codes "http://" ++ (host ++ codes "/api/metrics"))
      ≡ ok (host, codes "/api/metrics")
unfolding split_url strip_prefix
split_url-metrics host h = rw (split_path-found host (codes "api/metrics") h) refl
