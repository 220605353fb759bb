-- ===== src/Server/Client/Metrics.antt =====
-- The metrics command of src/commands/client.rs: its number format, and its HTTP request.
use cityhall.Base.{
  ℕ, suc, ◌/◌, ◌%◌, [], ◌∷◌, ◌++◌, ltb, ◌==◌, ◌&&◌, if◌then◌else◌, Bool, true, Option, none, some,
}
use cityhall.Types.{Result, ok, err, corruption}
use cityhall.Text.{Text, codes, newline, strip_prefix}
use cityhall.Text.Decimal.{reverse, to_string}

abbrev pub comma : ℕ
comma = 44

abbrev pub carriage_return : ℕ
carriage_return = 13

abbrev pub slash : ℕ
slash = 47

-- The loop over the digits from the last one on: `i` counts them.
unfoldable pub with_commas : ℕ → Text → Text
with_commas i [] = []
with_commas i (c ∷ text) =
    let rest = with_commas (suc i) text in
    if ltb 0 i && i % 3 == 0 then comma ∷ c ∷ rest else c ∷ rest

-- `fmt_u64` on what a JSON value has as a number.
unfoldable pub fmt_u64 : Option ℕ → Text
fmt_u64 none = codes "-"
fmt_u64 (some n) = reverse (with_commas 0 (reverse (to_string n)))

-- The hours, minutes and seconds that are printed of the uptime.
abbrev pub uptime_parts : ℕ → ℕ × ℕ × ℕ
uptime_parts uptime = (uptime / 3600, uptime % 3600 / 60, uptime % 60)

-- `trim_end_matches` on a slash.
abbrev pub is_slash_only : Text → Bool
is_slash_only [] = true
is_slash_only (c ∷ text) = (c == slash) && is_slash_only text

unfoldable pub trim_slashes : Text → Text
trim_slashes [] = []
trim_slashes (c ∷ text) =
    let rest = trim_slashes text in if is_slash_only (c ∷ text) then [] else c ∷ rest

-- What is before the first slash, and the rest from it on.
abbrev pub add_host : ℕ → Text × Text → Text × Text
add_host c (host_port, path) = (c ∷ host_port, path)

unfoldable pub split_path : Text → Text × Text
split_path [] = ([], [])
split_path (c ∷ url) =
    let rest = split_path url in if c == slash then ([], c ∷ url) else add_host c rest

abbrev pub path_or_root : Text × Text → Text × Text
path_or_root (host_port, []) = (host_port, codes "/")
path_or_root (host_port, c ∷ path) = (host_port, c ∷ path)

abbrev pub address_behind : Option Text → Result (Text × Text)
address_behind none = err corruption
address_behind (some url) = ok (path_or_root (split_path url))

-- The host with its port, and the path.
unfoldable pub split_url : Text → Result (Text × Text)
split_url url = address_behind (strip_prefix (codes "http://") url)

abbrev pub crlf : Text
crlf = carriage_return ∷ newline ∷ []

unfoldable pub http_request : Text → Text → Text
http_request host_port path =
    codes "GET "
    ++ (path
        ++ (codes " HTTP/1.0"
            ++ (crlf
                ++ (codes "Host: "
                    ++ (host_port
                        ++ (crlf ++ (codes "Accept: application/json" ++ (crlf ++ crlf))))))))

-- What is behind the first place where a pattern is found.
abbrev pub here_or_later : Option Text → Option Text → Option Text
here_or_later (some rest) later = some rest
here_or_later none later = later

unfoldable pub behind_first : Text → Text → Option Text
behind_first pattern_text [] = strip_prefix pattern_text []
behind_first pattern_text (c ∷ text) =
    here_or_later (strip_prefix pattern_text (c ∷ text)) (behind_first pattern_text text)

abbrev pub found_body : Option Text → Result Text
found_body none = err corruption
found_body (some body) = ok body

-- The body is behind the first blank line.
unfoldable pub body_of : Text → Result Text
body_of raw =
    found_body
      (here_or_later (behind_first (crlf ++ crlf) raw) (behind_first (newline ∷ newline ∷ []) raw))
