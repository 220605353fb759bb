-- ===== src/Server/Client.antt =====
-- The client of src/commands/client.rs: the requests that it sends, and what it makes of a reply.
pub mod Metrics
pub mod Reading
pub mod Body
use cityhall.Base.{[], ◌∷◌, ◌++◌, if◌then◌else◌, Option, none, some}
use cityhall.Types.Keys.{key_eq}
use cityhall.Text.{Text, codes, newline, space, trim, strip_prefix}

unfoldable pub put_request : Text → Text → Text
put_request key value = codes "PUT " ++ (key ++ space ∷ (value ++ newline ∷ []))

unfoldable pub get_request : Text → Text
get_request key = codes "GET " ++ (key ++ newline ∷ [])

unfoldable pub delete_request : Text → Text
delete_request key = codes "DELETE " ++ (key ++ newline ∷ [])

-- How a command ends: with a line on the standard output, or with one on the standard error and the
-- exit code 1.
pub data Ending : Type 0 where
  prints exits : Text → Ending

unfoldable pub put_ending : Text → Ending
put_ending response =
    let answer = trim response in
    if key_eq answer (codes "OK") then prints (codes "OK") else exits answer

abbrev pub ending_of : Text → Option Text → Ending
ending_of answer (some value) = prints value
ending_of answer none =
    if key_eq answer (codes "NOT_FOUND") then exits (codes "NOT_FOUND") else exits answer

unfoldable pub get_ending : Text → Ending
get_ending response = ending_of (trim response) (strip_prefix (codes "VALUE ") (trim response))

unfoldable pub delete_ending : Text → Ending
delete_ending response = exits (trim response)
