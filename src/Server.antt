-- ===== src/Server.antt =====
-- The client protocol of src/commands/server.rs: what a connection's lines do to the engine, and what
-- is replied. The accept loop and the dashboard task are left out.
pub mod Client
pub mod RoundTrip
pub mod Session
pub mod Start
use cityhall.Base.{ℕ, List, [], ◌∷◌, ◌++◌, length, if◌then◌else◌, Bool, Option, none, some}
use cityhall.Types.{Result, ok, err, panic, StorageError}
use cityhall.Types.Bytes.{Buf}
use cityhall.Types.Keys.{key_eq}
use cityhall.Wal.Record.{Crc32}
use cityhall.Sstable.Snappy.{Snappy}
use cityhall.Sstable.Bloom.{KeyHasher}
use cityhall.Engine
use cityhall.Engine.{StorageEngine, FilterConfig, Outcome}
use cityhall.Engine.Put
use cityhall.Engine.Put.{Moment}
use cityhall.Text.{Text, codes, newline, trim, to_uppercase, split_space, is_empty, lines_of, Utf8}

-- `splitn(3, ' ')`.
pub record Parts : Type 0 where
  pub command : Text
  pub key : Option Text
  pub value : Option Text

abbrev pub parts_behind : Text → Option Text → Parts
parts_behind command none = record { command = command; key = none; value = none }
parts_behind command (some rest) =
    let (key, value) = split_space rest in
    record { command = command; key = some key; value = value }

unfoldable pub parts_of : Text → Parts
parts_of line = let (command, rest) = split_space line in parts_behind command rest

pub data Reply : Type 0 where
  done not_found usage_put usage_get delete_missing unknown_command : Reply
  found : List ℕ → Reply
  failed : StorageError → Reply

-- A line's effect: the engine, and the reply if there is one.
abbrev pub Handled : Type 0
Handled = StorageEngine × Result (Option Reply)

abbrev pub reply_put : Outcome → Handled
reply_put (e, ok stored) = (e, ok (some done))
reply_put (e, err x) = (e, ok (some (failed x)))
reply_put (e, panic) = (e, panic)

abbrev pub reply_get : Result (Option (List ℕ)) → Result (Option Reply)
reply_get (ok (some value)) = ok (some (found value))
reply_get (ok none) = ok (some not_found)
reply_get (err x) = ok (some (failed x))
reply_get panic = panic

module _ ⦃utf8 : Utf8⦄ where
  -- The text of a reply. The words for an error are an argument.
  unfoldable pub text_of : (StorageError → Text) → Reply → Text
  text_of words done = codes "OK" ++ newline ∷ []
  text_of words not_found = codes "NOT_FOUND" ++ newline ∷ []
  text_of words usage_put = codes "ERROR usage: PUT <key> <value>" ++ newline ∷ []
  text_of words usage_get = codes "ERROR usage: GET <key>" ++ newline ∷ []
  text_of words delete_missing =
      codes "ERROR DELETE not yet implemented (tombstone support pending)" ++ newline ∷ []
  text_of words unknown_command =
      codes "ERROR unknown command-supported: PUT, GET, DELETE" ++ newline ∷ []
  text_of words (found value) = codes "VALUE " ++ (utf8.from_utf8_lossy value ++ newline ∷ [])
  text_of words (failed x) = codes "ERROR " ++ (words x ++ newline ∷ [])

  module _ ⦃buf : Buf⦄ ⦃snappy : Snappy⦄ ⦃hasher : KeyHasher⦄ ⦃filters : FilterConfig⦄
      ⦃crc : Crc32⦄ where
    abbrev pub handle_put : Moment → Option Text → Option Text → StorageEngine → Handled
    handle_put now (some key) (some value) e =
        reply_put (Put.put now (utf8.as_bytes key) (utf8.as_bytes value) e)
    handle_put now (some key) none e = (e, ok (some usage_put))
    handle_put now none value e = (e, ok (some usage_put))

    abbrev pub handle_get : Option Text → StorageEngine → Handled
    handle_get (some key) e = (e, reply_get (Engine.get e (utf8.as_bytes key)))
    handle_get none e = (e, ok (some usage_get))

    -- The command decides, in capitals or not.
    unfoldable pub handle_parts : Moment → Parts → StorageEngine → Handled
    handle_parts now parts e =
        let command = to_uppercase parts.command in
        if key_eq command (codes "PUT")
        then handle_put now parts.key parts.value e
        else if key_eq command (codes "GET")
        then handle_get parts.key e
        else if key_eq command (codes "DELETE")
        then (e, ok (some delete_missing))
        else if is_empty command
        then (e, ok none)
        else (e, ok (some unknown_command))

    unfoldable pub handle_line : Moment → Text → StorageEngine → Handled
    handle_line now line e = handle_parts now (parts_of (trim line)) e

    abbrev pub add_reply : Option Reply → List Reply → List Reply
    add_reply none replies = replies
    add_reply (some reply) replies = reply ∷ replies

    abbrev pub with_reply : Option Reply → StorageEngine × List Reply → StorageEngine × List Reply
    with_reply reply (e, replies) = (e, add_reply reply replies)

    -- A panic ends the connection.
    abbrev pub next_line :
        Handled → (StorageEngine → StorageEngine × List Reply) → StorageEngine × List Reply
    next_line (e, ok reply) more = with_reply reply (more e)
    next_line (e, err x) more = (e, [])
    next_line (e, panic) more = (e, [])

    -- The lines of a connection. `clock n` is the moment of the line with `n` behind it.
    unfoldable pub handle_lines :
        (ℕ → Moment) → List Text → StorageEngine → StorageEngine × List Reply
    handle_lines clock [] e = (e, [])
    handle_lines clock (line ∷ lines) e =
        next_line (handle_line (clock (length lines)) line e) (λ e'. handle_lines clock lines e')

    -- `handle_client_connection` on all that the client sends.
    unfoldable pub handle_client_connection :
        (ℕ → Moment) → Text → StorageEngine → StorageEngine × List Reply
    handle_client_connection clock input e = handle_lines clock (lines_of input) e
