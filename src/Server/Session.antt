-- ===== src/Server/Session.antt =====
-- A client of src/commands/client.rs and the server of src/commands/server.rs with its engine.
use cityhall.Base.{ℕ, ◌≡◌, refl, ◌∙◌, List, [], ◌∷◌, ◌++◌, Option, some}
use cityhall.Types.{StorageError, ok}
use cityhall.Types.Bytes.{Buf}
use cityhall.Types.Keys.{compare_keys}
use cityhall.Types.Entries.{key_eq_self}
use cityhall.Wal.Record.{Crc32}
use cityhall.Wal.Record.RoundTrip.{IsLoggable}
use cityhall.Sstable.Snappy.{Snappy}
use cityhall.Sstable.Bloom.{KeyHasher}
use cityhall.Engine
use cityhall.Engine.{StorageEngine, FilterConfig}
use cityhall.Engine.Flush.{IsUsable}
use cityhall.Engine.Put.{Moment}
use cityhall.Engine.Runs.{updated}
use cityhall.Engine.Coherence.{Coherent}
use cityhall.Engine.Coherence.HandOver.{HasRoom}
use cityhall.Engine.Coherence.Put.{IsPrompt}
use cityhall.Engine.Coherence.Run.{Rests, put-Coherent}
use cityhall.Text.{Text, codes, to_uppercase, Utf8}
use cityhall.Server.{
  Reply, done, found, text_of, handle_put, handle_get, handle_parts, handle_line, handle_lines,
  handle_client_connection,
}
use cityhall.Server.Client.{put_request, get_request, prints, put_ending, get_ending}
use cityhall.Server.RoundTrip.{
  IsSendable, parts_of-put_request, parts_of-get_request, lines_of-requests, get_ending-found,
  put_ending-done,
}

module _ ⦃utf8 : Utf8⦄ ⦃buf : Buf⦄ ⦃snappy : Snappy⦄ ⦃hasher : KeyHasher⦄ ⦃filters : FilterConfig⦄
    ⦃crc : Crc32⦄ where
  handle_line-put :
      (now : Moment) (key value : Text) (e : StorageEngine)
      → IsSendable key value
      → handle_line now (put_request key value) e ≡ handle_put now (some key) (some value) e
  unfolding handle_line handle_parts to_uppercase compare_keys
  handle_line-put now key value e s = rw (parts_of-put_request key value s) refl

  handle_line-get :
      (now : Moment) (key value : Text) (e : StorageEngine)
      → IsSendable key value
      → handle_line now (get_request key) e ≡ handle_get (some key) e
  unfolding handle_line handle_parts to_uppercase compare_keys
  handle_line-get now key value e s = rw (parts_of-get_request key s.one_word s.key_ends) refl

  -- On an engine that reads as a map and has room, with the flush thread keeping up, and where
  -- compaction is off or its last check is less than a second before the put: when a client puts a
  -- value under a key (a key without spaces and newlines, a value without newlines, neither empty
  -- nor ending with whitespace, and both within a log record) and gets it on one connection, then
  -- the server's two replies make the client print OK and the value, and the engine reads as the
  -- map with the value under the key, every other key as before.
  pub put_then_get :
      (clock : ℕ → Moment) (words : StorageError → Text) (key value : Text) (e : StorageEngine)
      (map_of : List ℕ → Option (List ℕ))
      → IsSendable key value
      → IsUsable filters
      → IsLoggable (record {
        key = utf8.as_bytes key;
        value = utf8.as_bytes value;
        timestamp = (clock 1).seconds;
      })
      → IsPrompt (clock 1)
      → HasRoom e
      → Coherent (Rests (clock 1).instant) e map_of
      → (e' : StorageEngine) × (stored answered : Reply) × (handle_client_connection clock
            (put_request key value ++ get_request key)
            e
          ≡ (e', stored ∷ answered ∷ []))
        × (put_ending (text_of words stored) ≡ prints (codes "OK"))
        × (get_ending (text_of words answered) ≡ prints value)
        × ((j : List ℕ)
            → Engine.get e' j ≡ ok (updated (utf8.as_bytes key) (utf8.as_bytes value) map_of j))
  unfolding handle_client_connection handle_lines
  put_then_get clock words key value e map_of s usable fits prompt room c =
      let k = utf8.as_bytes key in
      let v = utf8.as_bytes value in
      let (e', stored, c', room') =
        put-Coherent (clock 1) k v e map_of usable fits prompt room (λ enabled last rests. rests)
          c in
      let read : Engine.get e' k ≡ ok (some v) = c'.reads k ∙ rw (key_eq_self k) refl in
      (
        e',
        done,
        found v,
        rw
            (
              lines_of-requests key value s,
              handle_line-put (clock 1) key value e s,
              stored,
              handle_line-get (clock 0) key value e' s,
              read,
            )
            refl,
        put_ending-done words,
        get_ending-found words value s.value_ends,
        c'.reads,
      )
