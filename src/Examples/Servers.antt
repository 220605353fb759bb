-- ===== src/Examples/Servers.antt =====
-- Sessions of the server and its client.
use cityhall.Base.{inr, ℕ, ◌≡◌, refl, ◌∷◌, ◌++◌, [], List, none, some, true, arith}
use cityhall.Types.{Entry, OpType, ok, StorageError}
use cityhall.Wal.{Wal}
use cityhall.Wal.Log.{Log, Holds}
use cityhall.Wal.Log.Append.{append_operation-Holds}
use cityhall.Wal.Runs.{new_empty-Holds}
use cityhall.Wal.Record.Recovery.{entries_of}
use cityhall.Memtable
use cityhall.Memtable.{put_all}
use cityhall.Wal
use cityhall.Engine.{StorageEngine, get, get_tables, newest_first, or_else}
use cityhall.Engine.Runs.{updated}
use cityhall.Engine.Start.{with_compaction, load_tables, sort_by_stem}
use cityhall.Engine.Coherence.Start.{quiet_engine, started-Coherent}
use cityhall.Engine.Coherence.{Coherent}
use cityhall.Engine.Coherence.Run.{Rests}
use cityhall.Text.{Text, lines_of, codes, trim, trim_end, is_whitespace}
use cityhall.Server.{parts_of, Reply, text_of, handle_client_connection}
use cityhall.Server.Client.{put_request, get_request, put_ending, get_ending, prints}
use cityhall.Server.RoundTrip.{IsSendable, put_request-space}
use cityhall.Server.Session.{put_then_get}
use cityhall.Server.Start.{default_memtable_size, start_server, start_server_recovers}
use cityhall.Examples.Instances.{
  test_buf, test_crc, test_snappy, test_hasher, test_filters, test_utf8,
}
use cityhall.Examples.Engines.{moment, filters-IsUsable}

-- The value has a space in it, and ends with a letter.
city-IsSendable : IsSendable (codes "k") (codes "v w")
unfolding trim_end is_whitespace
city-IsSendable = record {
  one_word = (refl, tt);
  one_line = (refl, tt);
  key_ends = (refl, refl);
  value_line = (refl, (refl, (refl, tt)));
  value_ends = (refl, refl);
}

no_words : StorageError → Text
no_words x = []

-- Compaction is on, and was checked at the instant of the put.
abbrev served_engine : StorageEngine
served_engine = with_compaction (quiet_engine 50 1000 (Wal.new [] 30)) true

served-Coherent : Coherent (Rests (moment 1).instant) served_engine (λ _. none)
served-Coherent = started-Coherent 50 1000 (Wal.new [] 30) (omega arith) (inr refl)

put_then_get_example :
    (e' : StorageEngine) × (stored answered : Reply) × (handle_client_connection moment
        (put_request (codes "k") (codes "v w") ++ get_request (codes "k"))
        served_engine
      ≡ (e', stored ∷ answered ∷ []))
    × (put_ending (text_of no_words stored) ≡ prints (codes "OK"))
    × (get_ending (text_of no_words answered) ≡ prints (codes "v w"))
    × ((j : List ℕ) → get e' j ≡ ok (updated (codes "k") (codes "v w") (λ _. none) j))
put_then_get_example =
    put_then_get moment no_words (codes "k") (codes "v w") served_engine (λ _. none) city-IsSendable
      filters-IsUsable (record { sizes = omega arith; timestamp_fits = omega arith })
      (1, omega arith, omega arith, omega arith) (omega arith) served-Coherent

v-IsSolid : (trim_end (codes "v") ≡ codes "v")
unfolding trim_end is_whitespace
v-IsSolid = refl

put_request-space_example :
    (lines_of (put_request (codes "my key") (codes "v"))
      ≡ put_request (codes "my key") (codes "v") ∷ [])
    × (parts_of (trim (put_request (codes "my key") (codes "v")))
        ≡ record { command = codes "PUT"; key = some (codes "my"); value = some (codes "key v") })
put_request-space_example =
    put_request-space (codes "my") (codes "key") (codes "v") (refl, (refl, tt))
      (refl, (refl, (refl, (refl, (refl, (refl, tt)))))) (refl, tt) (v-IsSolid, refl)

-- The log of a server that has stored a value.
abbrev first_put : Entry
first_put = record { key = codes "k"; value = codes "v"; timestamp = 7 }

abbrev old_wal : Wal
old_wal = (Wal.append first_put (Wal.new [] 30)).0

abbrev old_log : Log
old_log = (OpType.put, first_put) ∷ []

old_wal-Holds : Holds old_wal old_log
old_wal-Holds =
    (append_operation-Holds OpType.put first_put (Wal.new [] 30) []
      (record { sizes = omega arith; timestamp_fits = omega arith }) (new_empty-Holds 30)).1

no_tables : load_tables [] [] ≡ ok ([], 0)
unfolding load_tables
no_tables = refl

start_server_recovers_example :
    (e : StorageEngine) × (start_server [] (Wal.flush old_wal).dir 30 9 ≡ ok e)
    × Holds e.wal old_log
    × ((key : List ℕ)
        → get e key
          ≡ or_else
              (Memtable.get (put_all (Memtable.new default_memtable_size) (entries_of old_log)) key)
              (get_tables (newest_first (sort_by_stem [])) key))
start_server_recovers_example =
    start_server_recovers old_wal old_log [] ([], 0) 30 9 old_wal-Holds no_tables
