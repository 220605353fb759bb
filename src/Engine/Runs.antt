-- ===== src/Engine/Runs.antt =====
-- Runs of the engine of src/storage_engine.rs: puts by its clients, and turns that the flush thread
-- takes between them.
use cityhall.Base.{ℕ, List, [], ◌∷◌, Option, some, if◌then◌else◌}
use cityhall.Types.{ok}
use cityhall.Types.Keys.{key_eq}
use cityhall.Types.Bytes.{Buf}
use cityhall.Wal.Record.{Crc32}
use cityhall.Sstable.Snappy.{Snappy}
use cityhall.Sstable.Bloom.{KeyHasher}
use cityhall.Engine.{StorageEngine, FilterConfig, Outcome, and_then}
use cityhall.Engine.Background.{flush_thread_turn}
use cityhall.Engine.Put.{Moment, put}

-- The map with a value under a key.
abbrev pub updated : List ℕ → List ℕ → (List ℕ → Option (List ℕ)) → List ℕ → Option (List ℕ)
updated key value map_of j = if key_eq j key then some value else map_of j

pub data Event : Type 0 where
  write : (now : Moment) (key value : List ℕ) → Event
  thread_turn : Event

-- The map that the events describe: of the values under a key, the last one.
abbrev pub effect_of : Event → (List ℕ → Option (List ℕ)) → List ℕ → Option (List ℕ)
effect_of (write now key value) map_of = updated key value map_of
effect_of thread_turn map_of = map_of

abbrev pub map_after : List Event → (List ℕ → Option (List ℕ)) → List ℕ → Option (List ℕ)
map_after [] map_of = map_of
map_after (x ∷ events) map_of = map_after events (effect_of x map_of)

module _ ⦃buf : Buf⦄ ⦃snappy : Snappy⦄ ⦃hasher : KeyHasher⦄ ⦃filters : FilterConfig⦄
    ⦃crc : Crc32⦄ where
  abbrev pub happen : Event → StorageEngine → Outcome
  happen (write now key value) e = put now key value e
  happen thread_turn e = (flush_thread_turn e, ok tt)

  unfoldable pub run : List Event → StorageEngine → Outcome
  run [] e = (e, ok tt)
  run (x ∷ events) e = and_then (happen x e) (λ e'. run events e')
