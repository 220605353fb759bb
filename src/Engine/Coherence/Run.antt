-- ===== src/Engine/Coherence/Run.antt =====
-- A run of the engine of src/storage_engine.rs against a map from keys to values.
use cityhall.Base.{Bool, false, true, ◌⊎◌, ◌-◌, ltb}
use cityhall.Base.{
  ℕ, ◌≡◌, refl, ap, ◌∙◌, arith, List, [], ◌∷◌, Option, true, Bool-cases, inl, inr, All,
  if◌then◌else◌,
}
use cityhall.Types.{Entry, OpType, Result, ok, err, panic}
use cityhall.Types.Bytes.{Buf}
use cityhall.Memtable
use cityhall.Wal
use cityhall.Wal.{Wal, store_record, append_operation}
use cityhall.Wal.Record.{Crc32}
use cityhall.Wal.Record.RoundTrip.{IsLoggable, encode_record_ok}
use cityhall.Sstable.Snappy.{Snappy}
use cityhall.Sstable.Bloom.{KeyHasher}
use cityhall.Types.Tables.{TableName, DataDir}
use cityhall.Engine.{
  flush, shutdown, FlushMessage, flush_memtable_sync, flush_memtable_to_disk, StorageEngine,
  FilterConfig,
}
use cityhall.Engine.Flush.{IsUsable}
use cityhall.Engine.Background.{
  receive, report, flush_thread_turn, check_flush_completion, trigger_background_flush,
}
use cityhall.Engine.Compact.{maybe_compact, check_and_compact}
use cityhall.Engine.Put.{flush_full, Moment, put, with_memtable}
use cityhall.Engine.Runs.{updated, Event, write, thread_turn, map_after, run}
use cityhall.Engine.Coherence.{Coherent, turn-Coherent}
use cityhall.Engine.Coherence.Wait.{check-Coherent}
use cityhall.Engine.Coherence.HandOver.{HasRoom, trigger-Coherent}
use cityhall.Engine.Coherence.Put.{
  IsPrompt, wal-Coherent, with_value, with_value-Coherent, put_filled, put_room,
}

report-HasRoom :
    (e : StorageEngine) (id : ℕ) (path : TableName) (written : Result DataDir)
    → HasRoom e
    → HasRoom (report e id path written)
report-HasRoom e id path (ok dir) room = room
report-HasRoom e id path (err x) room = room
report-HasRoom e id path panic room = room

-- No compaction starts at an instant, by the flag and the last check: compaction is off, or the last
-- check is less than a second ago.
abbrev pub Rests : ℕ → Bool → ℕ → Type 0
Rests instant enabled last = (enabled ≡ false) ⊎ (ltb (instant - last) 1000 ≡ true)

module _ ⦃buf : Buf⦄ ⦃snappy : Snappy⦄ ⦃hasher : KeyHasher⦄ ⦃filters : FilterConfig⦄ where
  pub check_and_compact_stages :
      (instant : ℕ) (e e1 e2 : StorageEngine)
      → check_flush_completion e ≡ (e1, ok tt)
      → maybe_compact instant e1 ≡ (e2, ok tt)
      → check_and_compact instant e ≡ (e2, ok tt)
  unfolding check_and_compact
  check_and_compact_stages instant e e1 e2 checked compacted = rw (checked, compacted) refl

  maybe_compact-Rests :
      (instant : ℕ) (e : StorageEngine)
      → Rests instant e.compaction_enabled e.last_compaction_check
      → maybe_compact instant e ≡ (e, ok tt)
  unfolding maybe_compact
  maybe_compact-Rests instant e (inl off) = rw off refl
  maybe_compact-Rests instant e (inr recent) = elim (Bool-cases e.compaction_enabled) [
    | inl on ↦ rw (on, recent) refl
    | inr off ↦ rw off refl
  ]

  module _ {Keeps : Bool → ℕ → Type 0} where
    check_and_compact-Coherent :
        (instant : ℕ) (e : StorageEngine) (map_of : List ℕ → Option (List ℕ))
        → ((enabled : Bool) (last : ℕ) → Keeps enabled last → Rests instant enabled last)
        → Coherent Keeps e map_of
        → (e' : StorageEngine) × (check_and_compact instant e ≡ (e', ok tt))
          × Coherent Keeps e' map_of
          × (e'.memtable ≡ e.memtable)
    check_and_compact-Coherent instant e map_of rests c =
        let (e', checked, c', memtable) = check-Coherent e map_of c in
        (
          e',
          check_and_compact_stages instant e e' e' checked
              (maybe_compact-Rests instant e' (rests _ _ c'.keeps)),
          c',
          memtable,
        )

  flush_full-background :
      (now : Moment) (e : StorageEngine)
      → e.background_flush_enabled ≡ true
      → flush_full now e ≡ trigger_background_flush now.turns e
  flush_full-background now e enabled =
      ap (λ b. if b then trigger_background_flush now.turns e else flush_memtable_sync e) enabled

  module _ {Keeps : Bool → ℕ → Type 0} where
    -- An insertion, with the flush of a memtable that is full then.
    with_memtable-Coherent :
        (now : Moment) (e : StorageEngine) (map_of : List ℕ → Option (List ℕ)) (key value : List ℕ)
        → IsUsable filters
        → IsLoggable (record { key = key; value = value; timestamp = now.seconds })
        → IsPrompt now
        → HasRoom e
        → Coherent Keeps e map_of
        → (e' : StorageEngine) × (with_memtable now e
              (Memtable.put e.memtable key value now.seconds)
            ≡ (e', ok tt))
          × Coherent Keeps e' (updated key value map_of)
          × HasRoom e'
    with_memtable-Coherent now e map_of key value usable fits (i, pos, below, turn) room c =
        let e1 = with_value e key value now.seconds in
        let c1 = with_value-Coherent e map_of key value now.seconds fits room c in
        elim (Bool-cases (Memtable.put e.memtable key value now.seconds).1) [
          | inl full ↦
              let (e', triggered, c', room') =
                trigger-Coherent now.turns i e1 (updated key value map_of) usable c1
                  (put_filled e.memtable key value now.seconds) pos below turn in
              (e', rw full (flush_full-background now e1 c1.in_background ∙ triggered), c', room')
          | inr open_still ↦ (
            e1,
            rw open_still refl,
            c1,
            omega (arith, c.same_limit, put_room e.memtable key value now.seconds open_still),
          )
        ]

  receive-HasRoom :
      (messages : List FlushMessage) (e : StorageEngine) → HasRoom e → HasRoom (receive messages e)
  receive-HasRoom [] e room = room
  receive-HasRoom (shutdown ∷ messages) e room = room
  receive-HasRoom (flush m path id ∷ messages) e room =
      report-HasRoom (record e { flush_tx = messages }) id path
        (flush_memtable_to_disk m path e.data_dir) room

  turn-HasRoom : (e : StorageEngine) → HasRoom e → HasRoom (flush_thread_turn e)
  unfolding flush_thread_turn
  turn-HasRoom e room = receive-HasRoom e.flush_tx e room

  module _ ⦃crc : Crc32⦄ where
    append_accepted : (e : Entry) (w : Wal) → IsLoggable e → (Wal.append e w).1 ≡ ok tt
    unfolding append_operation
    append_accepted e w fits = rw (encode_record_ok OpType.put e fits.sizes) refl

    pub append_ok :
        (e : Entry) (w : Wal) → IsLoggable e → Wal.append e w ≡ ((Wal.append e w).0, ok tt)
    append_ok e w fits = ap (λ outcome. ((Wal.append e w).0, outcome)) (append_accepted e w fits)

    pub put_stages :
        (now : Moment) (key value : List ℕ) (e e2 e' : StorageEngine)
        → IsLoggable (record { key = key; value = value; timestamp = now.seconds })
        → check_and_compact now.instant (record e {
          wal = (Wal.append (record { key = key; value = value; timestamp = now.seconds }) e.wal).0;
        })
          ≡ (e2, ok tt)
        → with_memtable now e2 (Memtable.put e2.memtable key value now.seconds) ≡ (e', ok tt)
        → put now key value e ≡ (e', ok tt)
    unfolding put
    put_stages now key value e e2 e' fits checked stored =
        rw
          (
            append_ok (record { key = key; value = value; timestamp = now.seconds }) e.wal fits,
            checked,
          )
          stored

    module _ {Keeps : Bool → ℕ → Type 0} where
      -- On an engine that reads as a map and has room, where no compaction starts, a put that fits a log record, while the flush
      -- thread keeps up, succeeds, and the engine reads as the updated map and has room again.
      pub put-Coherent :
          (now : Moment) (key value : List ℕ) (e : StorageEngine)
          (map_of : List ℕ → Option (List ℕ))
          → IsUsable filters
          → IsLoggable (record { key = key; value = value; timestamp = now.seconds })
          → IsPrompt now
          → HasRoom e
          → ((enabled : Bool) (last : ℕ) → Keeps enabled last → Rests now.instant enabled last)
          → Coherent Keeps e map_of
          → (e' : StorageEngine) × (put now key value e ≡ (e', ok tt))
            × Coherent Keeps e' (updated key value map_of)
            × HasRoom e'
      put-Coherent now key value e map_of usable fits prompt room rests c =
          let entry : Entry = record { key = key; value = value; timestamp = now.seconds } in
          let w = (Wal.append entry e.wal).0 in
          let (e2, checked, c2, memtable) =
            check_and_compact-Coherent now.instant (record e { wal = w }) map_of rests
              (wal-Coherent e map_of w c) in
          let room2 : HasRoom e2 = omega (
            arith,
            ap (λ m. m.size_bytes) memtable,
            c2.same_limit,
            ap (λ m. m.max_size) memtable,
            c.same_limit,
          ) in
          let (e', stored, c', room') =
            with_memtable-Coherent now e2 map_of key value usable fits prompt room2 c2 in
          (e', put_stages now key value e e2 e' fits checked stored, c', room')

    -- The events of a run fit the log, and the flush thread keeps up.
    abbrev pub IsServable : Event → Type 0
    IsServable (write now key value) =
        IsLoggable (record { key = key; value = value; timestamp = now.seconds }) × IsPrompt now
    IsServable thread_turn = Unit

    module _ {Keeps : Bool → ℕ → Type 0} where
      pub run-Coherent :
          (events : List Event) (e : StorageEngine) (map_of : List ℕ → Option (List ℕ))
          → IsUsable filters
          → All IsServable events
          → HasRoom e
          → ((instant : ℕ) (enabled : Bool) (last : ℕ)
              → Keeps enabled last
              → Rests instant enabled last)
          → Coherent Keeps e map_of
          → (e' : StorageEngine) × (run events e ≡ (e', ok tt))
            × Coherent Keeps e' (map_after events map_of)
            × HasRoom e'
      unfolding run
      run-Coherent [] e map_of usable fits room rests c = (e, refl, c, room)
      run-Coherent (thread_turn ∷ events) e map_of usable fits room rests c =
          run-Coherent events (flush_thread_turn e) map_of usable fits.1 (turn-HasRoom e room) rests
            (turn-Coherent e map_of usable c)
      run-Coherent (write now key value ∷ events) e map_of usable ((fit, prompt), fits) room rests
            c =
          let (e1, done, c1, room1) =
            put-Coherent now key value e map_of usable fit prompt room (rests now.instant) c in
          let (e', ran, c', room') =
            run-Coherent events e1 (updated key value map_of) usable fits room1 rests c1 in
          (e', rw done ran, c', room')
