-- ===== src/Engine/Recovery.antt =====
-- Puts that do not fill the memtable of src/storage_engine.rs: what they leave in the log.
pub mod Restart
use cityhall.Base.{
  ℕ, ◌+◌, ◌≤◌, ◌<◌, ◌≡◌, refl, sym, ap, ◌∙◌, subst, arith, List, [], ◌∷◌, ◌++◌, none, Option, Bool,
  true, false, Bool-cases, inl, inr, ltb, leb, length, ◌-◌, not, All, append_assoc, append-nil,
  if◌then◌else◌,
}
use cityhall.Types.{Entry, OpType, Result, ok, ◌>>=◌}
use cityhall.Types.Bytes.{Buf}
use cityhall.Types.Entries.{find_key}
use cityhall.Memtable
use cityhall.Memtable.{MemTable, put_all}
use cityhall.Memtable.Size.{total, entry_size}
use cityhall.Wal
use cityhall.Wal.{Wal}
use cityhall.Wal.Dir.{sort_files}
use cityhall.Wal.Record.{Crc32}
use cityhall.Wal.Record.RoundTrip.{IsLoggable}
use cityhall.Wal.Record.Recovery.{entries_of}
use cityhall.Wal.Log.{Log, Holds, logs_of, flush-Holds}
use cityhall.Wal.Log.Append.{append_operation-Holds}
use cityhall.Wal.Log.Recover.{recover-Holds}
use cityhall.Wal.Runs.{new_empty-Holds, flushed_whole}
use cityhall.Sstable.Snappy.{Snappy}
use cityhall.Sstable.Bloom.{KeyHasher}
use cityhall.Engine.{StorageEngine, FilterConfig, Outcome, and_then, get, get_tables, newest_first}
use cityhall.Engine.Start.{new_with_config, load_tables, sort_by_stem}
use cityhall.Engine.Compact.{maybe_compact, check_and_compact}
use cityhall.Engine.Put.{Moment, put, with_memtable}
use cityhall.Engine.Runs.{Event, write, run}
use cityhall.Engine.Coherence.Wait.{check-no_result}
use cityhall.Engine.Coherence.Put.{put_grows}
use cityhall.Engine.Coherence.Run.{check_and_compact_stages, put_stages}

-- Puts of entries at instants.
abbrev pub writes : (ℕ → ℕ) → List (ℕ × Entry) → List Event
writes turns [] = []
writes turns ((instant, x) ∷ puts) =
    write (record { seconds = x.timestamp; instant = instant; turns = turns }) x.key x.value
    ∷ writes turns puts

abbrev pub entries_put : List (ℕ × Entry) → List Entry
entries_put [] = []
entries_put ((instant, x) ∷ puts) = x ∷ entries_put puts

abbrev pub log_of : List Entry → Log
log_of [] = []
log_of (x ∷ entries) = (OpType.put, x) ∷ log_of entries

pub entries_of-log_of : (entries : List Entry) → entries_of (log_of entries) ≡ entries
entries_of-log_of [] = refl
entries_of-log_of (x ∷ entries) = ap (λ l. x ∷ l) (entries_of-log_of entries)

log_of-append :
    (xs : List Entry) (x : Entry) → log_of (xs ++ x ∷ []) ≡ log_of xs ++ (OpType.put, x) ∷ []
log_of-append [] x = refl
log_of-append (y ∷ xs) x = ap (λ l. (OpType.put, y) ∷ l) (log_of-append xs x)

total-append : (xs : List Entry) (x : Entry) → total (xs ++ x ∷ []) ≡ total xs + entry_size x
total-append [] x = omega arith
total-append (y ∷ xs) x = omega (arith, total-append xs x)

put_all-append :
    (m : MemTable) (xs : List Entry) (x : Entry)
    → put_all m (xs ++ x ∷ []) ≡ (Memtable.put (put_all m xs) x.key x.value x.timestamp).0
unfolding put_all
put_all-append m [] x = refl
put_all-append m (y ∷ xs) x = put_all-append (Memtable.put m y.key y.value y.timestamp).0 xs x

put_not_full :
    (m : MemTable) (x : Entry)
    → m.size_bytes + entry_size x < m.max_size
    → (Memtable.put m x.key x.value x.timestamp).1 ≡ false
put_not_full m x h =
    let grows = put_grows m x.key x.value x.timestamp in unfold Memtable.put in ground arith

-- What holds of each way through two tests and a third that succeeds.
of_tests {ℓ₁ ℓ₂} :
    {A : Type ℓ₁} (P : A → Type ℓ₂) (a b c : Bool) {x y : A} (z : A)
    → c ≡ true
    → P x
    → P y
    → P (if a then x else if b then x else if c then y else z)
of_tests P true b c z h px py = px
of_tests P false true c z h px py = px
of_tests P false false c z h px py = rw h py

module _ ⦃buf : Buf⦄ ⦃crc : Crc32⦄ where
  -- An engine that has flushed nothing: what its log has, and what its memtable has.
  pub record Logged (e : StorageEngine) (max_size : ℕ) (logged entries : List Entry) : Type 0 where
    pub holds : Holds e.wal (log_of logged)
    pub memtable : e.memtable ≡ put_all (Memtable.new max_size) entries
    pub limit : e.memtable.max_size ≡ max_size
    pub size : e.memtable.size_bytes ≤ total entries
    pub none_waits : e.immutable_memtable ≡ none
    pub no_tables : e.sstables ≡ []
    pub no_files : e.data_dir ≡ []
    pub no_results : e.flush_rx ≡ []

  module _ ⦃snappy : Snappy⦄ ⦃hasher : KeyHasher⦄ ⦃filters : FilterConfig⦄ where
    abbrev StillLogged : StorageEngine → ℕ → List Entry → List Entry → Outcome → Type 0
    StillLogged e max_size logged entries outcome =
        (e' : StorageEngine) × (outcome ≡ (e', ok tt))
        × Logged e' max_size logged entries
        × (e'.memtable ≡ e.memtable)

    maybe_compact-Logged :
        (instant : ℕ) (e : StorageEngine) (max_size : ℕ) (logged entries : List Entry)
        → Logged e max_size logged entries
        → StillLogged e max_size logged entries (maybe_compact instant e)
    unfolding maybe_compact
    maybe_compact-Logged instant e max_size logged entries l =
        of_tests (StillLogged e max_size logged entries) (not e.compaction_enabled)
          (ltb (instant - e.last_compaction_check) 1000) (ltb (length e.data_dir) 4) _
          (rw l.no_files refl) (e, refl, l, refl)
          (
            record e { last_compaction_check = instant },
            refl,
            record {
              holds = l.holds;
              memtable = l.memtable;
              limit = l.limit;
              size = l.size;
              none_waits = l.none_waits;
              no_tables = l.no_tables;
              no_files = l.no_files;
              no_results = l.no_results;
            },
            refl,
          )

    with_memtable_room :
        (now : Moment) (e : StorageEngine) (key value : List ℕ)
        → (Memtable.put e.memtable key value now.seconds).1 ≡ false
        → with_memtable now e (Memtable.put e.memtable key value now.seconds)
          ≡ (record e { memtable = (Memtable.put e.memtable key value now.seconds).0 }, ok tt)
    with_memtable_room now e key value room = rw room refl

    -- The put of an entry that does not fill the memtable.
    put-Logged :
        (now : Moment) (key value : List ℕ) (e : StorageEngine) (max_size : ℕ)
        (entries : List Entry)
        → IsLoggable (record { key = key; value = value; timestamp = now.seconds })
        → total entries + entry_size (record { key = key; value = value; timestamp = now.seconds })
          < max_size
        → Logged e max_size entries entries
        → (e' : StorageEngine) × (put now key value e ≡ (e', ok tt))
          × Logged e' max_size
              (entries ++ record { key = key; value = value; timestamp = now.seconds } ∷ [])
              (entries ++ record { key = key; value = value; timestamp = now.seconds } ∷ [])
    put-Logged now key value e max_size entries fits small l =
        let x : Entry = record { key = key; value = value; timestamp = now.seconds } in
        let w = (Wal.append x e.wal).0 in
        let more = entries ++ x ∷ [] in
        let e1 = record e { wal = w } in
        let holds : Holds w (log_of more) =
          rw (log_of-append entries x)
            (append_operation-Holds OpType.put x e.wal (log_of entries) fits l.holds).1 in
        let l1 : Logged e1 max_size more entries = record {
          holds = holds;
          memtable = l.memtable;
          limit = l.limit;
          size = l.size;
          none_waits = l.none_waits;
          no_tables = l.no_tables;
          no_files = l.no_files;
          no_results = l.no_results;
        } in
        let (e2, compacted, l2, memtable) =
          maybe_compact-Logged now.instant e1 max_size more entries l1 in
        let not_full = put_not_full e2.memtable x (omega (arith, l2.size, l2.limit)) in
        let long = total-append entries x in
        (
          record e2 { memtable = (Memtable.put e2.memtable key value now.seconds).0 },
          put_stages now key value e e2 _ fits
              (check_and_compact_stages now.instant e1 e1 e2 (check-no_result e1 l.no_results)
                compacted)
              (with_memtable_room now e2 key value not_full),
          record {
            holds = l2.holds;
            memtable = rw l2.memtable (sym (put_all-append (Memtable.new max_size) entries x));
            limit = unfold Memtable.put in l2.limit;
            size = omega (arith, put_grows e2.memtable key value now.seconds, l2.size);
            none_waits = l2.none_waits;
            no_tables = l2.no_tables;
            no_files = l2.no_files;
            no_results = l2.no_results;
          },
        )

    pub writes-Logged :
        (turns : ℕ → ℕ) (puts : List (ℕ × Entry)) (e : StorageEngine) (max_size : ℕ)
        (entries : List Entry)
        → All (λ p. IsLoggable p.1) puts
        → total entries + total (entries_put puts) < max_size
        → Logged e max_size entries entries
        → (e' : StorageEngine) × (all : List Entry) × (run (writes turns puts) e ≡ (e', ok tt))
          × Logged e' max_size all all
    unfolding run
    writes-Logged turns [] e max_size entries fits small l = (e, entries, refl, l)
    writes-Logged turns ((instant, x) ∷ puts) e max_size entries fits small l =
        let now : Moment = record { seconds = x.timestamp; instant = instant; turns = turns } in
        let (e1, done, l1) =
          put-Logged now x.key x.value e max_size entries fits.0 (omega arith) l in
        let (e', all, ran, l') =
          writes-Logged turns puts e1 max_size (entries ++ x ∷ []) fits.1
            (omega (arith, total-append entries x)) l1 in
        (e', all, rw done ran, l')
