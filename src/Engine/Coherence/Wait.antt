-- ===== src/Engine/Coherence/Wait.antt =====
-- The wait for a background flush in src/storage_engine.rs, and the hand-over behind it.
use cityhall.Base.{Bool}
use cityhall.Base.{
  ℕ, zero, suc, ◌<◌, ◌≡◌, refl, ◌∙◌, arith, List, [], ◌∷◌, ◌++◌, none, some, Option, true, false,
}
use cityhall.Types.{ok}
use cityhall.Types.Bytes.{Buf}
use cityhall.Types.Tables.{TableName}
use cityhall.Memtable
use cityhall.Memtable.{MemTable}
use cityhall.Sstable.Snappy.{Snappy}
use cityhall.Sstable.Bloom.{KeyHasher}
use cityhall.Sstable.Writer.Flush.{IsTable}
use cityhall.Engine.{flush, StorageEngine, OpenTable, FilterConfig, get, cleanup_wal_after_flush}
use cityhall.Engine.Flush.{IsUsable, get-completed}
use cityhall.Engine.Background.{
  is_waiting, flush_thread_turn, run_flush_thread, complete_all, check_flush_completion,
  wait_for_flush,
}
use cityhall.Engine.Coherence.{FlushPhase, idle, queued, written, Coherent, turn-idle, turn-queued}

module _ ⦃buf : Buf⦄ ⦃snappy : Snappy⦄ ⦃hasher : KeyHasher⦄ ⦃filters : FilterConfig⦄ where
  -- Nothing of a flush is left.
  abbrev pub IsSettled : StorageEngine → Type 0
  IsSettled e = (e.immutable_memtable ≡ none) × (e.flush_tx ≡ []) × (e.flush_rx ≡ [])

  -- The thread's result is there.
  abbrev pub IsReported : StorageEngine → Type 0
  IsReported e = (e.flush_tx ≡ []) × (is_waiting e.immutable_memtable ≡ true)

  -- What an operation that settles a flush leaves.
  abbrev pub Settles :
      (Bool → ℕ → Type 0) → StorageEngine → (List ℕ → Option (List ℕ)) → StorageEngine → Type 0
  Settles Keeps e map_of e' = Coherent Keeps e' map_of × IsSettled e' × (e'.memtable ≡ e.memtable)

  pub check-no_result :
      (e : StorageEngine) → e.flush_rx ≡ [] → check_flush_completion e ≡ (e, ok tt)
  unfolding check_flush_completion complete_all
  check-no_result e rx = rw rx

  abbrev completed : StorageEngine → OpenTable → StorageEngine
  completed e t =
      cleanup_wal_after_flush
        (record e { flush_rx = []; sstables = e.sstables ++ t ∷ []; immutable_memtable = none })

  module _ {Keeps : Bool → ℕ → Type 0} where
    completed-Coherent :
        (e : StorageEngine) (map_of : List ℕ → Option (List ℕ)) (t : OpenTable)
        → Coherent Keeps e map_of
        → e.flush_tx ≡ []
        → ((key : List ℕ) → get (completed e t) key ≡ get e key)
        → Coherent Keeps (completed e t) map_of
    completed-Coherent e map_of t c tx same = record {
      reads = λ key. rw same (c.reads key);
      phase = idle refl tx refl;
      ascending = c.ascending;
      entries_fit = c.entries_fit;
      accounted = c.accounted;
      near_limit = c.near_limit;
      same_limit = c.same_limit;
      small_limit = c.small_limit;
      thread_runs = c.thread_runs;
      in_background = c.in_background;
      keeps = c.keeps;
    }

    -- The engine takes a result that is there, and reads stay as they are.
    check-result :
        (e : StorageEngine) (map_of : List ℕ → Option (List ℕ))
        → Coherent Keeps e map_of
        → IsReported e
        → (e' : StorageEngine) × (check_flush_completion e ≡ (e', ok tt))
          × Settles Keeps e map_of e'
    unfolding check_flush_completion complete_all
    check-result e map_of c (tx, waits) = by_phase c.phase
      where
        by_phase :
            FlushPhase e
            → (e' : StorageEngine) × (check_flush_completion e ≡ (e', ok tt))
              × Settles Keeps e map_of e'
        by_phase (idle i tx' rx) = absurd (let w = rw i at waits in cc)
        by_phase (queued m old path id i same fits filled tx' rx) =
            absurd (let w = rw tx at tx' in cc)
        by_phase (written m t r i tx' rx opened answers) = (
          completed e t,
          rw (rx, opened) refl,
          (
            completed-Coherent e map_of t c tx
                (λ key. unfold get in get-completed e m t key i answers),
            (refl, tx, refl),
            refl,
          ),
        )

    -- Whatever is there, the engine takes it, and reads stay as they are.
    pub check-Coherent :
        (e : StorageEngine) (map_of : List ℕ → Option (List ℕ))
        → Coherent Keeps e map_of
        → (e' : StorageEngine) × (check_flush_completion e ≡ (e', ok tt))
          × Coherent Keeps e' map_of
          × (e'.memtable ≡ e.memtable)
    check-Coherent e map_of c = by_phase c.phase
      where
        by_phase :
            FlushPhase e
            → (e' : StorageEngine) × (check_flush_completion e ≡ (e', ok tt))
              × Coherent Keeps e' map_of
              × (e'.memtable ≡ e.memtable)
        by_phase (idle w tx rx) = (e, check-no_result e rx, c, refl)
        by_phase (queued m old path id w same fits filled tx rx) =
            (e, check-no_result e rx, c, refl)
        by_phase (written m t r w tx rx opened answers) =
            let (e', checked, (c', settled, memtable)) = check-result e map_of c (tx, rw w refl) in
            (e', checked, c', memtable)

  pub wait-none :
      (turns : ℕ → ℕ) (n : ℕ) (e : StorageEngine)
      → e.immutable_memtable ≡ none
      → wait_for_flush turns n e ≡ (e, ok tt)
  unfolding wait_for_flush
  wait-none turns zero e i = refl
  wait-none turns (suc n) e i = rw i refl

  module _ {Keeps : Bool → ℕ → Type 0} where
    -- A round settles a flush whose result is there.
    wait-result :
        (turns : ℕ → ℕ) (n : ℕ) (e : StorageEngine) (map_of : List ℕ → Option (List ℕ))
        → Coherent Keeps e map_of
        → IsReported e
        → 0 < n
        → (e' : StorageEngine) × (wait_for_flush turns n e ≡ (e', ok tt))
          × Settles Keeps e map_of e'
    unfolding wait_for_flush
    wait-result turns zero e map_of c reported pos = absurd (omega arith)
    wait-result turns (suc n) e map_of c reported pos =
        let (e', checked, settles) = check-result e map_of c reported in
        (e', rw (reported.1, checked, settles.1.0) (wait-none turns n e' settles.1.0), settles)

  -- A round in which the thread has nothing to report.
  wait-round :
      (turns : ℕ → ℕ) (n : ℕ) (e : StorageEngine)
      → is_waiting e.immutable_memtable ≡ true
      → e.flush_rx ≡ []
      → wait_for_flush turns (suc n) e ≡ wait_for_flush turns n (run_flush_thread (turns n) e)
  unfolding wait_for_flush
  wait-round turns n e waits rx = rw (waits, check-no_result e rx, waits) refl

  run-idle : (k : ℕ) (e : StorageEngine) → e.flush_tx ≡ [] → run_flush_thread k e ≡ e
  unfolding run_flush_thread
  run-idle zero e tx = refl
  run-idle (suc k) e tx = rw (turn-idle e tx) (run-idle k e tx)

  module _ {Keeps : Bool → ℕ → Type 0} where
    -- Where the flush thread takes a turn in some sleep but the last, the wait succeeds, the flush is
    -- settled, and reads stay as they are.
    pub wait-Settles :
        (turns : ℕ → ℕ) (n i : ℕ) (e : StorageEngine) (map_of : List ℕ → Option (List ℕ))
        → IsUsable filters
        → Coherent Keeps e map_of
        → 0 < i
        → i < n
        → 0 < turns i
        → (e' : StorageEngine) × (wait_for_flush turns n e ≡ (e', ok tt))
          × Settles Keeps e map_of e'
    unfolding wait_for_flush
    wait-Settles turns zero i e map_of usable c pos below turn = absurd (omega arith)
    wait-Settles turns (suc n) i e map_of usable c pos below turn =
        by_phase (λ before. wait-Settles turns n i e map_of usable c pos before turn) c.phase
      where
        Settled_from : StorageEngine → Type 0
        Settled_from start =
            (e' : StorageEngine) × (wait_for_flush turns n start ≡ (e', ok tt))
            × Settles Keeps e map_of e'

        in_sleep :
            (i < n → Settled_from e)
            → (m old : MemTable) (path : TableName) (id k : ℕ) → k ≡ turns n
            → e.immutable_memtable ≡ some m
            → m.entries ≡ old.entries
            → IsTable old.entries
            → Memtable.is_empty old ≡ false
            → e.flush_tx ≡ flush old path id ∷ []
            → e.flush_rx ≡ []
            → Settled_from (run_flush_thread k e)
        in_sleep later m old path id zero none_taken w same fits filled tx rx =
            unfold run_flush_thread in later (grind arith)
        in_sleep later m old path id (suc k) taken w same fits filled tx rx =
            let (c', tx', w', memtable) =
              turn-queued e map_of m old path id usable c w same fits filled tx rx in
            let (e', waited, (c'', settled, memtable')) =
              wait-result turns n (flush_thread_turn e) map_of c' (tx', rw w' refl) (omega arith) in
            (
              e',
              unfold run_flush_thread in rw (run-idle k (flush_thread_turn e) tx') waited,
              (c'', settled, memtable' ∙ memtable),
            )

        by_phase :
            (i < n → Settled_from e)
            → FlushPhase e
            → (e' : StorageEngine) × (wait_for_flush turns (suc n) e ≡ (e', ok tt))
              × Settles Keeps e map_of e'
        by_phase later (idle w tx rx) = (e, wait-none turns (suc n) e w, (c, (w, tx, rx), refl))
        by_phase later (queued m old path id w same fits filled tx rx) =
            let (e', waited, settles) =
              in_sleep later m old path id (turns n) refl w same fits filled tx rx in
            (e', wait-round turns n e (rw w refl) rx ∙ waited, settles)
        by_phase later (written m t r w tx rx opened answers) =
            wait-result turns (suc n) e map_of c (tx, rw w refl) (omega arith)

    -- A turn of the thread and a check settle a flush, wherever it is.
    pub settle-Coherent :
        (e : StorageEngine) (map_of : List ℕ → Option (List ℕ))
        → IsUsable filters
        → Coherent Keeps e map_of
        → (e' : StorageEngine) × (check_flush_completion (flush_thread_turn e) ≡ (e', ok tt))
          × IsSettled e'
          × Coherent Keeps e' map_of
    settle-Coherent e map_of usable c = by_phase c.phase
      where
        by_phase :
            FlushPhase e
            → (e' : StorageEngine) × (check_flush_completion (flush_thread_turn e) ≡ (e', ok tt))
              × IsSettled e'
              × Coherent Keeps e' map_of
        by_phase (idle w tx rx) = (e, rw (turn-idle e tx) (check-no_result e rx), (w, tx, rx), c)
        by_phase (queued m old path id w same fits filled tx rx) =
            let (c', tx', w', memtable) =
              turn-queued e map_of m old path id usable c w same fits filled tx rx in
            let (e', checked, (c'', settled, kept)) =
              check-result (flush_thread_turn e) map_of c' (tx', rw w' refl) in
            (e', checked, settled, c'')
        by_phase (written m t r w tx rx opened answers) =
            let (e', checked, (c', settled, kept)) = check-result e map_of c (tx, rw w refl) in
            (e', rw (turn-idle e tx) checked, settled, c')
