-- ===== src/Lib.antt =====
-- The storage engine of src/: a log-structured merge tree of a write-ahead log, a memtable and
-- sorted tables.
--
-- A write is appended to the log (src/wal.rs) and put into the memtable (src/memtable.rs); a full
-- memtable is written to a table file (src/sstable/), after which the log is cleaned up; on a start
-- the log is replayed. The files here follow these parts:
--
-- - Base: the library names and lemmas that the parts share.
-- - Types: Entry, OpType, StorageError and Result of src/lib.rs and src/error.rs. Result has a third
--   outcome, panic. Types/Keys has the order of byte strings, Types/Entries ascending lists, and
--   Types/Bytes the integer methods of the bytes crate as an interface, with an implementation.
-- - Wal: src/wal.rs. Wal/Dir is the directory of segments, Wal/Record has encode_record, read_record
--   and recover_segment, and Wal the operations of Wal and WalSegment. Wal/Log relates a log to the
--   list of its operations, Wal/Runs has runs of all operations but the cleanup, and Wal/Cleanup
--   what a cleanup leaves. The checksum of crc32fast is an interface.
-- - Memtable: src/memtable.rs, the BTreeMap as a list in ascending order of keys.
-- - Sstable: src/sstable/. Header, Footer and Index are format.rs, Varint and Block are block.rs and
--   the decoder of reader.rs, and Bloom is bloom.rs. The default hasher, whose algorithm is not
--   specified, and the snap crate are interfaces.
--   Writer and Reader are writer.rs and reader.rs on the bytes of a file, and Writer/RoundTrip has
--   the two together.
-- - Engine: src/storage_engine.rs. Engine has the state, get and the synchronous flush, Background
--   the flush thread and the hand-over to it, Compact the compaction of files (with compact_sstables
--   of src/compaction.rs), Put, Scan and Start the rest, and Runs sequences of puts and of turns of
--   the thread. Coherence is the invariant of such runs, and Recovery is about a restart.
-- - Text and Server: src/commands/server.rs, a connection's lines and their replies, and in Client the
--   requests of src/commands/client.rs, with the number format and the HTTP of its metrics command.
--   Start is the start of the server.
-- - Compaction: src/compaction.rs, the merge of scanned tables in Merge (by the invariant of Invariant
--   and the steps of Heap, Take and Round) and the choice of the tables in Select.
-- - Metrics: the counters, gauges and histograms of src/metrics.rs. Registry has the registry with its
--   rates, as exact fractions, and Reads what a read of the engine counts.
-- - Dashboard: what the two endpoints of src/http_server.rs give of the registry, and in Scrape what is
--   read from it; Endpoints has the two against each other.
-- - Examples: runs on concrete inputs.
--
-- Bytes are numbers below 256 and byte strings lists of them; the widths of machine integers are
-- written out. The loops that read records, index entries and block entries are on fuel; each round
-- takes a byte at least, so the length of the input is enough, and the callers here give that much.
--
-- A reader of a table has its bytes, and the new ones once a compaction has written over its file. A
-- compaction creates its output before it scans the inputs; of the file that a failed merge leaves only
-- the first header is there, without the blocks written by then.
--
-- Not modelled: errors of the file system, which every operation here is free of; the text of error
-- messages; the floating-point sizes of a new bloom filter, which are arguments, as are the places of
-- percentiles and the text of fractions; the metrics that operations other than a read count, and the
-- summary of the metrics; the web framework of the dashboard, the accept loop of the server, the JSON
-- that the metrics command of the client reads and the page that it prints, and the command line.
--
-- The two threads of the engine share its channels and the files. The flush thread takes whole turns,
-- a message in each, between the steps of the engine; how many turns it takes in each sleep of a wait
-- is an argument. The wait itself is on fuel, the 100 rounds of the source.
pub mod Base
pub mod Types
pub mod Sstable
pub mod Memtable
pub mod Wal
pub mod Engine
pub mod Compaction
pub mod Text
pub mod Dashboard
pub mod Server
pub mod Metrics
pub mod Examples
