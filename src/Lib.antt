-- ===== src/Lib.antt =====
-- LedgerFS, a ledger with an append-only event store that is shown as a file system. The crates are
-- crates/ledgerfs-core (the domain), crates/ledgerfs-event-store (the store on RocksDB) and
-- crates/ledgerfs-fuse (the file system). Events enter the store by its append operations, are read
-- back by its queries and are checked by the recovery manager. The file system gives inodes to
-- paths and answers reads from the repositories of the core's traits.
--
-- Core models crates/ledgerfs-core/src: Core.Types and Core.Amount types.rs, Core.Events events.rs,
-- Core.Commands commands.rs, Core.Errors the error types of errors.rs. An i64 is an integer with
-- its bounds written out, a time is its nanoseconds since 1970, a Uuid is the list of its bytes.
--
-- Store models crates/ledgerfs-event-store/src: Store.Codec and Store.Keys serialization.rs
-- (serialize, deserialize, generate_event_key), Store.Config config.rs, Store.EventStore,
-- Store.Append and Store.Query store.rs (append_event, append_events, append_events_optimized,
-- compact; get_event, query_events, get_latest_events, get_statistics), Store.Open the opening,
-- Store.Recovery recovery.rs, Store.Batch the configurations, EventBatch and SyncBatchWriter of
-- batch.rs, Store.Processor its BatchProcessor. Store.Ledger is what the store promises, a list of
-- events in the order of their keys, and Store.Ledger.Bags the view that forgets the order in which
-- they came. Store.Suite has the tests that stand in the files. An operation that holds the write
-- lock is a function from the store to a result and the next store; an operation that only reads is
-- a function of the store. RocksDB, bincode, lz4 and chrono are parameters (Store.Rocks,
-- Store.Codec, Store.Keys, joined in Store.Platform) with their documented behaviour as hypotheses:
-- RocksDB reads and iterates a table that is sorted by key (Store.Table), writes a batch wholly or
-- not at all, and may fail at any call. Store.Tests.Memory has a database in memory that meets
-- them.
--
-- A BatchProcessor is a system of tasks, senders and a clock. Store.Processor.Worker has the places
-- of a task of run_batch_processor, a function for each branch of its select!, and the relation of
-- its moves; Store.Processor.System has the steps of all in any order, and the states that they
-- reach. A flush is two moves, one under the store's lock and one under the lock of the metrics
-- (Store.Processor.Metrics). The bounded channel of tokio and the creation of its timer, which
-- panics for a zero period, are parameters with their documented behaviour
-- (Store.Processor.Channel), as are the operations of f64. A shutdown signals the tasks that wait
-- in select!, and no others. The timer may tick at any time, and any waiting task may hold the
-- receiver. The lists of the events sent and of the appends done are kept beside the state, for the
-- statements.
--
-- Fuse models crates/ledgerfs-fuse/src: Fuse.Paths path_resolver.rs over the operations of str in
-- Prelude.Text, Fuse.Inodes the inode table of filesystem.rs, Fuse.Attributes and Fuse.Filesystem
-- its handlers lookup, getattr, read and readdir; Fuse.Filesystem.Requests runs sequences of them.
-- Replies are values: data, ENOENT or a panic. The repositories, the JSON text and the text of a
-- Uuid are parameters, joined in Services. Core.Traits has the traits of traits.rs; Fuse.Program
-- has the repositories of bin/ledgerfs-fuse.rs that implement them, and the services that main
-- makes of them, Fuse.Program.Main main with its arguments and the lines that it prints. Fuse.Mount
-- models mount.rs and lib.rs over a world in which commands run.
--
-- Prelude has the shared helpers: tests on numbers, lists, the integers, byte strings and results.
-- Loops are recursion on the list that the code iterates, so that no fuel is needed. The inode
-- counter and the counters of events and metrics are unbounded here, where the code's wrap after
-- 2^64. A name that the kernel asks for is the bytes of UTF-8. The client of Store.Query.Pages,
-- which reads page after page, is not the repository's; its fuel shows when it does not stop. The
-- identifiers and times that get_transaction_history draws are numbered over all its calls
-- (Fuse.Program); one set of Services answers with those of one moment.
--
-- Not modelled: log lines, the branches for macOS, SerializedEventEnvelope of serialization.rs,
-- which nothing uses, and the texts of the errors of the core.
pub mod Prelude
pub mod Core
pub mod Store
pub mod Fuse
