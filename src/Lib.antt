-- ===== src/Lib.antt =====
-- mini-graph-db is a property-graph database in Go. Queries run on a graph facade, which keeps
-- nodes and edges through graphstore as keys and values; the transaction manager (internal/txn)
-- versions those keys for snapshot isolation, and an engine (internal/storage/memory, or the pages
-- of internal/storage/disk) keeps the versions.
--
-- This library models the storage side from the bottom up, and the graph that stands on it.
-- - Prelude: Boolean tests, lists, byte strings (`bytes.Compare`), Go maps as association lists,
--   `int`.
-- - Storage: internal/storage/engine.go (keyspaces, sentinel errors, results) and the codes of
--   internal/gerr/gerr.go; Storage/WriteSet.antt is the nested map of writes that memTx and Tx
--   share.
-- - Memory: internal/storage/memory/engine.go. Space is `space` (put, del, `sort.Search`),
--   Snapshot is `snapshot` with `materialize` and the publishing loops of `Commit`, Engine is
--   `Engine` and `memTx` (begin, get, put, delete, commit, rollback, mark, rollback_to, crash,
--   close), Cursor is `memCursor`. Their children hold the proofs.
-- - Txn: internal/txn. Version is version.go, Versions is store.go and the version functions of
--   tx.go (resolve, validate, publish, archive), Manager is manager.go and the methods of `Tx`
--   (Manager/Commit on failed commits, Manager/Isolation on what a commit leaves in the engine,
--   Calls and Others on what each call keeps, Snapshots and Run on runs of calls on transactions,
--   without Vacuum, Crash and Close, Refines on
--   commits against an abstract store), all over the engine interface of Txn/Backend.antt, which
--   Txn/MemoryBackend.antt fills with the memory engine. An engine's Commit that returns an error has
--   published nothing there, so an AfterCommit hook of the engine that fails is outside the model. Versions/History, Scans, ChainKeys,
--   Clean, Archive, Kept and Apart are the steps to Versions/PublishOp (one write) and
--   Versions/PublishAll (a write set); Versions/Conflicts is about validate. Open is Open, Close
--   and the migration of store.go (Open/Reopen: opening again after calls on transactions; Open/Fresh: an
--   engine that holds nothing).
-- - Wal: internal/wal. Words is `binary.LittleEndian`, Record is record.go (frames, headers, the
--   payloads of redo records), Reader is reader.go (openSpan, Log.Reader over the spans that it is
--   given, reset, Next, readRecord). Reader/Log writes segments out of `append_record` alone; which
--   files log.go leaves is not modelled, and a span's limit is 0 or the length of the synced part. A file is its bytes; the CRC-32 is a parameter, any function
--   into uint32.
-- - Value: internal/value. Value is value.go (kinds, the struct's arms as constructors,
--   `Storable`, `PathOf`), Number is number.go over the bits of a float64, Compare and Logic are
--   compare.go, Uvarint and Record are record.go, Civil is the calendar of temporal.go. A finite
--   float is the multiple of 2 ^ -1074 it stands for, and a conversion from int64 rounds to the
--   nearest even. Flip and Chain hold what all comparisons share, Number/Exact and Compare/Total
--   the facts about numbers and whole values, Record/Total and Record/RoundTrip those about
--   records.
-- - Graph: internal/storage/graphstore and internal/graph/graph.go. Keys and Names are keys.go
--   (Keys/Apart: a key names what it was built from), Records is record.go (Records/Ends: the ends
--   of an edge are read back; Records/Props: whole
--   records are), Store is store.go with the operations on one node or one edge, over
--   the same engine interface. Indexing is what they take from their neighbours: `value.EncodeKey`, the
--   declared indexes, the write count and the checks before a commit, with laws on the keyspaces that
--   these touch. Declared is declared.go with the entries of internal/index and the write count of
--   internal/catalog; `declared` of Declared/Keyspaces fulfils the laws with them, whatever
--   `catalog.Load`, the encodings of values and the writes to keyspace C before a commit are, these
--   being parameters without laws.
--   Store/Links states when a graph is linked, Links/Writes how a write of an edge keeps it so,
--   Frames what names and label and property indexes leave alone, Scans what a prefix scan finds,
--   Reads what the reads have found, Edges and Nodes what each operation does to the graph. Queries is the rest of the reads of store.go
--   (Queries/Missing: which errors mean that an edge is missing; Gather and Between: what a loop
--   over keys finds; Shown: what an edge shows; Once: none
--   twice), Traverse is `DFS` of traverse.go (its depth counts down), Snapshot is
--   `Replace` (Snapshot/Clear: what clearing leaves). Facade
--   is the calls of internal/graph/graph.go on one node or one edge outside an explicit transaction,
--   Facade/Runs any sequence of them, failed ones included, and Facade/Reads the queries.
-- - Tests: runs of the definitions, and the theorems at concrete inputs.
--
-- A method that holds the engine's or the manager's lock is one step; a pointer to a transaction
-- is a handle into a heap of transactions. `sort.Search` and `sort.Slice` are modelled by what
-- they return. Go's maps are association lists, and the order in which a loop ranges over one is
-- the list's. Timestamps and counters are uint64 and wrap; lengths are unbounded. Fuel stands only
-- in Memory/Cursor/Seeks.antt (`walk`), where the length of the view is enough, and in
-- Value/Record.antt (`decode`), where twice the length of the input is. There and in
-- Graph/Records.antt (labels and properties) a count that `make` cannot allocate makes Go panic
-- before it reads an element; the model reads on and finds the input cut short.
--
-- Not modelled: time and the gauges that report it, the background vacuum, the texts of errors,
-- copies of byte slices (values are immutable here), internal/wal/log.go, export,
-- breadth-first traversal and unique constraints of graphstore, explicit
-- transactions, Import as a call of the facade, the schema and statistics of internal/graph, and the packages outside
-- internal/storage/memory, internal/storage/engine.go, internal/storage/graphstore, internal/graph,
-- the entries of internal/index and the write count of internal/catalog,
-- internal/gerr, internal/txn, internal/wal and internal/value, of which the keys, the hash, the
-- parsers of temporal.go and the literal syntax are not modelled. An explicit transaction keeps the
-- writes of a call that failed half way; calls outside one, which are modelled, are rolled back at
-- once.
pub mod Prelude
pub mod Storage
pub mod Memory
pub mod Txn
pub mod Value
pub mod Graph
pub mod Wal
pub mod Tests
