-- ===== src/Lib.antt =====
-- Verification of the SochDB Go client library (package sochdb at the repository's root).
--
-- The library gives Go programs a key-value database, over an embedded engine or a server, and
-- builds on it queues, collections and caches. Its own logic is in Go; the engine (C functions),
-- the server, the connection, encoding/json, float32, the clock and the random generator are not part
-- of it, and enter here as parameters with the laws that they document.
--
-- Files.
--   Prelude: shared names; lists and tests on native numbers; byte strings with their order,
--     prefixes, segments between slashes and fixed-width integers (Prelude/Bytes); tuples in
--     lexicographic order (Prelude/Lex); maps with strings for keys
--     (Prelude/Maps); int64 and its conversions (Prelude/Int);
--     Go's (value, error) results (Prelude/Result).
--   Store: the database that the Go code holds as interface{}: the methods that its type assertions
--     find (Store), what they document (Store/Laws), and a database in memory that has the laws
--     (Store/Memory).
--   Queue: queue.go. Queue/Key is encodeU64BE to DecodeQueueKey; Queue/Task the task, the
--     configuration and the interface to encoding/json; Queue/Ops the methods of PriorityQueue with
--     their loops (Queue/Ops/Scan) and counters (Queue/Ops/Stats). The proofs are in Queue/Backend,
--     Queue/Matching, Queue/Dequeue, Queue/Update, Queue/Lifecycle (Ack and Nack), Queue/Enqueue
--     and Queue/Purge; Queue/Tests has runs and the theorems at concrete inputs.
--   Wire: client.go. Wire/Payload has the opcodes, the frame of sendMessage and the payloads of the
--     requests; Wire/Entries the loops of readScanResponse and readQueryResponse; Wire/Client the
--     connection, readMessage, the readers of responses and the helpers of the requests;
--     Wire/Requests the requests of IPCClient. Wire/Pipe is a connection in memory. The proofs are in
--     Wire/Payload/ReadBack, Wire/Entries/Safety and RoundTrip, Wire/Client/Frames, and
--     Wire/Requests/Closing and Answers.
--   Format: format.go, with proofs in Format/Laws.
--   Overlay: what client.go builds on Get, Put and Scan, as an interface that IPCClient fills, with
--     the server's laws (Overlay/Laws): AddNode and AddEdge (Overlay/Graph), Traverse
--     (Overlay/Traverse, with proofs in its children), CachePut and CacheGet
--     (Overlay/Cache), StartTrace, StartSpan and EndSpan (Overlay/Traces). The proofs are in
--     Overlay/Graph/Edges, Overlay/Cache/Loop, Best and Keys, and Overlay/Traces/Spans.
--   Embedded: embedded/database.go, over the C engine as a parameter: the transactions (Embedded) and
--     the scan iterator (Embedded/Scan), with proofs in Embedded/Ends and Embedded/Reads.
--   Context: context_builder.go. Context has the sections and the truncation strategies,
--     Context/Execute the formats and Execute, Context/Text strings.TrimSpace. The proofs are in
--     Context/Truncate, Totals and Budget.
--   Namespace: namespace.go. Namespace has the types and keys, Namespace/Vectors and Search the
--     methods of Collection, Namespace/Handle those of Namespace. The proofs are in
--     Namespace/Keys, Stored and Refine (the abstract map of vectors), Creation, Removal and Ranking.
--   SemanticCache: semantic_cache.go, over the writes and scans of the database, with proofs in
--     SemanticCache/Purging.
--   MemorySystem: memory_types.go. MemorySystem/Scoring and Retrieval are memory_retrieval.go,
--     MemorySystem/Consolidation memory_consolidation.go, and MemorySystem/Extraction
--     memory_extraction.go; what they read and write is in the children Stored. Go maps are
--     association lists (Prelude/Maps). The proofs are in MemorySystem/Allowed, Scoring/Ranks and
--     Counting, Retrieval/Isolation, Consolidation/Contradictions, Writes and Covers, and
--     Extraction/Valid and Commits; MemorySystem/Memory is a database in memory.
--
-- How state is modelled. A method takes the handle and the database, and returns them with its Go
-- result. A write returns the database after the call and whether its error is nil; a lawful write
-- that fails changes nothing. Byte slices and strings are lists of bytes; values that encoding/json
-- makes are of an abstract type. int64 values are integers with their range as a hypothesis,
-- uint64 arithmetic wraps by % 2 ^ 64. The retries of a task and the counters are natural numbers:
-- they start at 0 and the code only adds one or takes one from a positive counter. Loops recur on
-- the list that a scan returns, or on the count that a response states, so no fuel is needed;
-- only the loop of Traverse runs on fuel, and Overlay/Traverse/Halting shows that enough exists.
-- Offsets into a response are natural numbers: Go's int has 64 bits, and an offset stays below 2 ^ 34.
--
-- Not modelled: what other workers do between two calls of one method (each method runs alone);
-- connecting; of embedded/database.go opening and closing, checkpoint, statistics and index
-- policies; the hit rate of the semantic cache, a quotient of floats; the random ids, which are
-- arguments; errors.go beyond the errors of the client; the types of memory_types.go that no code
-- reads; and sochdb.go, which has no logic. The gRPC client forwards to generated stubs;
-- these, the commands and the example programs have no logic of the library.
pub mod Prelude
pub mod Store
pub mod Queue
pub mod Wire
pub mod Format
pub mod Overlay
pub mod Embedded
pub mod Context
pub mod Namespace
pub mod SemanticCache
pub mod MemorySystem
