-- ===== src/Lib.antt =====
-- index-provider: an engine that publishes what content a provider has as a chain of signed
-- advertisements, and the caches and policies around it.
--
-- Parts and files
--   Prelude, Exec           names, lists and key sets; actions that return their state beside a
--                           result or an error, with rules for what an action establishes
--                           (Exec/Post), which preorder it respects (Exec/Within), and that it
--                           returns (Exec/Sure).
--   Datastore               the go-datastore interface that the program calls, with the laws that the
--                           theorems use; Datastore/Queries adds queries; Datastore/Assoc and
--                           Datastore/Listed are stores in memory that have them.
--   Schema                  advertisements, and what is used of ipld, libipni and the peer libraries.
--   Engine                  engine/engine.go. Engine/Keys: the keys of the maps. Engine:
--                           the maps, PublishLocal and Publish, and the writer of
--                           engine/linksystem.go. Engine/Publish: NotifyPut, NotifyRemove and
--                           publishAdvForIndex, PublishLatest, GetAdv and GetLatestAdv.
--                           Engine/LinkSystem: the reader of engine/linksystem.go. The other files
--                           under Engine hold the proofs.
--   Chunker/Cached          engine/chunker/cached_chunker.go: the cache of entries' blocks over the
--                           datastore, with reference counts; Words is its encoding of a count.
--                           Chunker/Cached/Restore: Clear, restoreCache and the constructor.
--   Entries                 the chunks of multihashes and their codec, a parameter.
--   Chunker/Chain           engine/chunker/chain_chunker.go.
--   Iterators               multihash_iterator.go: the iterators over a slice, over the index of a CAR
--                           and over a chain of chunks.
--   Routing                 delegatedrouting: the listener that announces the CIDs of a Kubo node.
--                           Queue: cid_queue.go. State: the listener's state and what it is given.
--                           Chunks: chunker.go. Store and Snapshot: ds_wrapper.go. Publish,
--                           Listener and Requests: listener.go, from the calls of the engine to
--                           ProvideBitswap. Restore: what New reads, with the initialisation in
--                           ds_wrapper.go. The other files hold the proofs; Steps, Removal, Flushed and
--                           Provided are walks that any invariant can use.
--   Mirror                  mirror: a copy of another provider's chain. Keys and Reading: store.go and the
--                           link system of mirror.go. Copying: mirror.go, from remapping the entries of
--                           an advertisement to a round of Start; its children hold the proofs.
--   Xproviders              engine/xproviders/xproviders.go: advertisements with extended providers.
--   Supplier                supplier/car_supplier.go: the CAR files of a provider; Supplier/OverEngine
--                           hands it the engine.
--   Cleanup                 engine/datastore.go: deletePrefix.
--   Policy                  engine/peerutil/policy.go and engine/policy/policy.go.
--
-- The engine stores an advertisement, links it to the latest one and moves the latest reference; four
-- maps in the datastore, written in the same call, say which context IDs are published with which
-- entries and metadata. Its entries come from the cached chunker, which counts the references that
-- cached DAGs have to a shared block, and drops a block with its last one.
--
-- The listener collects announced CIDs in a current chunk, publishes a full or an old chunk at the
-- engine, which asks back for its multihashes, and takes out of the queue, and out of their chunks, the
-- CIDs that have not been announced for the TTL.
--
-- A mirror syncs the advertisements of its source, chunks their entries anew if it is told to, and
-- publishes its copies as a chain of its own. A CAR supplier keeps the paths of CAR files by context ID,
-- notifies the engine of them, and lists their multihashes for it.
--
-- Conventions
--   * What is not in this repository is a parameter: the datastore, the LRU cache, the inner chunker,
--     the hash and the codecs of ipld, the publisher and the announce senders. Each has its
--     documented laws as fields or hypotheses, and a concrete instance in the tests.
--   * Every datastore call may fail; a write that fails has been done whole or not at all. A method's
--     state after an error is the state at that error. `Error` keeps what errors.Is sees: an error
--     wrapped by `%w` is the error, one formatted by `%s` is a text. A nil dereference or a slice index out of
--     range is the error `panic`.
--   * A datastore key is a constructor applied to what the source makes the key's text from; where two
--     texts can be equal for different arguments, as for context IDs, the text itself is the argument.
--     That NewKey cleans a path is not modelled.
--   * A call of a method is one step. `Chunk`, `ProvideBitswap`, a run of the flush worker and the methods
--     of engine/policy hold a lock throughout; the engine publishes without one, so for it this is the
--     case of calls one after the other. Logs, contexts and metrics are left out.
--   * A Go map used as a set is the list of its keys. A policy holds a reference to its map, which two
--     policies can share, so the maps stand in a heap.
--   * The chunks of the listener are shared by its chunker and its queue, so they stand in a heap, and
--     so do the elements of the queue's list; a pointer is a number. The order in which `range` visits
--     a map is that of the list that stands for the map. Times are nanoseconds after 1970 that a clock
--     gives by the number of the call, and nonces likewise. The engine that the listener is given may
--     call the lister and changes the listener in no other way. Retries make no pauses.
--   * Loops are structural recursion, over the advertisements, links or blocks, so no fuel is needed,
--     but for the slices of a snapshot and the pages of a query, where the length of the list and one
--     more than the number of the entries are shown to be enough. The slices have a positive size, a
--     condition that the listener's setup has: with 0 the loop of the source never ends.
--     The links under a root key are read with the length of the value, and one, as fuel, which is
--     shown to be enough. The mirror's read opener loads entries by the link system it belongs to, so the
--     depth of such calls is bounded by a number; the theorems hold for every number, or every positive
--     one. The mirror's iterators over entries and the calls of its chunker for them are parameters.
--     The reference counts are 64-bit words, stored as eight bytes, and wrap; the theorems on them say
--     that the count stays below 2 ^ 64, which holds as long as the cache has fewer links.
--
-- Not modelled: starting and stopping the engine and its options, the HAMT chunker and iterator, the
-- listener's options, statistics and the rest of New, the mirror's constructor and options, data
-- transfer, the servers and the command line: they configure the parts, or decode a request and call
-- one of them. Deadlines and the cancellation of contexts are left out.
pub mod Prelude
pub mod Exec
pub mod Datastore
pub mod Schema
pub mod Entries
pub mod Iterators
pub mod Engine
pub mod Words
pub mod Chunker
pub mod Policy
pub mod Routing
pub mod Mirror
pub mod Xproviders
pub mod Supplier
pub mod Cleanup
