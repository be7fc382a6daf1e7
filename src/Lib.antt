-- ===== src/Lib.antt =====
-- Verification of WTF, a distributed file system: the map from file addresses to stored blocks, the
-- coordinator of the cluster and the daemons' link to it, the store of blocks, and a client's writes.
--
-- The parts, and the files that model them:
--   * IntervalMap (with Tiles, Room, Splice, Reads, Truncate, Slices, Pack, Defects): common/interval_map.cc
--     and common/interval_map.h. A file is a std::map from block starts to slices; `insert`,
--     `truncate`, `file_length` (length), `get_slices` and the wire form carry the names of the source.
--     The branches and the loops of `insert` and `get_slices` are definitions of their own.
--   * Barrier (with Waiting, Order, Progress, Newest, Recreated): coordinator/server_barrier.cc. The coordinator
--     keeps three barriers: for acknowledged and for stable configurations, and for stable checkpoints.
--   * Server (with Order): common/server.h, and the operations of coordinator/coordinator.cc on its
--     vectors of servers.
--   * Coordinator (with Handlers, Calls, Reachable, and the proofs in Conditions, Invariant, Safety):
--     coordinator/coordinator.cc, and the calls of coordinator/transitions.cc. A handler takes the state
--     and gives a response and the state after it; `none` stands for a failed assertion. Servers has the
--     order of the ids along the vector of servers, Snapshot the snapshots and the wire form of a barrier
--     (coordinator/server_barrier.h); Recreated of Barrier has the barriers of a recreated coordinator.
--   * Configuration (with Wire, Delivery): common/configuration.cc, the wire form that the coordinator
--     packs and its clients unpack; RoundTrip of Wire joins the two.
--   * VBlock (with Places): blockstore/vblock.cc, the slices of a stored block on the disk.
--   * BlockStore (with Log, RoundTrip): blockstore/disk.cc, blockstore/blockmap.cc and the wire form of
--     blockstore/vblock.h.
--   * Link (with Rounds, Tracking, Reachable, Acks): daemon/coordinator_link_wrapper.cc. The calls that a
--     daemon makes of the coordinator, and the rounds of `maintain_link`, each for what `loop` gives.
--     `Linked` has the states that the daemon's calls and the rounds lead to, in any order. Section (with
--     Counts, Steps, Exclusive) has the critical section: `Step` is what one thread does between two waits
--     for the mutex, and `Reached` the orders of such steps.
--   * Daemon (with Stored, Answers): the handlers of daemon/daemon.cc for get, update and truncate. A
--     handler gives the messages that it sends; `none` stands for undefined behaviour.
--   * Client (with Nonces): sending and receiving in client/client.cc and client/pending_aggregation.cc.
--     Write: the loop of client::write (fuel: one round for a byte). Paths (with Names, Canonical):
--     client::canon_path, on the bytes of a path (fuel: one round for a byte). File: client/file.cc and
--     common/block.cc. PendingWrite (with Replies beside it): client/pending_write.cc, from the replies
--     of the servers to the conditional put of the file's map. Deferred (with Queued, Alone, Stuck): the
--     writes of one file that wait for one another; `Steps` has the orders in which they are made and
--     answered.
--   * CoordinatorLink (with Loops, Ready, Callback, Loop, Answers, Ensure, Reachable, Delivered):
--     common/coordinator_link.cc, which fetches configurations for the daemons and the clients. What the
--     caller's `status` points to is a field; `none` stands for a failed assertion (here or in add_server of
--     common/configuration.cc, while an output is unpacked), or fuel that ran out.
--     A round of a loop and what follows `m_repl.loop` are definitions of their own. `Used` has the links
--     that the public operations lead to; Delivered joins a link to the coordinator.
--   * Admin (with Outstanding, Rounds, Once): admin/admin.cc and admin/coord_rpc_generic.cc, the calls of
--     the administration library and the rounds of its loop. `Run` has the results of the calls and of
--     the loop in any order.
--   * Prelude, OrdMap and Codec: shared tests, lists and 64-bit words, std::map with its iterators, and
--     the serialization library. Tests holds the theorems at concrete inputs.
--
-- Numbers are 64-bit words with their wrap-around (add64, sub64). Where a message has a uint32_t, to32
-- takes it; the ids of Admin are below 2 ^ 63, as an int64_t that is not negative. A read that ends in
-- error leaves the variable as it was. An iterator is the list of entries
-- from it on.
--
-- Parameters, for code that the repository does not hold: the state machine library (Env, with the law
-- that a condition counts its broadcasts, Counts), addresses (Net), serialization (Codec, with its
-- laws; `padded` meets them), addresses in bytes (Addresses), vectors in bytes (Vectors, with the law
-- that they come back), the client of the replicated state machine (Replicant, with the law that its
-- ids grow, Numbers; Client of CoordinatorLink, with the law that each operation ends once, Ends, and
-- the law that no output of it fails the assertion of add_server, AllDistinct; Net of Admin, with
-- BusyBee), BusyBee (the result of each send), HyperDex (Hyperdex) and LevelDB (Db).
--
-- Fuel: the loops that broadcast run with the version that they wait for, which bounds the number of
-- rounds; the loops that remove elements of a vector run with its length. `loop` of CoordinatorLink
-- needs two rounds, `ensure_configuration` three more than the client has operations in progress. Where
-- the fuel of a broadcast loop ran out the result would be `none`.
--
-- Not modelled: log messages, printing, the allocation of a snapshot's buffer, the unpacking of
-- arguments, the setup of the block store, the choice of random servers, threads and signals of the
-- daemon but for the link's section, its registration and the dispatch of its messages; the memory
-- that unpacking a configuration reserves; of the client, open files, reads, the metadata calls, and
-- what the retry of a put reads; the administration library's messages to servers, tools and bindings.
-- Where the source has no defined behaviour (a step before begin(), behind end() or from an erased
-- iterator), the map operations of IntervalMap leave the map alone and VBlock and BlockStore give `none`.
pub mod Prelude
pub mod OrdMap
pub mod Codec
pub mod IntervalMap
pub mod Barrier
pub mod Server
pub mod Coordinator
pub mod Configuration
pub mod VBlock
pub mod BlockStore
pub mod Link
pub mod Daemon
pub mod Client
pub mod CoordinatorLink
pub mod Admin
pub mod Tests
