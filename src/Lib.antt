-- ===== src/Lib.antt =====
-- A model of the sv2-p2pool mining pool: its job-validation engine, crates/sv2-p2pool-engine, with
-- what it does with the messages of the SV2 job declaration protocol; the tasks of the pool that
-- feed it; and the share chain that it reads, in the same process or over IPC.
--
-- The engine caches jobs that miners declare, accepts custom jobs that match a declared one, puts
-- blocks together from solutions and hands them to bitcoind, binds users to payout scripts, and
-- drops jobs that a share-chain reorg made stale.
--
-- The files, and the code that each is about (paths under crates/sv2-p2pool-engine/src):
--   Prelude            tests on numbers and bytes, lists, association lists with their laws
--                      (Prelude.Assoc, for `DashMap` and `HashMap`), and fallible code
--                      (Prelude.Flow: `next` for Ok, `exit` for Err or an early return, `panic`)
--   Bitcoin, Messages  the `bitcoin` crate as a parameter; the messages' fields
--   Coinbase           coinbase.rs: `reconstruct_coinbase` and `.._with_extranonce`
--   Merkle             `merkle_path` of coinbase.rs, `compute_merkle_root_from_txids` of block.rs
--   Block              block.rs: `reconstruct_header`, `reconstruct_block`, `build_candidate_block`
--   Jobs               lib.rs: `DeclaredJob`, `TipMetadata`, `DeclaredJobCache`
--   RecentSolutions    recent_solutions.rs
--   ReorgDetector      reorg_detector.rs
--   Metrics            metrics.rs: counters as numbers, and their registration on a registry
--   Tdp                tdp.rs: snapshots and requests of the Template Distribution Protocol, and in
--                      Tdp.Calls the calls of `request_tx_bodies` as state machines
--   Demux              crates/sv2-p2pool-pool/src/tdp_demux.rs: the tee task, and in Demux.Merge the
--                      merge task as a step relation
--   Engine             lib.rs and engine_impl.rs: `P2poolV2Engine` as a record, and in the modules
--                      below it the handlers: Declare, Custom, Push, Allocate, Reorg; Invariant
--                      holds the engine's invariant, Events the engine as one state machine
--   Watchers           lib.rs: the engine's background tasks and the handles that own them
--   Ipc                crates/sv2-p2pool-ipc/src/lib.rs: the client of the share-chain daemon; Ipc.Wire
--                      is what capnp gives it, Ipc.Served a daemon that follows the schema
--   ShareChain         share_chain_reader.rs, and crates/sv2-p2pool-pool/src/share_chain.rs: the reader
--                      that the engine uses and its two backends, InProcess over a store and Actor
--                      over IPC, with the tip Snapshot, the request loop, and the Watchdog
--                      whose signal the pool's watcher awaits
--   Pool               crates/sv2-p2pool-pool/src/pool.rs and share_chain.rs: the bootstrap of a
--                      backend, what a pool polls and publishes, and its shutdown
--   MetricsEndpoint    crates/sv2-p2pool-pool/src/metrics_endpoint.rs: requests and their pages
--   Tests              concrete inputs
--
-- State. A handler is a function from the engine to the engine and its result. What the engine
-- calls and does not own (bitcoind, the share chain, the Template Provider, the clock, NFKC) is a
-- `World`, an argument. At each await, and between two looks at a shared map, the model lets
-- `meanwhile`, any change of the engine's state, happen; theorems say where they need that it keeps
-- the invariant, or that nothing happens. Likewise `between` happens after the guard of an allocation,
-- between the two inserts of a binding and between the two removals of an eviction.
--
-- Numbers are natural numbers; `u32` and `i32` fields are bit patterns. The merkle loops run on
-- fuel, the length of the list, which halves at each level; the theorems on them hold for it. The
-- ancestry walk has the source's 100 hops. A coinbase past `isize::MAX` bytes is a panic.
--
-- Threads and tasks that share state are step relations: one step is one memory access of the tip
-- snapshot, one send or receive of the merge, one turn of the actor's loop, or one look of a call at
-- the pending requests. Memory accesses are in one order, which the source's acquire and release
-- orderings give for a flag and its value.
--
-- Not modelled: logging; the capacity of the broadcast channels; the rest of the pool's start, which
-- calls third-party services in turn, with builder.rs, the command line and the endpoint's listener;
-- the test environment.
pub mod Pool
pub mod Prelude
pub mod Bitcoin
pub mod Coinbase
pub mod Merkle
pub mod Messages
pub mod Ipc
pub mod Jobs
pub mod Block
pub mod RecentSolutions
pub mod ReorgDetector
pub mod Metrics
pub mod MetricsEndpoint
pub mod ShareChain
pub mod Tdp
pub mod Watchers
pub mod Demux
pub mod Engine
pub mod Tests
