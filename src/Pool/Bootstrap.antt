-- ===== src/Pool/Bootstrap.antt =====
-- `bootstrap_share_chain` of share_chain.rs: the backend that the configuration asks for.
pub mod Agrees
use sv2_p2pool.Prelude.{Bool, true, false, String, Option, none, some}
use sv2_p2pool.Prelude.Flow.{Flow, next, exit, panic, ◌>>=◌, map_exit}
use sv2_p2pool.Bitcoin.{Network}
use sv2_p2pool.Ipc.Wire.{Lists, ShareChain}
use sv2_p2pool.Ipc.{IpcClientError}
use sv2_p2pool.ShareChain.{ShareChainReader}
use sv2_p2pool.ShareChain.Store.{ChainStoreHandle}
use sv2_p2pool.ShareChain.InProcess.{in_process}
use sv2_p2pool.ShareChain.Snapshot.{AtomicTipSnapshot}
use sv2_p2pool.ShareChain.Actor.{Call, Fate, ipc_chain, Threads, connect, actor_thread_main}

pub data ShareChainBootstrapError : Type 0 where
  open_store : (path : String) → (message : String) → ShareChainBootstrapError
  genesis : (network : Network) → (message : String) → ShareChainBootstrapError
  init_genesis : (message : String) → ShareChainBootstrapError
  bitcoind_client : (error : String) → ShareChainBootstrapError
  ipc_connect : (socket : String) → (message : String) → ShareChainBootstrapError

-- `EngineHandles.chain`, and the handles that the pool keeps.
pub record ShareChainHandles : Type 0 where
  pub chain : ShareChainReader
  pub chain_store : Option ChainStoreHandle
  pub has_store_writer : Bool
  pub ipc_tip_snapshot : Option AtomicTipSnapshot
  pub has_ipc_shutdown_signal : Bool

-- The configuration, and what the libraries answer: errors by their texts. `socket_path` is there in
-- IPC mode. `display` is the `Display` of an IPC error.
pub record Environment (lists : Lists) : Type 0 where
  pub socket_path : Option String
  pub network : Network
  pub bitcoind : Flow String (Unit {0})
  pub threads : Threads
  pub connected : Flow IpcClientError (Call → ShareChain lists)
  -- The daemon as the requests of the reader meet it, and how they fare.
  pub daemon : ShareChain lists
  pub fate : Fate
  pub store_path : String
  pub store : Flow String (Unit {0})
  pub build_genesis : Flow String (Unit {0})
  pub init_or_setup_genesis : Flow String (Unit {0})
  pub chain_store : ChainStoreHandle
  pub display : IpcClientError → String

module _ {lists : Lists} (env : Environment lists) where
  -- The branch with an `ipc` section.
  abbrev pub over_ipc : String → Flow ShareChainBootstrapError ShareChainHandles
  over_ipc socket = do
    network ← map_exit (λ e. ipc_connect socket (env.display e)) (connect env.threads env.connected)
    next (record {
      chain = ipc_chain env.fate network env.daemon;
      chain_store = none;
      has_store_writer = false;
      ipc_tip_snapshot = some (actor_thread_main env.threads.runtime env.connected).snapshot;
      has_ipc_shutdown_signal = true;
    })

  abbrev pub over_store : Flow ShareChainBootstrapError ShareChainHandles
  over_store = do
    opened ← map_exit (open_store env.store_path) env.store
    built ← map_exit (genesis env.network) env.build_genesis
    set_up ← map_exit init_genesis env.init_or_setup_genesis
    next (record {
      chain = in_process env.chain_store;
      chain_store = some env.chain_store;
      has_store_writer = true;
      ipc_tip_snapshot = none;
      has_ipc_shutdown_signal = false;
    })

  abbrev pub for_mode : Option String → Flow ShareChainBootstrapError ShareChainHandles
  for_mode (some socket) = over_ipc socket
  for_mode none = over_store

  -- The probe of bitcoind only logs.
  unfoldable pub bootstrap_share_chain : Flow ShareChainBootstrapError ShareChainHandles
  bootstrap_share_chain = do
    client ← map_exit bitcoind_client env.bitcoind
    for_mode env.socket_path
