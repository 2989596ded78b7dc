-- ===== src/ShareChain/Actor.antt =====
-- `IpcChain` of share_chain.rs and its actor thread: the start of the actor, what it makes of a
-- pushed tip and of a request, and the reader that sends it requests.
pub mod Start
pub mod Pushes
pub mod Requests
use sv2_p2pool.Prelude.{
  ℕ, zero, suc, Bool, true, false, Bytes, String, List, [], ◌∷◌, Option, none, some, length,
  nat_eqb, if◌then◌else◌,
}
use sv2_p2pool.Prelude.Flow.{Flow, next, exit, panic, map_next, ◌>>=◌, ◌>>◌}
use sv2_p2pool.Bitcoin.{Hash, Network}
use sv2_p2pool.Ipc.Wire.{Lists, ShareChain}
use sv2_p2pool.Ipc.{
  IpcClientError, capnp, ChainTipResult, tip, tip_uninitialised, TipHeightResult, height,
  height_uninitialised, ShareHeaderLookup, found, not_found, genesis,
}
use sv2_p2pool.Ipc
use Prim.Native.String.{◌++◌ as text_append}
use sv2_p2pool.ShareChain.{ShareChainReader}
use sv2_p2pool.ShareChain.Snapshot.{AtomicTipSnapshot, empty, store_tip, store_height}

pub data IpcRequest : Type 0 where
  get_chain_tip get_tip_height : IpcRequest
  get_share_header : (share_hash : Hash) → IpcRequest

-- What the reply channel of a request carries.
abbrev pub Answer : IpcRequest → Type 0
Answer get_chain_tip = Option Hash
Answer get_tip_height = Option ℕ
Answer (get_share_header share_hash) = ShareHeaderLookup

abbrev pub map_tip : ChainTipResult → Option Hash
map_tip (tip t) = some t
map_tip tip_uninitialised = none

abbrev pub map_height : TipHeightResult → Option ℕ
map_height (height h) = some h
map_height height_uninitialised = none

abbrev pub map_lookup : ShareHeaderLookup → ShareHeaderLookup
map_lookup (found prev_share_blockhash) = found prev_share_blockhash
map_lookup not_found = not_found
map_lookup genesis = genesis

-- The task that the actor spawns for a request.
unfoldable pub serve :
    {lists : Lists}
    → ShareChain lists
    → (request : IpcRequest) → Flow IpcClientError (Answer request)
serve client get_chain_tip = map_next map_tip (Ipc.get_chain_tip client)
serve client get_tip_height = map_next map_height (Ipc.get_tip_height client)
serve client (get_share_header share_hash) =
    map_next map_lookup (Ipc.get_share_header client share_hash)

-- What becomes of a request: the actor replies, or its channel is closed, or it dies before the
-- reply.
pub data Fate : Type 0 where
  replied closed dropped : Fate

abbrev pub exchange {ℓ} : {A : Type ℓ} → Fate → Flow IpcClientError A → Flow IpcClientError A
exchange replied reply = reply
exchange closed reply = exit (capnp "IpcChain actor request channel closed")
exchange dropped reply = exit (capnp "IpcChain actor dropped reply channel")

-- `IpcChain`, with the network that it keeps, and its requests as they fare.
abbrev pub ipc_chain : {lists : Lists} → Fate → Network → ShareChain lists → ShareChainReader
ipc_chain fate network client = record {
  get_chain_tip = exchange fate (serve client get_chain_tip);
  get_share_header = λ share_hash. exchange fate (serve client (get_share_header share_hash));
  get_tip_height = exchange fate (serve client get_tip_height);
  network = network;
}

-- The tip's callback: the snapshot, the tips that were broadcast and the height trigger's queue of
-- 8 places.
pub record Pushed : Type 0 where
  pub snapshot : AtomicTipSnapshot
  pub broadcasts : List Hash
  pub height_triggers : ℕ

abbrev pub height_trigger_capacity : ℕ
height_trigger_capacity = 8

-- `height_trigger_tx.try_send(())`
abbrev pub try_send : ℕ → ℕ
try_send waiting = if nat_eqb waiting height_trigger_capacity then waiting else suc waiting

-- Broadcasts stand newest first.
unfoldable pub tip_callback : Bytes → Pushed → Pushed
tip_callback bytes s =
    if nat_eqb (length bytes) 32
    then record {
      snapshot = store_tip bytes s.snapshot;
      broadcasts = bytes ∷ s.broadcasts;
      height_triggers = try_send s.height_triggers;
    }
    else s

-- What a height that was fetched does to the snapshot.
abbrev pub capture_height :
    Flow IpcClientError TipHeightResult → AtomicTipSnapshot → AtomicTipSnapshot
capture_height (next (height h)) s = store_height h s
capture_height (next height_uninitialised) s = s
capture_height (exit e) s = s
capture_height panic s = s

abbrev pub capture_tip : Flow IpcClientError ChainTipResult → AtomicTipSnapshot → AtomicTipSnapshot
capture_tip (next (tip t)) s = store_tip t s
capture_tip (next tip_uninitialised) s = s
capture_tip (exit e) s = s
capture_tip panic s = s

-- A round of the height fetcher: it waits for a trigger, takes the others that are there, and
-- fetches once.
abbrev pub fetch_for : {lists : Lists} → (height_triggers : ℕ) → ShareChain lists → Pushed → Pushed
fetch_for zero client s = s
fetch_for (suc more) client s = record s {
  snapshot = capture_height (Ipc.get_tip_height client) s.snapshot;
  height_triggers = 0;
}

unfoldable pub fetch_height : {lists : Lists} → ShareChain lists → Pushed → Pushed
fetch_height client s = fetch_for s.height_triggers client s

-- The calls of the start, at each of which the daemon may answer anew.
pub data Call : Type 0 where
  network_call tip_call height_call subscribe_call : Call

-- The actor at the end of its start: what it sent as `InitResult`, and whether it serves requests.
pub record Started : Type 0 where
  pub init : Flow IpcClientError Network
  pub snapshot : AtomicTipSnapshot
  pub subscribed : Bool
  pub serving : Bool

abbrev pub stopped : IpcClientError → Started
stopped e = record { init = exit e; snapshot = empty; subscribed = false; serving = false }

-- Whether the subscription was kept.
abbrev pub kept : Flow IpcClientError (Unit {0}) → Bool
kept (next t) = true
kept (exit e) = false
kept panic = false

module _ {lists : Lists} (daemon : Call → ShareChain lists) (caller_waits : Bool) where
  -- From the network on.
  abbrev pub after_network : Flow IpcClientError Network → Started
  after_network (exit e) = stopped e
  after_network panic = record {
    init = panic;
    snapshot = empty;
    subscribed = false;
    serving = false;
  }
  after_network (next network) = record {
    init = next network;
    snapshot =
        capture_height (Ipc.get_tip_height (daemon height_call))
          (capture_tip (Ipc.get_chain_tip (daemon tip_call)) empty);
    subscribed =
        if caller_waits then kept (Ipc.subscribe_chain_tip (daemon subscribe_call)) else false;
    serving = caller_waits;
  }

-- `actor_main` up to its request loop. `connected` is the client, or why there is none.
unfoldable pub actor_main :
    {lists : Lists}
    → Flow IpcClientError (Call → ShareChain lists)
    → (caller_waits : Bool) → Started
actor_main (exit e) caller_waits = stopped e
actor_main panic caller_waits = record {
  init = panic;
  snapshot = empty;
  subscribed = false;
  serving = false;
}
actor_main (next daemon) caller_waits =
    after_network daemon caller_waits (Ipc.get_network (daemon network_call))

-- What the threads of `IpcChain::connect` do apart from the actor: the texts of the errors that
-- spawning and building a runtime gave, and how the wait for the start ended.
pub record Threads : Type 0 where
  pub actor_spawn : Option String
  pub watchdog_spawn : Option String
  pub runtime : Option String
  pub wait_panicked : Option String

-- `.map_err(|e| ..)?`
abbrev pub check_spawn : (what : String) → Option String → Flow IpcClientError (Unit {0})
check_spawn what none = next tt
check_spawn what (some e) = exit (capnp (text_append what e))

-- `actor_thread_main`
unfoldable pub actor_thread_main :
    {lists : Lists} → Option String → Flow IpcClientError (Call → ShareChain lists) → Started
actor_thread_main none connected = actor_main connected true
actor_thread_main (some e) connected =
    stopped (capnp (text_append "build current-thread runtime: " e))

-- The wait for `InitResult`; a thread that died sent none.
abbrev pub wait_init : Option String → Flow IpcClientError Network → Flow IpcClientError Network
wait_init (some e) init = exit (capnp (text_append "IpcChain init blocking task panicked: " e))
wait_init none (next network) = next network
wait_init none (exit e) = exit e
wait_init none panic = exit (capnp "IpcChain actor thread exited before init")

-- `IpcChain::connect`, to the network that the chain keeps.
unfoldable pub connect :
    {lists : Lists}
    → Threads
    → Flow IpcClientError (Call → ShareChain lists)
    → Flow IpcClientError Network
connect threads connected = do
  check_spawn "spawn IpcChain actor thread: " threads.actor_spawn
  check_spawn "spawn IpcChain watchdog thread: " threads.watchdog_spawn
  wait_init threads.wait_panicked (actor_thread_main threads.runtime connected).init
