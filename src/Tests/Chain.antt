-- ===== src/Tests/Chain.antt =====
-- A share chain of two shares, behind a daemon and in a store.
use sv2_p2pool.Prelude.{
  ℕ, ◌≡◌, refl, sym, ap, ◌↔◌, arith, Bool, true, false, Bytes, String, List, [], ◌∷◌, Option, none,
  some, length, replicate, all_zero, ltb, if◌then◌else◌, bytes_eq, ◌==◌,
}
use mathlib.Core.Option.{some-injective}
use sv2_p2pool.Prelude.Flow.{Flow, next, exit}
use sv2_p2pool.Bitcoin.{Hash, regtest}
use sv2_p2pool.Ipc.Wire
use sv2_p2pool.Ipc.Wire.{Lists, ShareChain}
use sv2_p2pool.Ipc.{
  found, missing_transactions, validate_template, get_share_header, get_network, received,
}
use sv2_p2pool.Ipc.Requests.{IsLawful, put}
use sv2_p2pool.Ipc.Served.{
  Daemon, Serves, HasHashes, arrived, encode_outcome, encode_tip, encode_height, encode_header,
  encode_network, validate_template-validate,
}
use sv2_p2pool.Ipc.Accepts.{get_share_header_iff}
use sv2_p2pool.ShareChain.Store.{StoreError, ShareHeader, ChainStoreHandle}
use sv2_p2pool.ShareChain.Store
use sv2_p2pool.ShareChain.Actor.{
  Threads, replied, connect, ipc_chain, actor_thread_main, actor_main,
}
use sv2_p2pool.ShareChain.Actor.Start.{Connects, connect_iff}
use sv2_p2pool.ShareChain.Backends.{StoredHeader, Holds}
use sv2_p2pool.ShareChain.InProcess.{in_process}
use sv2_p2pool.Pool.{tip_source, published}
use sv2_p2pool.Pool.Bootstrap.{Environment, ShareChainHandles, bootstrap_share_chain}
use sv2_p2pool.Pool.Bootstrap.Agrees.{Shares, bootstrap_share_chain_agrees}
use sv2_p2pool.Tests.{hash_of}

abbrev set_item : ℕ → Bytes → List Bytes → Option (List Bytes)
set_item i x b = if ltb i (length b) then some (put i x b) else none

abbrev pub lists : Lists
lists = record { Builder = List Bytes; init = λ n. replicate n []; set = set_item; items = λ b. b }

lists-IsLawful : IsLawful lists
lists-IsLawful = record {
  init_items = λ n small. refl;
  set_item = λ i x b room. (put i x b, ground (arith, room), refl);
}

abbrev previous : Hash → Option Hash
previous h = if h == hash_of 9 then some (hash_of 8) else none

abbrev pub daemon : Daemon
daemon = record {
  tip = some (hash_of 9);
  height = some 7;
  prev_share_blockhash = previous;
  network = regtest;
  validate = λ prefix suffix wtxids txs. missing_transactions wtxids;
  accepts = λ raw_block share_hash. true;
}

abbrev pub client : ShareChain lists
client = record {
  validate_template = λ p. arrived (
      encode_outcome
        (daemon.validate p.coinbase_prefix p.coinbase_suffix p.wtxid_list p.missing_txs));
  submit_solution = λ p. next (next (daemon.accepts p.raw_block p.share_hash));
  subscribe_chain_tip = next tt;
  get_chain_tip = arrived (encode_tip daemon.tip);
  get_share_header = λ h. arrived (encode_header (all_zero h) (previous h));
  get_tip_height = arrived (encode_height daemon.height);
  get_network = arrived (encode_network daemon.network);
}

client-Serves : Serves client daemon
client-Serves = record {
  validates = λ p. refl;
  submits = λ raw_block share_hash. refl;
  tells_tip = refl;
  tells_height = refl;
  tells_header = λ h. refl;
  tells_network = refl;
}

daemon-HasHashes : HasHashes daemon
daemon-HasHashes = record {
  tip_length = λ h e. ap length (some-injective h (hash_of 9) (sym e));
  prev_length = λ h prev e. previous_length (h == hash_of 9) prev e;
}
  where
    previous_length :
        (b : Bool) (prev : Hash)
        → (if b then some (hash_of 8) else none) ≡ some prev
        → length prev ≡ 32
    previous_length true prev e = ap length (some-injective prev (hash_of 8) (sym e))
    previous_length false prev e = cc

validate_template-validate_example :
    validate_template client (1 ∷ []) (2 ∷ []) (hash_of 3 ∷ hash_of 4 ∷ []) ((5 ∷ []) ∷ [])
    ≡ next (missing_transactions (hash_of 3 ∷ hash_of 4 ∷ []))
validate_template-validate_example =
    validate_template-validate client-Serves lists-IsLawful (1 ∷ []) (2 ∷ [])
      (hash_of 3 ∷ hash_of 4 ∷ []) ((5 ∷ []) ∷ []) (omega arith) (omega arith)

get_share_header_iff_example :
    (get_share_header client (hash_of 9) ≡ next (found (some (hash_of 8)))) ↔ (
      (client.get_share_header (hash_of 9) ≡ arrived (Wire.found (next (next (hash_of 8)))))
      × (length (hash_of 8) ≡ 32)
      × (all_zero (hash_of 8) ≡ false))
get_share_header_iff_example = get_share_header_iff client (hash_of 9) (hash_of 8)

-- The same chain in a store.
abbrev stored : Option Hash → Flow StoreError ShareHeader
stored none = exit (Store.not_found "no share")
stored (some prev) = next (record { prev_share_blockhash = prev })

abbrev store : ChainStoreHandle
store = record {
  get_chain_tip = next (hash_of 9);
  get_share_header = λ h. stored (previous h);
  get_tip_height = next (some 7);
  network = regtest;
}

store-Holds : Holds store daemon
store-Holds = record {
  holds_tip = refl;
  holds_height = refl;
  holds_header = λ h. holds_stored (previous h);
  holds_network = refl;
}
  where
    holds_stored : (o : Option Hash) → StoredHeader o (stored o)
    holds_stored none = ("no share", refl)
    holds_stored (some prev) = refl

abbrev threads : Threads
threads = record { actor_spawn = none; watchdog_spawn = none; runtime = none; wait_panicked = none }

abbrev environment : Option String → Environment lists
environment socket = record {
  socket_path = socket;
  network = regtest;
  bitcoind = next tt;
  threads = threads;
  connected = next (λ call. client);
  daemon = client;
  fate = replied;
  store_path = "store.db";
  store = next tt;
  build_genesis = next tt;
  init_or_setup_genesis = next tt;
  chain_store = store;
  display = λ e. "error";
}

abbrev remote : Environment lists
remote = environment (some "/run/p2pool.sock")

abbrev local : Environment lists
local = environment none

environments-Shares : Shares remote local daemon
environments-Shares = record {
  socket = "/run/p2pool.sock";
  is_remote = refl;
  is_local = refl;
  at = λ call. client;
  connected = refl;
  serves_start = λ call. client-Serves;
  serves = client-Serves;
  has_hashes = daemon-HasHashes;
  is_replied = refl;
  holds = store-Holds;
}

connect_iff_example :
    (connect threads (remote.connected) ≡ next regtest)
    ↔ Connects threads (remote.connected) regtest
connect_iff_example = connect_iff threads (remote.connected) regtest

abbrev remote_handles : ShareChainHandles
remote_handles = record {
  chain = ipc_chain replied regtest client;
  chain_store = none;
  has_store_writer = false;
  ipc_tip_snapshot = some (actor_thread_main none (remote.connected)).snapshot;
  has_ipc_shutdown_signal = true;
}

abbrev local_handles : ShareChainHandles
local_handles = record {
  chain = in_process store;
  chain_store = some store;
  has_store_writer = true;
  ipc_tip_snapshot = none;
  has_ipc_shutdown_signal = false;
}

remote_starts : bootstrap_share_chain remote ≡ next remote_handles
unfolding bootstrap_share_chain connect actor_thread_main actor_main get_network received
remote_starts = refl

local_starts : bootstrap_share_chain local ≡ next local_handles
unfolding bootstrap_share_chain
local_starts = refl

bootstrap_share_chain_agrees_example :
    (remote_handles.chain ≡ local_handles.chain)
    × (tip_source remote_handles.ipc_tip_snapshot none ≡ tip_source none (some store))
    × (published remote_handles.ipc_tip_snapshot none ≡ published none (some store))
bootstrap_share_chain_agrees_example =
    bootstrap_share_chain_agrees remote local daemon environments-Shares remote_handles
      local_handles remote_starts local_starts
