-- ===== src/Pool/Bootstrap/Agrees.antt =====
-- A pool over IPC and a pool with its own store, over one share chain.
use sv2_p2pool.Prelude.{ℕ, ◌≡◌, refl, sym, ap, ap₂, subst, ◌∙◌, true, String, Option, none, some}
use sv2_p2pool.Prelude.Flow.{next, map_exit, map_exit-eq-next, >>=-eq-next, next-injective}
use sv2_p2pool.Bitcoin.{Hash, Network}
use sv2_p2pool.Ipc.Wire.{Lists, ShareChain}
use sv2_p2pool.Ipc.{IpcClientError}
use sv2_p2pool.Ipc
use sv2_p2pool.Ipc.Served.{
  Daemon, Serves, HasHashes, tip_of, height_of, get_network-network, get_chain_tip-tip,
  get_tip_height-height,
}
use sv2_p2pool.ShareChain.InProcess.{in_process}
use sv2_p2pool.ShareChain.Snapshot.{load_tip, load_height}
use sv2_p2pool.ShareChain.Actor.{
  Call, network_call, tip_call, height_call, replied, ipc_chain, connect, actor_main,
  actor_thread_main, map_tip, map_height,
}
use sv2_p2pool.ShareChain.Actor.Start.{connect_iff, actor_main-load_tip}
use sv2_p2pool.ShareChain.Backends.{StoredTip, Holds, ipc_chain-in_process}
use sv2_p2pool.Pool.{tip_source, published, ok, publish_snapshot, publish_store}
use sv2_p2pool.Pool.Bootstrap.{
  ShareChainHandles, Environment, for_mode, bootstrap_share_chain, bitcoind_client, ipc_connect,
  open_store, genesis, init_genesis,
}

-- One share chain behind both: the daemon serves it at every call, and the store holds it.
pub record Shares {lists : Lists} (remote local : Environment lists) (daemon : Daemon)
    : Type 0 where
  pub socket : String
  pub is_remote : remote.socket_path ≡ some socket
  pub is_local : local.socket_path ≡ none
  pub at : Call → ShareChain lists
  pub connected : remote.connected ≡ next at
  pub serves_start : (call : Call) → Serves (at call) daemon
  pub serves : Serves remote.daemon daemon
  pub has_hashes : HasHashes daemon
  pub is_replied : remote.fate ≡ replied
  pub holds : Holds local.chain_store daemon

module _ {lists : Lists} (remote local : Environment lists) (daemon : Daemon)
    (shares : Shares remote local daemon) where
  open shares use {socket, at}

  connects :
      (network : Network)
      → connect remote.threads remote.connected ≡ next network
      → network ≡ daemon.network
  connects network h =
      let c = (connect_iff remote.threads remote.connected network).0 h in
      next-injective (
        sym c.tells_network
        ∙ (ap (λ f. Ipc.get_network (f network_call))
              (next-injective (sym c.is_connected ∙ shares.connected))
            ∙ get_network-network (shares.serves_start network_call)))

  snapshot_tip : load_tip (actor_main (next at) true).snapshot ≡ daemon.tip
  snapshot_tip =
      (actor_main-load_tip at true daemon.network
        (get_network-network (shares.serves_start network_call))).0
      ∙ (rw (get_chain_tip-tip (shares.serves_start tip_call) shares.has_hashes) (go daemon.tip))
    where
      go : (o : Option Hash) → map_tip (tip_of o) ≡ o
      go none = refl
      go (some h) = refl

  snapshot_height : load_height (actor_main (next at) true).snapshot ≡ daemon.height
  snapshot_height =
      (actor_main-load_tip at true daemon.network
        (get_network-network (shares.serves_start network_call))).1
      ∙ (rw (get_tip_height-height (shares.serves_start height_call)) (go daemon.height))
    where
      go : (o : Option ℕ) → map_height (height_of o) ≡ o
      go none = refl
      go (some h) = refl

  store_tip : ok local.chain_store.get_chain_tip ≡ daemon.tip
  store_tip = go daemon.tip shares.holds.holds_tip
    where
      go :
          (o : Option Hash)
          → StoredTip o local.chain_store.get_chain_tip
          → ok local.chain_store.get_chain_tip ≡ o
      go none (message, e) = rw e refl
      go (some h) e = rw e refl

  store_height : publish_store local.chain_store.get_tip_height ≡ publish_snapshot daemon.height
  store_height = rw shares.holds.holds_height (go daemon.height)
    where
      go : (o : Option ℕ) → ◌≡◌ (publish_store (next o)) (publish_snapshot o)
      go none = refl
      go (some h) = refl

  remote_handles :
      (handles : ShareChainHandles)
      → bootstrap_share_chain remote ≡ next handles
      → (handles.chain ≡ ipc_chain replied daemon.network remote.daemon)
        × (handles.ipc_tip_snapshot ≡ some (actor_main (next at) true).snapshot)
  unfolding bootstrap_share_chain
  remote_handles handles h =
      let (client, started, h1) =
        >>=-eq-next (map_exit bitcoind_client remote.bitcoind) _ handles h in
      let h2 = subst (λ mode. for_mode remote mode ≡ next handles) shares.is_remote h1 in
      let (network, joined, h3) =
        >>=-eq-next
          (map_exit (λ e. ipc_connect socket (remote.display e))
            (connect remote.threads remote.connected))
          _ handles h2 in
      let connection =
        map_exit-eq-next _ (connect remote.threads remote.connected) network joined in
      let same = next-injective (sym h3) in
      let c = (connect_iff remote.threads remote.connected network).0 connection in
      (
        ap (λ r. r.chain) same
            ∙ ap₂ (λ fate n. ipc_chain fate n remote.daemon) shares.is_replied
                (connects network connection),
        ap (λ r. r.ipc_tip_snapshot) same
            ∙ ap₂ (λ runtime connected. some (actor_thread_main runtime connected).snapshot)
                c.threads_run.2 shares.connected
            ∙ unfold actor_thread_main in refl,
      )

  local_handles :
      (handles : ShareChainHandles)
      → bootstrap_share_chain local ≡ next handles
      → (handles.chain ≡ in_process local.chain_store)
        × (handles.ipc_tip_snapshot ≡ none)
        × (handles.chain_store ≡ some local.chain_store)
  unfolding bootstrap_share_chain
  local_handles handles h =
      let (client, started, h1) =
        >>=-eq-next (map_exit bitcoind_client local.bitcoind) _ handles h in
      let h2 = subst (λ mode. for_mode local mode ≡ next handles) shares.is_local h1 in
      let (opened, opens, h3) =
        >>=-eq-next (map_exit (open_store local.store_path) local.store) _ handles h2 in
      let (built, builds, h4) =
        >>=-eq-next (map_exit (genesis local.network) local.build_genesis) _ handles h3 in
      let (set_up, sets_up, h5) =
        >>=-eq-next (map_exit init_genesis local.init_or_setup_genesis) _ handles h4 in
      let same = next-injective (sym h5) in
      (ap (λ r. r.chain) same, ap (λ r. r.ipc_tip_snapshot) same, ap (λ r. r.chain_store) same)

  -- Whichever backend the configuration asks for, over one share chain and after a successful start:
  -- the engine reads the same chain, the reorg watcher polls the same tip at its first tick, and the
  -- publisher shows the same height.
  pub bootstrap_share_chain_agrees :
      (h h' : ShareChainHandles)
      → bootstrap_share_chain remote ≡ next h
      → bootstrap_share_chain local ≡ next h'
      → (h.chain ≡ h'.chain)
        × (tip_source h.ipc_tip_snapshot h.chain_store
            ≡ tip_source h'.ipc_tip_snapshot h'.chain_store)
        × (published h.ipc_tip_snapshot h.chain_store
            ≡ published h'.ipc_tip_snapshot h'.chain_store)
  unfolding tip_source published
  bootstrap_share_chain_agrees h h' started started' =
      let (chain, snapshot) = remote_handles h started in
      let (chain', no_snapshot, store) = local_handles h' started' in
      (
        chain
            ∙ (ipc_chain-in_process remote.daemon local.chain_store daemon shares.serves
                  shares.has_hashes shares.holds
                ∙ sym chain'),
        rw (snapshot, no_snapshot, store) (ap some (snapshot_tip ∙ sym store_tip)),
        rw (snapshot, no_snapshot, store)
            (ap some (ap publish_snapshot snapshot_height ∙ sym store_height)),
      )
