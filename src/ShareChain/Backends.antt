-- ===== src/ShareChain/Backends.antt =====
-- Both backends over one share chain: `InProcessChain` over a store that holds it, and `IpcChain` in
-- front of a daemon that serves it.
use sv2_p2pool.Prelude.{
  ℕ, ◌≡◌, refl, sym, ◌∙◌, fun_ext, Bool, true, false, String, Option, none, some, all_zero,
  if◌then◌else◌,
}
use sv2_p2pool.Prelude.Flow.{Flow, next, exit, map_next}
use sv2_p2pool.Bitcoin.{Hash}
use sv2_p2pool.Ipc.Wire.{Lists, ShareChain}
use sv2_p2pool.Ipc.{IpcClientError, ShareHeaderLookup, found, not_found, genesis, some_unless_zeros}
use sv2_p2pool.Ipc
use sv2_p2pool.Ipc.Served.{
  Daemon, Serves, HasHashes, lookup_with, lookup_of, tip_of, height_of, get_chain_tip-tip,
  get_tip_height-height, get_share_header-lookup,
}
use sv2_p2pool.ShareChain.{ShareChainReader}
use sv2_p2pool.ShareChain.Store.{StoreError, ShareHeader, ChainStoreHandle}
use sv2_p2pool.ShareChain.Store
use sv2_p2pool.ShareChain.InProcess.{tip_result, header_result, get_share_header, in_process}
use sv2_p2pool.ShareChain.Actor.{map_tip, map_height, map_lookup, serve, replied, ipc_chain}

-- A missing record is `NotFound`.
abbrev pub StoredTip : Option Hash → Flow StoreError Hash → Type 0
StoredTip none r = (message : String) × (r ≡ exit (Store.not_found message))
StoredTip (some h) r = r ≡ next h

abbrev pub StoredHeader : Option Hash → Flow StoreError ShareHeader → Type 0
StoredHeader none r = (message : String) × (r ≡ exit (Store.not_found message))
StoredHeader (some prev) r = r ≡ next (record { prev_share_blockhash = prev })

pub record Holds (chain : ChainStoreHandle) (daemon : Daemon) : Type 0 where
  pub holds_tip : StoredTip daemon.tip chain.get_chain_tip
  pub holds_height : chain.get_tip_height ≡ next daemon.height
  pub holds_header :
      (h : Hash) → StoredHeader (daemon.prev_share_blockhash h) (chain.get_share_header h)
  pub holds_network : chain.network ≡ daemon.network

-- A reader's answers about a share chain.
abbrev reader_of : Daemon → ShareChainReader
reader_of daemon = record {
  get_chain_tip = next daemon.tip;
  get_share_header = λ h. next (lookup_of daemon h);
  get_tip_height = next daemon.height;
  network = daemon.network;
}

reader-eq :
    (r : ShareChainReader) (daemon : Daemon)
    → r.get_chain_tip ≡ next daemon.tip
    → ((h : Hash) → r.get_share_header h ≡ next (lookup_of daemon h))
    → r.get_tip_height ≡ next daemon.height
    → r.network ≡ daemon.network
    → r ≡ reader_of daemon
reader-eq r daemon tip header height network = λ i. record {
  get_chain_tip = tip i;
  get_share_header = fun_ext header i;
  get_tip_height = height i;
  network = network i;
}

module _ {chain : ChainStoreHandle} {daemon : Daemon} (held : Holds chain daemon) where
  in_process-reads : in_process chain ≡ reader_of daemon
  unfolding in_process get_share_header
  in_process-reads =
      reader-eq (in_process chain) daemon (tip daemon.tip held.holds_tip)
        (λ h. header h (all_zero h) (daemon.prev_share_blockhash h) (held.holds_header h))
        (rw held.holds_height refl) held.holds_network
    where
      tip :
          (o : Option Hash)
          → StoredTip o chain.get_chain_tip
          → tip_result chain.get_chain_tip ≡ next o
      tip none (message, e) = rw e refl
      tip (some h) e = rw e refl

      header :
          (h : Hash) (zeros : Bool) (o : Option Hash)
          → StoredHeader o (chain.get_share_header h)
          → (if zeros then next genesis else header_result (chain.get_share_header h))
            ≡ next (lookup_with zeros o)
      header h true o e = refl
      header h false none (message, e) = rw e refl
      header h false (some prev) e = rw e refl

module _ {lists : Lists} {client : ShareChain lists} {daemon : Daemon}
    (serves : Serves client daemon) (hashes : HasHashes daemon) where
  ipc_chain-reads : ipc_chain replied daemon.network client ≡ reader_of daemon
  unfolding serve
  ipc_chain-reads =
      reader-eq (ipc_chain replied daemon.network client) daemon tip header height refl
    where
      tip : map_next map_tip (Ipc.get_chain_tip client) ≡ next daemon.tip
      tip = rw (get_chain_tip-tip serves hashes) (go daemon.tip)
        where
          go :
              (o : Option Hash)
              → ◌≡◌ {A = Flow IpcClientError (Option Hash)} (next (map_tip (tip_of o))) (next o)
          go none = refl
          go (some h) = refl

      header :
          (h : Hash)
          → map_next map_lookup (Ipc.get_share_header client h) ≡ next (lookup_of daemon h)
      header h = rw (get_share_header-lookup serves hashes h) (go (lookup_of daemon h))
        where
          go :
              (l : ShareHeaderLookup)
              → ◌≡◌ {A = Flow IpcClientError ShareHeaderLookup} (next (map_lookup l)) (next l)
          go (found prev) = refl
          go not_found = refl
          go genesis = refl

      height : map_next map_height (Ipc.get_tip_height client) ≡ next daemon.height
      height = rw (get_tip_height-height serves) (go daemon.height)
        where
          go :
              (o : Option ℕ)
              → ◌≡◌ {A = Flow IpcClientError (Option ℕ)} (next (map_height (height_of o))) (next o)
          go none = refl
          go (some h) = refl

-- Over one share chain, held in the store of the one and served by the daemon of the other, the two
-- backends are the same reader, as long as the actor replies: each call of the engine gets the same
-- answer from both.
pub ipc_chain-in_process :
    {lists : Lists} (client : ShareChain lists) (chain : ChainStoreHandle) (daemon : Daemon)
    → Serves client daemon
    → HasHashes daemon
    → Holds chain daemon
    → ipc_chain replied daemon.network client ≡ in_process chain
ipc_chain-in_process client chain daemon serves hashes held =
    ipc_chain-reads serves hashes ∙ sym (in_process-reads held)
