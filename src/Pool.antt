-- ===== src/Pool.antt =====
-- crates/sv2-p2pool-pool/src/pool.rs: which network a pool takes, which tasks it starts for which
-- share-chain backend, and how it shuts down.
pub mod Bootstrap
pub mod Shutdown
pub mod Reorgs
use sv2_p2pool.Prelude.{ℕ, Bool, true, false, List, [], ◌∷◌, Option, none, some}
use sv2_p2pool.Prelude.Flow.{Flow, next, exit, panic}
use sv2_p2pool.Metrics.{Gauge, height, minus_one}
use sv2_p2pool.Bitcoin.{Hash, Network}
use sv2_p2pool.Bitcoin
use sv2_p2pool.ShareChain.Store.{StoreError, ChainStoreHandle}
use sv2_p2pool.ShareChain.Snapshot.{AtomicTipSnapshot, load_tip, load_height}

-- `stratum_apps::tp_type::BitcoinNetwork`
pub data BitcoinNetwork : Type 0 where
  mainnet testnet4 signet regtest : BitcoinNetwork

-- `TemplateProviderType`, with the field that is read
pub data TemplateProviderType : Type 0 where
  sv2_tp : TemplateProviderType
  bitcoin_core_ipc : BitcoinNetwork → TemplateProviderType

-- The p2pool config's `stratum.network`, if there is one.
unfoldable pub config_network : Option Network → TemplateProviderType → Network
config_network (some network) template_provider = network
config_network none (bitcoin_core_ipc mainnet) = Bitcoin.mainnet
config_network none (bitcoin_core_ipc testnet4) = Bitcoin.testnet4
config_network none (bitcoin_core_ipc signet) = Bitcoin.signet
config_network none (bitcoin_core_ipc regtest) = Bitcoin.regtest
config_network none sv2_tp = Bitcoin.testnet4

-- A tick of the publisher, over the snapshot and over the store.
abbrev pub publish_snapshot : Option ℕ → Gauge
publish_snapshot (some h) = height h
publish_snapshot none = minus_one

abbrev pub publish_store : Flow StoreError (Option ℕ) → Gauge
publish_store (next (some h)) = height h
publish_store (next none) = minus_one
publish_store (exit e) = minus_one
publish_store panic = minus_one

-- `get_chain_tip().ok()`
abbrev pub ok {ℓ κ} : {R : Type ℓ} {A : Type κ} → Flow R A → Option A
ok (next a) = some a
ok (exit e) = none
ok panic = none

-- What the reorg watcher polls: the snapshot if there is one, or else the store.
unfoldable pub tip_source :
    Option AtomicTipSnapshot → Option ChainStoreHandle → Option (Option Hash)
tip_source (some snapshot) chain_store = some (load_tip snapshot)
tip_source none (some chain_store) = some (ok chain_store.get_chain_tip)
tip_source none none = none

-- What the publisher shows at a tick.
unfoldable pub published : Option AtomicTipSnapshot → Option ChainStoreHandle → Option Gauge
published (some snapshot) chain_store = some (publish_snapshot (load_height snapshot))
published none (some chain_store) = some (publish_store chain_store.get_tip_height)
published none none = none
