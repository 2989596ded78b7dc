-- ===== src/ShareChain.antt =====
-- crates/sv2-p2pool-engine/src/share_chain_reader.rs: what the engine reads of a share chain, and
-- crates/sv2-p2pool-pool/src/share_chain.rs, its two backends.
pub mod Store
pub mod InProcess
pub mod Actor
pub mod Snapshot
pub mod Watchdog
pub mod Backends
use sv2_p2pool.Prelude.{ℕ, String, Option, none, some}
use sv2_p2pool.Prelude.Flow.{Flow, next, exit, panic}
use sv2_p2pool.Bitcoin.{Hash, Network, Bitcoin}
use sv2_p2pool.Ipc.{IpcClientError, ShareHeaderLookup}
use sv2_p2pool.Engine.{World}

-- `ShareChainReader` without its broadcast channel: what each call returns.
pub record ShareChainReader : Type 0 where
  pub get_chain_tip : Flow IpcClientError (Option Hash)
  pub get_share_header : Hash → Flow IpcClientError ShareHeaderLookup
  pub get_tip_height : Flow IpcClientError (Option ℕ)
  pub network : Network

-- The engine looks at `Err(_)` as one case.
abbrev pub answer {ℓ} : {A : Type ℓ} → Flow IpcClientError A → Option A
answer (next a) = some a
answer (exit e) = none
answer panic = none

-- A world whose share chain is behind a reader: `EngineHandles.chain`.
abbrev pub reading : {b : Bitcoin} → ShareChainReader → World b → World b
reading reader w = record w {
  chain_tip = answer reader.get_chain_tip;
  share_header = λ h. answer (reader.get_share_header h);
}
