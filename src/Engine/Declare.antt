-- ===== src/Engine/Declare.antt =====
-- `handle_declare_mining_job` of crates/sv2-p2pool-engine/src/engine_impl.rs.
pub mod Fails
pub mod Outcome
pub mod Asks
use sv2_p2pool.Prelude.{
  ℕ, suc, ◌+◌, ◌*◌, Bool, true, false, not, ◌&&◌, ◌==◌, nat_eq, if◌then◌else◌, Bytes, List, [], ◌∷◌,
  map, Option, none, some, is_some, length,
}
use sv2_p2pool.Prelude.Assoc
use sv2_p2pool.Prelude.Flow.{
  Flow, next, exit, panic, or_exit, or_panic, require, map_exit, traverse, ◌>>=◌, ◌>>◌,
}
use sv2_p2pool.Bitcoin.{Hash, to_hash, Bitcoin}
use sv2_p2pool.Messages.{DeclareMiningJob, ProvideMissingTransactionsSuccess}
use sv2_p2pool.Jobs.{TipMetadata, default_tip, DeclaredJob}
use sv2_p2pool.Metrics.{EngineMetrics}
use sv2_p2pool.Tdp.{TdpHandle, current_tip, current_template_id}
use sv2_p2pool.Coinbase.{reconstruct_coinbase}
use sv2_p2pool.Engine.{Engine, World, tip_read, bump}

pub data DeclareError : Type 0 where
  invalid_mining_job_token invalid_coinbase_tx invalid_coinbase_tx_input : DeclareError

pub data DeclareMiningJobResult : Type 0 where
  success : DeclareMiningJobResult
  missing_transactions : List Hash → DeclareMiningJobResult
  error : DeclareError → DeclareMiningJobResult

-- `u64::from_le_bytes`
unfoldable pub from_le_bytes : Bytes → ℕ
from_le_bytes [] = 0
from_le_bytes (x ∷ xs) = x + 256 * from_le_bytes xs

unfoldable pub decode_token : Bytes → Option ℕ
unfolding from_le_bytes
decode_token token_bytes =
    if length token_bytes == 8 then some (from_le_bytes token_bytes) else none

unfoldable pub tally_declare : DeclareMiningJobResult → EngineMetrics → EngineMetrics
tally_declare success m = record m {
  declare_mining_job_accepted = suc m.declare_mining_job_accepted;
}
tally_declare (error code) m = record m {
  declare_mining_job_rejected = suc m.declare_mining_job_rejected;
}
tally_declare (missing_transactions wtxids) m = record m {
  declare_mining_job_missing_txns = suc m.declare_mining_job_missing_txns;
}

abbrev pub is_empty {ℓ} : {A : Type ℓ} → List A → Bool
is_empty [] = true
is_empty (x ∷ xs) = false

abbrev or_default : Option TipMetadata → TipMetadata
or_default none = default_tip
or_default (some tip) = tip

-- Step 7: the Bitcoin tip and the template id, from the TDP snapshots.
unfoldable pub capture : Option TdpHandle → TipMetadata × Option ℕ
capture none = (default_tip, none)
capture (some tdp) = (or_default (current_tip tdp), current_template_id tdp)

abbrev pub flat : Option (Option Hash) → Option Hash
flat none = none
flat (some tip) = tip

-- The two inserts at the end.
unfoldable pub cache_job : ℕ → ℕ → DeclaredJob → Engine → Engine
cache_job request_id allocated_token job s = record s {
  declared_jobs = Assoc.insert request_id job s.declared_jobs;
  allocated_tokens = Assoc.insert allocated_token request_id s.allocated_tokens;
}

module _ (b : Bitcoin) where
  -- Steps 1 to 6, which read nothing of the engine: the token and the wtxid list.
  unfoldable pub declare_checks :
      DeclareMiningJob
      → Option ProvideMissingTransactionsSuccess
      → Flow DeclareMiningJobResult (ℕ × List Hash)
  declare_checks message pmts = do
    allocated_token ←
        or_exit (decode_token message.mining_job_token) (error invalid_mining_job_token)
    declared_coinbase_tx ←
        map_exit (λ _. error invalid_coinbase_tx)
          (reconstruct_coinbase b message.coinbase_tx_prefix message.coinbase_tx_suffix)
    require (length (b.input declared_coinbase_tx) == 1) (error invalid_coinbase_tx_input)
    wtxid_list ← traverse (λ u256. or_panic (to_hash u256)) message.wtxid_list
    require (not (is_empty wtxid_list && not (is_some pmts))) (error invalid_coinbase_tx)
    require (not (not (is_empty wtxid_list) && not (is_some pmts)))
        (missing_transactions wtxid_list)
    next (allocated_token, wtxid_list)

  -- The txids of the transactions of the retry that decode; the others are skipped.
  unfoldable pub decodable_txids : List Bytes → List Hash
  decodable_txids [] = []
  decodable_txids (tx_bytes ∷ rest) = elim (b.decode_transaction tx_bytes) [
    | none ↦ decodable_txids rest
    | some tx ↦ b.compute_txid tx ∷ decodable_txids rest
  ]

  abbrev missing_txids : Option ProvideMissingTransactionsSuccess → List Hash
  missing_txids none = []
  missing_txids (some pmts) = decodable_txids pmts.transaction_list

  -- The share-chain tip, best effort, and the engine as it is after the read.
  unfoldable pub read_share_chain_tip : World b → Engine → Option Hash × Engine
  read_share_chain_tip w s =
      if s.handles then (flat w.chain_tip, w.meanwhile tip_read s) else (none, s)

  -- What is cached for an accepted declaration.
  abbrev pub snapshot :
      DeclareMiningJob
      → Option ProvideMissingTransactionsSuccess
      → ℕ
      → List Hash
      → TipMetadata × Option ℕ
      → Option Hash
      → DeclaredJob
  snapshot message pmts allocated_token wtxid_list captured share_chain_tip = record {
    version = message.version;
    coinbase_tx_prefix = message.coinbase_tx_prefix;
    coinbase_tx_suffix = message.coinbase_tx_suffix;
    wtxid_list = wtxid_list;
    txid_list = some (missing_txids pmts);
    tip = captured.0;
    template_id = captured.1;
    share_chain_tip = share_chain_tip;
    validated = true;
    allocated_token = some allocated_token;
  }

  unfoldable pub accept_declaration :
      World b
      → DeclareMiningJob
      → Option ProvideMissingTransactionsSuccess
      → ℕ
      → List Hash
      → Engine
      → Engine
  accept_declaration w message pmts allocated_token wtxid_list s =
      let captured = capture s.tdp in
      let (share_chain_tip, s') = read_share_chain_tip w s in
      cache_job message.request_id allocated_token
        (snapshot message pmts allocated_token wtxid_list captured share_chain_tip) s'

  -- The engine afterwards, and the result; `none` is a panic.
  unfoldable pub handle_declare_mining_job :
      World b
      → DeclareMiningJob
      → Option ProvideMissingTransactionsSuccess
      → Engine
      → Engine × Option DeclareMiningJobResult
  handle_declare_mining_job w message pmts s = elim (declare_checks message pmts) [
    | panic ↦ (s, none)
    | exit result ↦ (bump (tally_declare result) s, some result)
    | next (allocated_token, wtxid_list) ↦ (
      bump (tally_declare success) (accept_declaration w message pmts allocated_token wtxid_list s),
      some success,
    )
  ]
