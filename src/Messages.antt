-- ===== src/Messages.antt =====
-- The SV2 messages that the engine handles, with the fields that it reads. A `U256` is its bytes,
-- 32 of them by the protocol; the source checks that length again, and so does the model.
use sv2_p2pool.Prelude.{ℕ, Bytes, List}

-- `job_declaration_sv2::DeclareMiningJob`
pub record DeclareMiningJob : Type 0 where
  pub request_id : ℕ
  pub mining_job_token : Bytes
  pub version : ℕ
  pub coinbase_tx_prefix : Bytes
  pub coinbase_tx_suffix : Bytes
  pub wtxid_list : List Bytes

-- `job_declaration_sv2::ProvideMissingTransactionsSuccess`
pub record ProvideMissingTransactionsSuccess : Type 0 where
  pub transaction_list : List Bytes

-- `mining_sv2::SetCustomMiningJob`
pub record SetCustomMiningJob : Type 0 where
  pub version : ℕ
  pub prev_hash : Bytes
  pub min_ntime : ℕ
  pub nbits : ℕ
  pub coinbase_tx_version : ℕ
  pub coinbase_prefix : Bytes
  pub coinbase_tx_input_n_sequence : ℕ
  pub coinbase_tx_outputs : Bytes
  pub coinbase_tx_locktime : ℕ
  pub merkle_path : List Bytes

-- `job_declaration_sv2::PushSolution`
pub record PushSolution : Type 0 where
  pub extranonce : Bytes
  pub prev_hash : Bytes
  pub nonce : ℕ
  pub ntime : ℕ
  pub nbits : ℕ
  pub version : ℕ
