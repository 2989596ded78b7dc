-- ===== src/Engine/Custom.antt =====
-- `handle_set_custom_mining_job` of crates/sv2-p2pool-engine/src/engine_impl.rs.
pub mod Checks
pub mod Accepts
pub mod Success
pub mod Returning
pub mod Returns
pub mod Complete
pub mod Honest
use sv2_p2pool.Prelude.{
  ℕ, suc, Bool, true, false, not, ◌&&◌, ◌||◌, ◌==◌, nat_eq, bytes_eq, bytes_eqb, if◌then◌else◌,
  Bytes, List, [], ◌∷◌, Option, none, some, starts_with,
}
use sv2_p2pool.Prelude.Assoc
use sv2_p2pool.Prelude.Flow.{
  Flow, next, exit, panic, or_exit, or_panic, require, map_exit, traverse, ◌>>=◌, ◌>>◌,
}
use sv2_p2pool.Bitcoin.{Hash, all_zeros, to_hash, as_i32, Bitcoin, Block}
use sv2_p2pool.Messages.{SetCustomMiningJob}
use sv2_p2pool.Jobs.{DeclaredJob}
use sv2_p2pool.Metrics.{
  EngineMetrics, record_scmj_proposal_rejection, consensus_rejected, rpc_error,
}
use sv2_p2pool.Coinbase.{reconstruct_coinbase}
use sv2_p2pool.Merkle.{merkle_path}
use sv2_p2pool.Block.{build_candidate_block}
use sv2_p2pool.Tdp.{TdpHandle}
use sv2_p2pool.Engine.{
  Engine, World, ProposalOutcome, accepted, duplicate, rejected, bodies_fetch, proposal_check, bump,
}

pub data ScmjError : Type 0 where
  invalid_mining_job_token job_not_yet_validated stale_chain_tip invalid_nbits : ScmjError
  invalid_version invalid_coinbase_tx invalid_coinbase_tx_version : ScmjError
  invalid_coinbase_prefix invalid_coinbase_tx_input_n_sequence : ScmjError
  invalid_coinbase_tx_outputs invalid_coinbase_tx_locktime invalid_merkle_path : ScmjError

pub data SetCustomMiningJobResult : Type 0 where
  success : SetCustomMiningJobResult
  error : ScmjError → SetCustomMiningJobResult

unfoldable pub tally_custom : SetCustomMiningJobResult → EngineMetrics → EngineMetrics
tally_custom success m = record m {
  set_custom_mining_job_accepted = suc m.set_custom_mining_job_accepted;
}
tally_custom (error code) m = record m {
  set_custom_mining_job_rejected = suc m.set_custom_mining_job_rejected;
}

unfoldable pub skip_validation : EngineMetrics → EngineMetrics
skip_validation m = record m {
  set_custom_mining_job_validation_skipped = suc m.set_custom_mining_job_validation_skipped;
}

unfoldable pub observe_validation : EngineMetrics → EngineMetrics
observe_validation m = record m {
  set_custom_mining_job_validation_seconds = suc m.set_custom_mining_job_validation_seconds;
}

-- The engine afterwards, and the result; `none` is a panic.
abbrev pub CustomOutcome : Type 0
CustomOutcome = Engine × Option SetCustomMiningJobResult

-- `bump_and_return`
abbrev pub finish : SetCustomMiningJobResult → Engine → CustomOutcome
finish result s = (bump (tally_custom result) s, some result)

-- Whether a tip was captured when the job was declared.
abbrev pub tip_was_captured : DeclaredJob → Bool
tip_was_captured declared =
    not (declared.tip.prev_hash == all_zeros) || not (declared.tip.nbits == 0)

abbrev pub first_input {ℓ} : {A : Type ℓ} → List A → Option A
first_input [] = none
first_input (x ∷ xs) = some x

-- The comparison of two merkle paths, `Vec<TxMerkleNode>`.
unfoldable pub paths_eqb : List Hash → List Hash → Bool
paths_eqb [] [] = true
paths_eqb [] (y ∷ ys) = false
paths_eqb (x ∷ xs) [] = false
paths_eqb (x ∷ xs) (y ∷ ys) = x == y && paths_eqb xs ys

-- Step 4, for a job with a captured tip.
unfoldable pub check_tip : DeclaredJob → SetCustomMiningJob → Flow ScmjError (Unit {0})
check_tip declared scmj = do
  custom_prev_hash ← or_panic (to_hash scmj.prev_hash)
  require (custom_prev_hash == declared.tip.prev_hash) stale_chain_tip
  require (scmj.nbits == declared.tip.nbits) invalid_nbits

-- The verdict of bitcoind on the candidate block.
unfoldable pub conclude : Option ProposalOutcome → Engine → CustomOutcome
conclude (some accepted) s = finish success s
conclude (some duplicate) s = finish success s
conclude (some rejected) s =
    finish (error invalid_coinbase_tx) (bump (record_scmj_proposal_rejection consensus_rejected) s)
conclude none s =
    finish (error invalid_coinbase_tx) (bump (record_scmj_proposal_rejection rpc_error) s)

module _ (b : Bitcoin) where
  -- Step 7, the coinbase's fields.
  unfoldable pub check_coinbase : b.Transaction → SetCustomMiningJob → Flow ScmjError (Unit {0})
  check_coinbase declared_coinbase_tx scmj = do
    require (b.tx_version declared_coinbase_tx == as_i32 scmj.coinbase_tx_version)
        invalid_coinbase_tx_version
    tx_in ← or_panic (first_input (b.input declared_coinbase_tx))
    require (starts_with (b.script_sig tx_in) scmj.coinbase_prefix) invalid_coinbase_prefix
    require (b.sequence tx_in == scmj.coinbase_tx_input_n_sequence)
        invalid_coinbase_tx_input_n_sequence
    require (b.serialize_outputs declared_coinbase_tx == scmj.coinbase_tx_outputs)
        invalid_coinbase_tx_outputs
    require (b.lock_time declared_coinbase_tx == scmj.coinbase_tx_locktime)
        invalid_coinbase_tx_locktime

  -- Step 8, the merkle path.
  unfoldable pub check_path :
      b.Transaction → Option (List Hash) → SetCustomMiningJob → Flow ScmjError (Unit {0})
  check_path declared_coinbase_tx declared_txids scmj = do
    txid_list ← or_exit declared_txids job_not_yet_validated
    custom_merkle_path ← traverse (λ u256. or_panic (to_hash u256)) scmj.merkle_path
    require
        (paths_eqb (merkle_path b (b.compute_txid declared_coinbase_tx) txid_list)
          custom_merkle_path)
        invalid_merkle_path

  -- Steps 3 to 8, which read nothing of the engine.
  unfoldable pub check_job : DeclaredJob → SetCustomMiningJob → Flow ScmjError (Unit {0})
  check_job declared scmj = do
    require declared.validated job_not_yet_validated
    if tip_was_captured declared then check_tip declared scmj else next tt
    require (scmj.version == declared.version) invalid_version
    declared_coinbase_tx ←
        map_exit (λ _. invalid_coinbase_tx)
          (reconstruct_coinbase b declared.coinbase_tx_prefix declared.coinbase_tx_suffix)
    check_coinbase declared_coinbase_tx scmj
    check_path declared_coinbase_tx declared.txid_list scmj

  -- Step 9 with the transaction bodies at hand.
  unfoldable pub propose :
      World b → DeclaredJob → SetCustomMiningJob → List b.Transaction → Engine → CustomOutcome
  propose w declared scmj tx_bodies s = elim (build_candidate_block b declared scmj tx_bodies) [
    | panic ↦ (s, none)
    | exit e ↦ finish (error invalid_coinbase_tx) s
    | next candidate ↦
        conclude (w.proposal candidate) (bump observe_validation (w.meanwhile proposal_check s))
  ]

  -- Step 9 with TDP, handles and a template id.
  unfoldable pub validate : World b → DeclaredJob → SetCustomMiningJob → ℕ → Engine → CustomOutcome
  unfolding propose
  validate w declared scmj template_id s =
      let s' = w.meanwhile bodies_fetch s in
      elim (w.tx_bodies template_id) [
        | none ↦ finish success (bump skip_validation s')
        | some tx_bodies ↦ propose w declared scmj tx_bodies s'
      ]

  -- Step 9: the proposal check is skipped unless TDP, the handles and a template id are there.
  abbrev pub validate_with :
      World b
      → DeclaredJob
      → SetCustomMiningJob
      → Engine
      → Option TdpHandle
      → Bool
      → Option ℕ
      → CustomOutcome
  validate_with w declared scmj s none handles template_id = finish success (bump skip_validation s)
  validate_with w declared scmj s (some tdp) false template_id =
      finish success (bump skip_validation s)
  validate_with w declared scmj s (some tdp) true none = finish success (bump skip_validation s)
  validate_with w declared scmj s (some tdp) true (some template_id) =
      validate w declared scmj template_id s

  unfoldable pub accept_custom : World b → DeclaredJob → SetCustomMiningJob → Engine → CustomOutcome
  accept_custom w declared scmj s =
      validate_with w declared scmj s s.tdp s.handles declared.template_id

  -- Step 3 on, for the job that was removed from the cache.
  unfoldable pub judge : World b → SetCustomMiningJob → DeclaredJob → Engine → CustomOutcome
  judge w scmj declared s = elim (check_job declared scmj) [
    | panic ↦ (s, none)
    | exit code ↦ finish (error code) s
    | next _ ↦ accept_custom w declared scmj s
  ]

  -- Step 2: the job is consumed.
  unfoldable pub consume_job : World b → SetCustomMiningJob → ℕ → Engine → CustomOutcome
  unfolding judge
  consume_job w scmj request_id s = elim (Assoc.get request_id s.declared_jobs) [
    | none ↦ finish (error invalid_mining_job_token) s
    | some declared ↦
        judge w scmj declared (record s { declared_jobs = Assoc.remove request_id s.declared_jobs })
  ]

  -- Step 1: the token is consumed, whatever comes next.
  unfoldable pub handle_set_custom_mining_job :
      World b → SetCustomMiningJob → ℕ → Engine → CustomOutcome
  unfolding consume_job
  handle_set_custom_mining_job w scmj allocated_token s =
      elim (Assoc.get allocated_token s.allocated_tokens) [
        | none ↦ finish (error invalid_mining_job_token) s
        | some request_id ↦
            consume_job w scmj request_id
              (record s { allocated_tokens = Assoc.remove allocated_token s.allocated_tokens })
      ]
