-- ===== src/Block.antt =====
-- crates/sv2-p2pool-engine/src/block.rs: the header and the block that a `PushSolution` finishes, and
-- the candidate block of a `SetCustomMiningJob`.
pub mod Assembly
pub mod Returns
use sv2_p2pool.Prelude.{ℕ, suc, ◌==◌, bytes_eq, nat_eq, List, [], ◌∷◌, Option, some, length}
use sv2_p2pool.Prelude.Flow.{Flow, next, exit, or_exit, require, map_exit, ◌>>=◌, ◌>>◌}
use sv2_p2pool.Bitcoin.{Hash, to_hash, as_i32, Header, Bitcoin, Block}
use sv2_p2pool.Messages.{PushSolution, SetCustomMiningJob}
use sv2_p2pool.Jobs.{DeclaredJob}
use sv2_p2pool.Coinbase.{
  CoinbaseReconstructError, reconstruct_coinbase, reconstruct_coinbase_with_extranonce,
}
use sv2_p2pool.Merkle.{compute_merkle_root_from_txids}

pub data BlockReconstructError : Type 0 where
  declared_job_not_validated : BlockReconstructError
  coinbase : CoinbaseReconstructError → BlockReconstructError
  bad_prev_hash : BlockReconstructError
  tx_body_count_mismatch : ℕ → ℕ → BlockReconstructError
  tx_body_txid_mismatch : ℕ → Hash → Hash → BlockReconstructError

module _ (b : Bitcoin) where
  -- The header of a solution, over a merkle root.
  abbrev pub solution_header : PushSolution → Hash → Hash → Header
  solution_header solution prev_blockhash merkle_root = record {
    version = as_i32 solution.version;
    prev_blockhash = prev_blockhash;
    merkle_root = merkle_root;
    time = solution.ntime;
    bits = solution.nbits;
    nonce = solution.nonce;
  }

  unfoldable pub reconstruct_header : DeclaredJob → PushSolution → Flow BlockReconstructError Header
  reconstruct_header job solution = do
    txid_list ← or_exit job.txid_list declared_job_not_validated
    coinbase_tx ← map_exit coinbase (
        reconstruct_coinbase_with_extranonce b job.coinbase_tx_prefix solution.extranonce
          job.coinbase_tx_suffix)
    let merkle_root = compute_merkle_root_from_txids b (b.compute_txid coinbase_tx) txid_list
    prev_blockhash ← or_exit (to_hash solution.prev_hash) bad_prev_hash
    next (solution_header solution prev_blockhash merkle_root)

  -- The loop over `tx_bodies.iter().zip(txid_list.iter()).enumerate()`, from index `idx` on.
  unfoldable pub check_bodies :
      ℕ → List b.Transaction → List Hash → Flow BlockReconstructError (Unit {0})
  check_bodies idx [] txids = next tt
  check_bodies idx (body ∷ bodies) [] = next tt
  check_bodies idx (body ∷ bodies) (expected_txid ∷ txids) = do
    let rest = check_bodies (suc idx) bodies txids
    let computed = b.compute_txid body
    require (computed == expected_txid) (tx_body_txid_mismatch idx expected_txid computed)
    rest

  -- The bodies fetched from the Template Provider are those of the job, in order.
  unfoldable pub match_bodies :
      List Hash → List b.Transaction → Flow BlockReconstructError (Unit {0})
  unfolding check_bodies
  match_bodies txid_list tx_bodies = do
    require (length tx_bodies == length txid_list)
        (tx_body_count_mismatch (length txid_list) (length tx_bodies))
    check_bodies 0 tx_bodies txid_list

  unfoldable pub reconstruct_block :
      DeclaredJob → PushSolution → List b.Transaction → Flow BlockReconstructError (Block b)
  reconstruct_block job solution tx_bodies = do
    txid_list ← or_exit job.txid_list declared_job_not_validated
    match_bodies txid_list tx_bodies
    coinbase_tx ← map_exit coinbase (
        reconstruct_coinbase_with_extranonce b job.coinbase_tx_prefix solution.extranonce
          job.coinbase_tx_suffix)
    let merkle_root = compute_merkle_root_from_txids b (b.compute_txid coinbase_tx) txid_list
    prev_blockhash ← or_exit (to_hash solution.prev_hash) bad_prev_hash
    next (record {
      header = solution_header solution prev_blockhash merkle_root;
      txdata = coinbase_tx ∷ tx_bodies;
    })

  unfoldable pub build_candidate_block :
      DeclaredJob → SetCustomMiningJob → List b.Transaction → Flow BlockReconstructError (Block b)
  build_candidate_block declared scmj tx_bodies = do
    txid_list ← or_exit declared.txid_list declared_job_not_validated
    match_bodies txid_list tx_bodies
    coinbase_tx ←
        map_exit coinbase
          (reconstruct_coinbase b declared.coinbase_tx_prefix declared.coinbase_tx_suffix)
    let merkle_root = compute_merkle_root_from_txids b (b.compute_txid coinbase_tx) txid_list
    prev_blockhash ← or_exit (to_hash scmj.prev_hash) bad_prev_hash
    next (record {
      header = record {
        version = as_i32 scmj.version;
        prev_blockhash = prev_blockhash;
        merkle_root = merkle_root;
        time = scmj.min_ntime;
        bits = scmj.nbits;
        nonce = 0;
      };
      txdata = coinbase_tx ∷ tx_bodies;
    })
