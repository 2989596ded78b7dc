-- ===== src/Block/Returns.antt =====
-- The candidate block is built without a panic once the coinbase is known to be rebuilt.
use sv2_p2pool.Prelude.{ℕ, suc, ◌≡◌, ◌≢◌, List, [], ◌∷◌, length, ◌==◌, nat_eq, bytes_eq, arith}
use sv2_p2pool.Prelude.Flow.{
  next, panic, or_exit, map_exit, require, >>=_returns, require_returns, or_exit_returns,
}
use sv2_p2pool.Bitcoin.{Hash, to_hash, Bitcoin}
use sv2_p2pool.Messages.{SetCustomMiningJob}
use sv2_p2pool.Jobs.{DeclaredJob}
use sv2_p2pool.Coinbase.{reconstruct_coinbase}
use sv2_p2pool.Block.{
  coinbase, declared_job_not_validated, bad_prev_hash, tx_body_count_mismatch,
  tx_body_txid_mismatch, check_bodies, match_bodies, build_candidate_block,
}

module _ (b : Bitcoin) where
  check_bodies_returns :
      (idx : ℕ) (bodies : List b.Transaction) (txids : List Hash)
      → check_bodies b idx bodies txids ≢ panic
  unfolding check_bodies
  check_bodies_returns idx [] txids h = cc
  check_bodies_returns idx (x ∷ xs) [] h = cc
  check_bodies_returns idx (x ∷ xs) (t ∷ ts) h =
      >>=_returns (require (b.compute_txid x == t) (tx_body_txid_mismatch idx t (b.compute_txid x)))
        _ (require_returns _ _) (λ _ _. check_bodies_returns (suc idx) xs ts) h

  match_bodies_returns :
      (txids : List Hash) (bodies : List b.Transaction) → match_bodies b txids bodies ≢ panic
  unfolding match_bodies
  match_bodies_returns txids bodies =
      >>=_returns
        (require (length bodies == length txids)
          (tx_body_count_mismatch (length txids) (length bodies)))
        _ (require_returns _ _) (λ _ _. check_bodies_returns 0 bodies txids)

  -- Building a candidate block does not panic for a job whose coinbase was rebuilt before.
  pub build_candidate_block_returns :
      (job : DeclaredJob) (scmj : SetCustomMiningJob) (bodies : List b.Transaction)
      (tx : b.Transaction)
      → reconstruct_coinbase b job.coinbase_tx_prefix job.coinbase_tx_suffix ≡ next tx
      → build_candidate_block b job scmj bodies ≢ panic
  unfolding build_candidate_block
  build_candidate_block_returns job scmj bodies tx rebuilt =
      >>=_returns (or_exit job.txid_list declared_job_not_validated) _ (or_exit_returns _ _)
        (λ txids _.
          >>=_returns (match_bodies b txids bodies) _ (match_bodies_returns txids bodies) (λ _ _.
            >>=_returns
              (map_exit coinbase
                (reconstruct_coinbase b job.coinbase_tx_prefix job.coinbase_tx_suffix))
              _ (λ h. rebuilt_returns h)
              (λ _ _.
                >>=_returns (or_exit (to_hash scmj.prev_hash) bad_prev_hash) _ (or_exit_returns _ _)
                  (λ _ _ h. cc))))
    where
      rebuilt_returns :
          map_exit coinbase (reconstruct_coinbase b job.coinbase_tx_prefix job.coinbase_tx_suffix)
          ≢ panic
      rebuilt_returns h = absurd (ground (arith, rebuilt, h))
