-- ===== src/Engine/Custom/Returning.antt =====
-- The structural checks of `handle_set_custom_mining_job` do not panic.
use sv2_p2pool.Prelude.{
  ◌≡◌, ◌≢◌, Bool, true, false, Bytes, List, [], ◌∷◌, All, Option, nat_eq, bytes_eq, arith, length,
  ◌==◌, if◌then◌else◌, starts_with,
}
use sv2_p2pool.Prelude.Flow.{
  Flow, next, panic, or_exit, or_panic, map_exit, require, traverse, >>=_returns, require_returns,
  or_exit_returns,
}
use sv2_p2pool.Bitcoin.{Hash, to_hash, as_i32, Bitcoin}
use sv2_p2pool.Messages.{SetCustomMiningJob}
use sv2_p2pool.Jobs.{DeclaredJob}
use sv2_p2pool.Coinbase.{reconstruct_coinbase}
use sv2_p2pool.Engine.Custom.{
  ScmjError, job_not_yet_validated, stale_chain_tip, invalid_version, invalid_coinbase_tx,
  invalid_coinbase_tx_version, invalid_coinbase_prefix, invalid_coinbase_tx_input_n_sequence,
  invalid_coinbase_tx_outputs, tip_was_captured, first_input, check_tip, check_coinbase, check_path,
  check_job,
}
use sv2_p2pool.Engine.Invariant.{IsDeclared}

abbrev pub Is32 : Bytes → Type 0
Is32 bytes = length bytes ≡ 32

to_hash_returns {κ} :
    {R : Type κ} (bytes : Bytes)
    → Is32 bytes
    → ◌≢◌ {A = Flow R Hash} (or_panic (to_hash bytes)) panic
to_hash_returns bytes is32 h = absurd (ground arith)

to_hashes_returns {κ} :
    {R : Type κ} (xs : List Bytes)
    → All Is32 xs
    → ◌≢◌ {A = Flow R (List Hash)} (traverse (λ u256. or_panic (to_hash u256)) xs) panic
unfolding traverse
to_hashes_returns [] all = λ h. cc
to_hashes_returns {R} (x ∷ xs) (is32, all) =
    >>=_returns {R = R} (or_panic (to_hash x)) _ (to_hash_returns x is32) (λ y _.
      >>=_returns (traverse (λ u256. or_panic (to_hash u256)) xs) _ (to_hashes_returns xs all)
        (λ ys _ h. cc))

module _ (b : Bitcoin) (scmj : SetCustomMiningJob) (is32 : Is32 scmj.prev_hash)
    (all32 : All Is32 scmj.merkle_path) where
  check_tip_returns : (declared : DeclaredJob) → check_tip declared scmj ≢ panic
  unfolding check_tip
  check_tip_returns declared =
      >>=_returns (or_panic (to_hash scmj.prev_hash)) _ (to_hash_returns scmj.prev_hash is32)
        (λ hash _.
          >>=_returns (require (hash == declared.tip.prev_hash) stale_chain_tip) _
            (require_returns _ _) (λ _ _. require_returns _ _))

  tip_returns :
      (declared : DeclaredJob) (captured : Bool)
      → (if captured then check_tip declared scmj else next tt) ≢ panic
  tip_returns declared true = check_tip_returns declared
  tip_returns declared false = λ h. cc

  check_coinbase_returns :
      (tx : b.Transaction) → length (b.input tx) ≡ 1 → check_coinbase b tx scmj ≢ panic
  unfolding check_coinbase
  check_coinbase_returns tx one =
      >>=_returns
        (require (b.tx_version tx == as_i32 scmj.coinbase_tx_version) invalid_coinbase_tx_version) _
        (require_returns _ _)
        (λ _ _.
          >>=_returns (or_panic (first_input (b.input tx))) _ (has_first (b.input tx) one)
            (λ tx_in _.
              >>=_returns
                (require (starts_with (b.script_sig tx_in) scmj.coinbase_prefix)
                  invalid_coinbase_prefix)
                _ (require_returns _ _)
                (λ _ _.
                  >>=_returns
                    (require (b.sequence tx_in == scmj.coinbase_tx_input_n_sequence)
                      invalid_coinbase_tx_input_n_sequence)
                    _ (require_returns _ _)
                    (λ _ _.
                      >>=_returns
                        (require (b.serialize_outputs tx == scmj.coinbase_tx_outputs)
                          invalid_coinbase_tx_outputs)
                        _ (require_returns _ _) (λ _ _. require_returns _ _)))))
    where
      has_first :
          (xs : List b.TxIn)
          → length xs ≡ 1
          → ◌≢◌ {A = Flow ScmjError b.TxIn} (or_panic (first_input xs)) panic
      has_first [] l h = absurd (omega arith)
      has_first (x ∷ xs) l h = cc

  check_path_returns :
      (tx : b.Transaction) (txids : Option (List Hash)) → check_path b tx txids scmj ≢ panic
  unfolding check_path
  check_path_returns tx txid_list =
      >>=_returns (or_exit txid_list job_not_yet_validated) _ (or_exit_returns _ _) (λ txids _.
        >>=_returns (traverse (λ u256. or_panic (to_hash u256)) scmj.merkle_path) _
          (to_hashes_returns scmj.merkle_path all32) (λ custom _. require_returns _ _))

  pub check_job_returns :
      (declared : DeclaredJob) → IsDeclared b declared → check_job b declared scmj ≢ panic
  unfolding check_job
  check_job_returns declared ok =
      >>=_returns (require declared.validated job_not_yet_validated) _ (require_returns _ _) (λ _ _.
        >>=_returns (if tip_was_captured declared then check_tip declared scmj else next tt) _
          (tip_returns declared (tip_was_captured declared))
          (λ _ _.
            >>=_returns (require (scmj.version == declared.version) invalid_version) _
              (require_returns _ _)
              (λ _ _. >>=_returns (rebuilt) _ rebuilt_returns (λ tx e.
                >>=_returns (check_coinbase b tx scmj) _
                  (check_coinbase_returns tx (one_input tx e))
                  (λ _ _. check_path_returns tx declared.txid_list)))))
    where
      rebuilt : Flow ScmjError b.Transaction
      rebuilt =
          map_exit (λ _. invalid_coinbase_tx)
            (reconstruct_coinbase b declared.coinbase_tx_prefix declared.coinbase_tx_suffix)

      rebuilt_returns : rebuilt ≢ panic
      rebuilt_returns h = absurd (ground (arith, ok.rebuilds, h))

      one_input : (tx : b.Transaction) → rebuilt ≡ next tx → length (b.input tx) ≡ 1
      one_input tx e = ground (arith, ok.rebuilds, ok.one_input, e)
