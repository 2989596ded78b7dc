-- ===== src/Engine/Declare/Outcome.antt =====
-- What `handle_declare_mining_job` answers, and what it leaves behind.
use sv2_p2pool.Prelude.{
  ℕ, ◌≡◌, ◌≢◌, refl, sym, ◌∙◌, ap, true, not, ◌&&◌, ◌==◌, nat_eq, Bytes, List, [], ◌∷◌, Option,
  none, some, is_some, length, arith,
}
use sv2_p2pool.Prelude.Assoc
use sv2_p2pool.Prelude.Assoc.{get-insert_self}
use sv2_p2pool.Prelude.Flow.{
  Flow, next, exit, panic, or_exit, or_panic, require, map_exit, traverse, >>=-eq-next,
  or_exit-eq-next, require-eq-next, next-injective,
}
use sv2_p2pool.Bitcoin.{Hash, to_hash, Bitcoin}
use sv2_p2pool.Messages.{DeclareMiningJob, ProvideMissingTransactionsSuccess}
use sv2_p2pool.Jobs.{DeclaredJob}
use sv2_p2pool.Coinbase.{reconstruct_coinbase}
use sv2_p2pool.Engine.{Engine, World, bump}
use sv2_p2pool.Engine.Declare.{
  DeclareMiningJobResult, success, missing_transactions, error, invalid_mining_job_token,
  invalid_coinbase_tx, invalid_coinbase_tx_input, decode_token, from_le_bytes, tally_declare,
  is_empty, declare_checks, decodable_txids, cache_job, accept_declaration,
  handle_declare_mining_job,
}
use sv2_p2pool.Engine.Declare.Fails.{
  >>=_fails, or_exit_fails, map_exit_fails, require_fails, hashes_fail,
}
use sv2_p2pool.Engine.Custom.Accepts.{uncounted}
use sv2_p2pool.Engine.Invariant.Kept.{declare_checks_coinbase}

pub decode_token-eq-some :
    (bytes : Bytes) (token : ℕ)
    → decode_token bytes ≡ some token
    → (length bytes ≡ 8) × (token ≡ from_le_bytes bytes)
unfolding decode_token
decode_token-eq-some bytes token h = (ground arith, ground arith)

module _ (b : Bitcoin) where
  -- What a declaration that is accepted has shown, and what is cached for it.
  pub record IsAccepted (message : DeclareMiningJob)
      (pmts : Option ProvideMissingTransactionsSuccess) (after : Engine) : Type 0 where
    pub bodies : ProvideMissingTransactionsSuccess
    pub has_bodies : pmts ≡ some bodies
    pub token_size : length message.mining_job_token ≡ 8
    pub coinbase_tx : b.Transaction
    pub rebuilds :
        reconstruct_coinbase b message.coinbase_tx_prefix message.coinbase_tx_suffix
        ≡ next coinbase_tx
    pub one_input : length (b.input coinbase_tx) ≡ 1
    pub token_cached :
        Assoc.get (from_le_bytes message.mining_job_token) after.allocated_tokens
        ≡ some message.request_id
    pub job : DeclaredJob
    pub job_cached : Assoc.get message.request_id after.declared_jobs ≡ some job
    pub same_version : job.version ≡ message.version
    pub same_prefix : job.coinbase_tx_prefix ≡ message.coinbase_tx_prefix
    pub same_suffix : job.coinbase_tx_suffix ≡ message.coinbase_tx_suffix
    pub txids : job.txid_list ≡ some (decodable_txids b bodies.transaction_list)

  checked_bodies :
      (wtxids : List Hash) (pmts : Option ProvideMissingTransactionsSuccess)
      → not (is_empty wtxids && not (is_some pmts)) ≡ true
      → not (not (is_empty wtxids) && not (is_some pmts)) ≡ true
      → (bodies : ProvideMissingTransactionsSuccess) × (pmts ≡ some bodies)
  checked_bodies wtxids (some bodies) h₁ h₂ = (bodies, refl)
  checked_bodies [] none h₁ h₂ = absurd (ground arith)
  checked_bodies (x ∷ xs) none h₁ h₂ = absurd (ground arith)

  declare_checks_token :
      (message : DeclareMiningJob) (pmts : Option ProvideMissingTransactionsSuccess)
      (r : ℕ × List Hash)
      → declare_checks b message pmts ≡ next r
      → ((length message.mining_job_token ≡ 8) × (r.0 ≡ from_le_bytes message.mining_job_token))
        × ((bodies : ProvideMissingTransactionsSuccess) × (pmts ≡ some bodies))
  unfolding declare_checks
  declare_checks_token message pmts r h =
      let (token, decoded, h₁) =
        >>=-eq-next
          (or_exit (decode_token message.mining_job_token) (error invalid_mining_job_token)) _ r
          h in
      let (tx, _, h₂) =
        >>=-eq-next
          (map_exit (λ _. error invalid_coinbase_tx)
            (reconstruct_coinbase b message.coinbase_tx_prefix message.coinbase_tx_suffix))
          _ r h₁ in
      let (_, _, h₃) =
        >>=-eq-next (require (length (b.input tx) == 1) (error invalid_coinbase_tx_input)) _ r h₂ in
      let (wtxids, _, h₄) =
        >>=-eq-next (traverse (λ u256. or_panic (to_hash u256)) message.wtxid_list) _ r h₃ in
      let (_, some_tx, h₅) =
        >>=-eq-next
          (require (not (is_empty wtxids && not (is_some pmts))) (error invalid_coinbase_tx)) _ r
          h₄ in
      let (_, with_bodies, h₆) =
        >>=-eq-next
          (require (not (not (is_empty wtxids) && not (is_some pmts)))
            (missing_transactions wtxids))
          _ r h₅ in
      let (size, value) =
        decode_token-eq-some message.mining_job_token token (or_exit-eq-next _ _ token decoded) in
      let same : (token, wtxids) ≡ r = next-injective h₆ in
      (
        (size, sym (ap (λ p. p.0) same) ∙ value),
        checked_bodies wtxids pmts (require-eq-next _ _ some_tx) (require-eq-next _ _ with_bodies),
      )

  -- The checks exit with an error or a request for the missing transactions.
  declare_checks-unsuccessful :
      (message : DeclareMiningJob) (pmts : Option ProvideMissingTransactionsSuccess)
      → declare_checks b message pmts ≢ exit success
  unfolding declare_checks
  declare_checks-unsuccessful message pmts =
      >>=_fails (or_exit (decode_token message.mining_job_token) (error invalid_mining_job_token)) _
        (or_exit_fails _ (λ h. cc))
        (λ token _.
          >>=_fails
            (map_exit (λ _. error invalid_coinbase_tx)
              (reconstruct_coinbase b message.coinbase_tx_prefix message.coinbase_tx_suffix))
            _ (map_exit_fails _ (λ x h. cc))
            (λ tx _.
              >>=_fails (require (length (b.input tx) == 1) (error invalid_coinbase_tx_input)) _
                (require_fails _ (λ h. cc))
                (λ _ _.
                  >>=_fails (traverse (λ u256. or_panic (to_hash u256)) message.wtxid_list) _
                    (hashes_fail message.wtxid_list)
                    (λ wtxids _.
                      >>=_fails
                        (require (not (is_empty wtxids && not (is_some pmts)))
                          (error invalid_coinbase_tx))
                        _ (require_fails _ (λ h. cc))
                        (λ _ _.
                          >>=_fails
                            (require (not (not (is_empty wtxids) && not (is_some pmts)))
                              (missing_transactions wtxids))
                            _ (require_fails _ (λ h. cc)) (λ _ _ h. cc))))))

  module _ (w : World b) (message : DeclareMiningJob)
      (pmts : Option ProvideMissingTransactionsSuccess) (s : Engine) where
    accept_declaration-IsAccepted :
        (token : ℕ) (wtxids : List Hash)
        → declare_checks b message pmts ≡ next (token, wtxids)
        → IsAccepted message pmts
            (bump (tally_declare success) (accept_declaration b w message pmts token wtxids s))
    unfolding accept_declaration cache_job
    accept_declaration-IsAccepted token wtxids e =
        let ((size, value), (bodies, given)) =
          declare_checks_token message pmts (token, wtxids) e in
        let (tx, rebuilt, one) = declare_checks_coinbase b message pmts (token, wtxids) e in
        record {
          bodies = bodies;
          has_bodies = given;
          token_size = size;
          coinbase_tx = tx;
          rebuilds = rebuilt;
          one_input = one;
          token_cached = rw (← value) (get-insert_self token message.request_id _);
          job = _;
          job_cached = get-insert_self message.request_id _ _;
          same_version = refl;
          same_prefix = refl;
          same_suffix = refl;
          txids = rw given;
        }

    -- An accepted declaration has a token of 8 bytes, a coinbase that can be rebuilt with exactly
    -- one input, and the missing transactions; it is never accepted on the first pass. Afterwards
    -- the token leads to the request id and that to a job with the message's version and coinbase
    -- and the txids of the transactions that decode.
    pub declare-IsAccepted :
        (handle_declare_mining_job b w message pmts s).1 ≡ some success
        → IsAccepted message pmts (handle_declare_mining_job b w message pmts s).0
    unfolding handle_declare_mining_job
    declare-IsAccepted h = go (declare_checks b message pmts) refl
      where
        go :
            (r : Flow DeclareMiningJobResult (ℕ × List Hash))
            → declare_checks b message pmts ≡ r
            → IsAccepted message pmts (handle_declare_mining_job b w message pmts s).0
        go panic e = absurd (ground (arith, e))
        go (exit result) e =
            absurd (declare_checks-unsuccessful message pmts (ground (arith, e, h)))
        go (next (token, wtxids)) e =
            rw (e, handle_declare_mining_job) (accept_declaration-IsAccepted token wtxids e)

    -- A declaration that is not accepted changes nothing of the engine but its counters.
    declare-unaccepted :
        (handle_declare_mining_job b w message pmts s).1 ≢ some success
        → uncounted (handle_declare_mining_job b w message pmts s).0 ≡ uncounted s
    unfolding handle_declare_mining_job
    declare-unaccepted h = go (declare_checks b message pmts) refl
      where
        go :
            (r : Flow DeclareMiningJobResult (ℕ × List Hash))
            → declare_checks b message pmts ≡ r
            → uncounted (handle_declare_mining_job b w message pmts s).0 ≡ uncounted s
        go panic e = rw (e, handle_declare_mining_job)
        go (exit result) e = rw (e, handle_declare_mining_job)
        go (next (token, wtxids)) e = absurd (h (ground (arith, e)))
