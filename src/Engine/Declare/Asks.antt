-- ===== src/Engine/Declare/Asks.antt =====
-- When `handle_declare_mining_job` asks for the missing transactions.
use sv2_p2pool.Prelude.{
  ℕ, Bool, nat_eqb_iff, ◌≡◌, ◌≢◌, ◌↔◌, inl, inr, refl, sym, ap, ◌∙◌, true, false, not, ◌&&◌, ◌==◌,
  nat_eq, List, [], ◌∷◌, Option, none, some, is_some, length, arith, Option-cases,
}
use sv2_p2pool.Prelude.Flow.{
  Flow, next, exit, panic, or_panic, require, exit-injective, traverse, ◌>>◌,
}
use sv2_p2pool.Bitcoin.{Hash, to_hash, Bitcoin}
use sv2_p2pool.Messages.{DeclareMiningJob, ProvideMissingTransactionsSuccess}
use sv2_p2pool.Coinbase.{CoinbaseReconstructError, reconstruct_coinbase}
use sv2_p2pool.Engine.{Engine, World, bump}
use sv2_p2pool.Engine.Declare.{
  DeclareMiningJobResult, success, missing_transactions, error, invalid_coinbase_tx,
  invalid_coinbase_tx_input, decode_token, tally_declare, is_empty, declare_checks,
  handle_declare_mining_job, from_le_bytes,
}
use sv2_p2pool.Engine.Declare.Fails.{hashes_fail}
use sv2_p2pool.Engine.Declare.Outcome.{decode_token-eq-some}

require_passed :
    {R A : Type 0} (c : Bool) (r r' : R) (m : Flow R A)
    → r ≢ r'
    → (require c r >> m) ≡ exit r'
    → (c ≡ true) × (m ≡ exit r')
require_passed true r r' m apart h = (refl, h)
require_passed false r r' m apart h = absurd (apart (exit-injective h))

abbrev asked_list : List Hash → DeclareMiningJobResult → List Hash
asked_list d success = d
asked_list d (missing_transactions listed) = listed
asked_list d (error e) = d

module _ (b : Bitcoin) (message : DeclareMiningJob)
    (pmts : Option ProvideMissingTransactionsSuccess) (wtxids : List Hash) where
  abbrev hashes : Flow DeclareMiningJobResult (List Hash)
  hashes = traverse (λ u256. or_panic (to_hash u256)) message.wtxid_list

  -- A declaration without bodies, fine as far as it goes, of at least one transaction.
  pub record Asks : Type 0 where
    pub token_size : length message.mining_job_token ≡ 8
    pub coinbase_tx : b.Transaction
    pub rebuilds :
        reconstruct_coinbase b message.coinbase_tx_prefix message.coinbase_tx_suffix
        ≡ next coinbase_tx
    pub one_input : length (b.input coinbase_tx) ≡ 1
    pub listed : hashes ≡ next wtxids
    pub some_listed : wtxids ≢ []
    pub no_bodies : pmts ≡ none

  -- The last three steps, and those with the one before them.
  abbrev list_checks :
      ℕ
      → List Hash
      → Option ProvideMissingTransactionsSuccess
      → Flow DeclareMiningJobResult (ℕ × List Hash)
  list_checks token listed o = do
    require (not (is_empty listed && not (is_some o))) (error invalid_coinbase_tx)
    require (not (not (is_empty listed) && not (is_some o))) (missing_transactions listed)
    next (token, listed)

  abbrev last_checks :
      ℕ
      → b.Transaction
      → List Hash
      → Option ProvideMissingTransactionsSuccess
      → Flow DeclareMiningJobResult (ℕ × List Hash)
  last_checks token tx listed o =
      require (length (b.input tx) == 1) (error invalid_coinbase_tx_input)
      >> list_checks token listed o

  declare_checks-last_checks :
      (token : ℕ) (tx : b.Transaction) (listed : List Hash)
      → decode_token message.mining_job_token ≡ some token
      → reconstruct_coinbase b message.coinbase_tx_prefix message.coinbase_tx_suffix ≡ next tx
      → hashes ≡ next listed
      → declare_checks b message pmts ≡ last_checks token tx listed pmts
  unfolding declare_checks
  declare_checks-last_checks token tx listed e e' e'' = rw (e, e', e'') refl

  declare_checks_panic :
      (token : ℕ) (tx : b.Transaction)
      → decode_token message.mining_job_token ≡ some token
      → reconstruct_coinbase b message.coinbase_tx_prefix message.coinbase_tx_suffix ≡ next tx
      → hashes ≡ panic
      → declare_checks b message pmts
        ≡ (require (length (b.input tx) == 1) (error invalid_coinbase_tx_input) >> panic)
  unfolding declare_checks
  declare_checks_panic token tx e e' e'' = rw (e, e', e'') refl

  last_checks_asked :
      (token : ℕ) (tx : b.Transaction) (listed : List Hash)
      (o : Option ProvideMissingTransactionsSuccess)
      → last_checks token tx listed o ≡ exit (missing_transactions wtxids)
      → (length (b.input tx) ≡ 1) × (listed ≡ wtxids) × (listed ≢ []) × (o ≡ none)
  last_checks_asked token tx listed o h =
      let (one, rest) =
        require_passed (length (b.input tx) == 1) (error invalid_coinbase_tx_input) _ _ (λ e. cc)
          h in
      let (same, given, no_bodies) = go listed o rest in
      ((nat_eqb_iff (length (b.input tx)) 1).0 one, same, given, no_bodies)
    where
      go :
          (listed : List Hash) (o : Option ProvideMissingTransactionsSuccess)
          → list_checks token listed o ≡ exit (missing_transactions wtxids)
          → (listed ≡ wtxids) × (listed ≢ []) × (o ≡ none)
      go [] (some bodies) h = absurd cc
      go (y ∷ ys) (some bodies) h = absurd cc
      go [] none h = absurd cc
      go (y ∷ ys) none h = (ap (asked_list []) (exit-injective h), (λ e. cc), refl)

  checks_asked : declare_checks b message pmts ≡ exit (missing_transactions wtxids) → Asks
  unfolding declare_checks
  checks_asked h = elim (Option-cases (decode_token message.mining_job_token)) [
    | inl e ↦ absurd (ground (arith, e, h))
    | inr (token, e) ↦
        rebuilt token e
          (reconstruct_coinbase b message.coinbase_tx_prefix message.coinbase_tx_suffix) refl
  ]
    where
      listed :
          (token : ℕ)
          → decode_token message.mining_job_token ≡ some token
          → (tx : b.Transaction)
          → reconstruct_coinbase b message.coinbase_tx_prefix message.coinbase_tx_suffix ≡ next tx
          → (r : Flow DeclareMiningJobResult (List Hash)) → hashes ≡ r
          → Asks
      listed token e tx e' panic e'' =
          let (_, rest) =
            require_passed (length (b.input tx) == 1) (error invalid_coinbase_tx_input)
              (missing_transactions wtxids) panic (λ x. cc)
              (sym (declare_checks_panic token tx e e' e'') ∙ h) in
          absurd cc
      listed token e tx e' (exit x) e'' = absurd (hashes_fail message.wtxid_list e'')
      listed token e tx e' (next ws) e'' =
          let (one, same, given, no_bodies) =
            last_checks_asked token tx ws pmts
              (sym (declare_checks-last_checks token tx ws e e' e'') ∙ h) in
          record {
            token_size = (decode_token-eq-some message.mining_job_token token e).0;
            coinbase_tx = tx;
            rebuilds = e';
            one_input = one;
            listed = e'' ∙ ap next same;
            some_listed = λ empty. given (same ∙ empty);
            no_bodies = no_bodies;
          }

      rebuilt :
          (token : ℕ)
          → decode_token message.mining_job_token ≡ some token
          → (r : Flow CoinbaseReconstructError b.Transaction)
          → reconstruct_coinbase b message.coinbase_tx_prefix message.coinbase_tx_suffix ≡ r
          → Asks
      rebuilt token e panic e' = absurd (ground (arith, e, e', h))
      rebuilt token e (exit x) e' = absurd (ground (arith, e, e', h))
      rebuilt token e (next tx) e' = listed token e tx e' hashes refl

  asked_checks : Asks → declare_checks b message pmts ≡ exit (missing_transactions wtxids)
  unfolding decode_token
  asked_checks asks =
      declare_checks-last_checks (from_le_bytes message.mining_job_token) asks.coinbase_tx wtxids
        (ground (arith, asks.token_size)) asks.rebuilds asks.listed
      ∙ last wtxids pmts asks.some_listed asks.no_bodies
    where
      last :
          (listed : List Hash) (o : Option ProvideMissingTransactionsSuccess)
          → listed ≢ []
          → o ≡ none
          → last_checks (from_le_bytes message.mining_job_token) asks.coinbase_tx listed o
            ≡ exit (missing_transactions listed)
      last [] o given none_given = absurd (given refl)
      last (y ∷ ys) (some bodies) given none_given = cc
      last (y ∷ ys) none given none_given = rw (asks.one_input) refl

  module _ (w : World b) (s : Engine) where
    -- A declaration is answered by a request for the transactions `wtxids`, with nothing cached and
    -- nothing else of the engine changed but the counter of such answers, exactly when it comes
    -- without bodies, its token has 8 bytes, its coinbase can be rebuilt and has one input, and it
    -- lists these hashes, at least one.
    pub declare_asks_iff :
        (handle_declare_mining_job b w message pmts s ≡ (
          bump (tally_declare (missing_transactions wtxids)) s,
          some (missing_transactions wtxids),
        ))
        ↔ Asks
    unfolding handle_declare_mining_job
    declare_asks_iff = (
      λ h. go (declare_checks b message pmts) refl (ap (λ p. p.1) h),
      λ asks. rw (asked_checks asks, handle_declare_mining_job) refl,
    )
      where
        go :
            (r : Flow DeclareMiningJobResult (ℕ × List Hash))
            → declare_checks b message pmts ≡ r
            → (handle_declare_mining_job b w message pmts s).1 ≡ some (missing_transactions wtxids)
            → Asks
        go panic e h = absurd (ground (arith, e, h))
        go (exit result) e h = checks_asked (e ∙ ap exit (ground (arith, e, h)))
        go (next (token, listed)) e h = absurd (ground (arith, e, h))
