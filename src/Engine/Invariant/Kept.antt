-- ===== src/Engine/Invariant/Kept.antt =====
-- Counting and `handle_declare_mining_job` keep the invariant.
use sv2_p2pool.Prelude.{
  ℕ, ◌≡◌, refl, true, false, ◌==◌, if◌then◌else◌, List, Option, none, length, nat_eq, bytes_eq,
  nat_eqb_iff,
}
use sv2_p2pool.Prelude.Assoc.{insert-IsMap, insert-Values}
use sv2_p2pool.Prelude.Flow.{
  Flow, next, exit, panic, or_exit, require, map_exit, >>=-eq-next, map_exit-eq-next,
  require-eq-next,
}
use sv2_p2pool.Bitcoin.{Hash, Bitcoin}
use sv2_p2pool.Messages.{DeclareMiningJob, ProvideMissingTransactionsSuccess}
use sv2_p2pool.Jobs.{DeclaredJob}
use sv2_p2pool.Metrics.{EngineMetrics}
use sv2_p2pool.Coinbase.{reconstruct_coinbase}
use sv2_p2pool.Engine.{Engine, World, tip_read, bump}
use sv2_p2pool.Engine.Declare.{
  DeclareMiningJobResult, tally_declare, flat, success, error, invalid_mining_job_token,
  invalid_coinbase_tx, invalid_coinbase_tx_input, decode_token, declare_checks,
  read_share_chain_tip, cache_job, accept_declaration, handle_declare_mining_job,
}
use sv2_p2pool.Engine.Invariant.{IsDeclared, Inv, Relies}

module _ (b : Bitcoin) where
  pub Inv-bump : (f : EngineMetrics → EngineMetrics) (s : Engine) → Inv b s → Inv b (bump f s)
  Inv-bump f s v = record {
    cache_map = v.cache_map;
    declared = v.declared;
    index_map = v.index_map;
    live = v.live;
  }

  -- The coinbase of a declaration that passed the checks.
  pub declare_checks_coinbase :
      (message : DeclareMiningJob) (pmts : Option ProvideMissingTransactionsSuccess)
      (r : ℕ × List Hash)
      → declare_checks b message pmts ≡ next r
      → (tx : b.Transaction) × (reconstruct_coinbase b message.coinbase_tx_prefix
            message.coinbase_tx_suffix
          ≡ next tx)
        × (length (b.input tx) ≡ 1)
  unfolding declare_checks
  declare_checks_coinbase message pmts r h =
      let (token, _, h₁) =
        >>=-eq-next
          (or_exit (decode_token message.mining_job_token) (error invalid_mining_job_token)) _ r
          h in
      let (tx, rebuilt, h₂) =
        >>=-eq-next
          (map_exit (λ _. error invalid_coinbase_tx)
            (reconstruct_coinbase b message.coinbase_tx_prefix message.coinbase_tx_suffix))
          _ r h₁ in
      let (_, one, _) =
        >>=-eq-next (require (length (b.input tx) == 1) (error invalid_coinbase_tx_input)) _ r h₂ in
      (tx, map_exit-eq-next _ _ tx rebuilt, (nat_eqb_iff _ _).0 (require-eq-next _ _ one))

  cache_job-Inv :
      (request_id token : ℕ) (job : DeclaredJob) (s : Engine)
      → IsDeclared b job
      → Inv b s
      → Inv b (cache_job request_id token job s)
  unfolding cache_job
  cache_job-Inv request_id token job s ok v = record {
    cache_map = insert-IsMap request_id job s.declared_jobs v.cache_map;
    declared = insert-Values (IsDeclared b) request_id job s.declared_jobs ok v.declared;
    index_map = v.index_map;
    live = v.live;
  }

  module _ (w : World b) (relies : Relies b w) where
    read_share_chain_tip-Inv : (s : Engine) → Inv b s → Inv b (read_share_chain_tip b w s).1
    unfolding read_share_chain_tip
    read_share_chain_tip-Inv s v =
        elim s.handles
          as (λ wired.
            Inv b
              (if◌then◌else◌ {A = Option Hash × Engine} wired
                (flat w.chain_tip, w.meanwhile tip_read s) (none, s)).1) [
                  | true ↦ relies.keeps tip_read s v
                  | false ↦ v
                ]

    -- `handle_declare_mining_job` keeps the invariant.
    pub declare-Inv :
        (message : DeclareMiningJob) (pmts : Option ProvideMissingTransactionsSuccess) (s : Engine)
        → Inv b s
        → Inv b (handle_declare_mining_job b w message pmts s).0
    unfolding handle_declare_mining_job accept_declaration
    declare-Inv message pmts s v = go (declare_checks b message pmts) refl
      where
        go :
            (r : Flow DeclareMiningJobResult (ℕ × List Hash))
            → declare_checks b message pmts ≡ r
            → Inv b (handle_declare_mining_job b w message pmts s).0
        go panic e = rw (e, handle_declare_mining_job) v
        go (exit result) e = rw (e, handle_declare_mining_job) (Inv-bump (tally_declare result) s v)
        go (next (token, wtxids)) e =
            let (tx, rebuilt, one) = declare_checks_coinbase message pmts (token, wtxids) e in
            rw (e, handle_declare_mining_job)
              (Inv-bump (tally_declare success) (accept_declaration b w message pmts token wtxids s)
                (cache_job-Inv message.request_id token _ _
                  (record {
                    is_validated = refl;
                    txids = _;
                    has_txids = refl;
                    token = token;
                    has_token = refl;
                    coinbase_tx = tx;
                    rebuilds = rebuilt;
                    one_input = one;
                  })
                  (read_share_chain_tip-Inv s v)))
