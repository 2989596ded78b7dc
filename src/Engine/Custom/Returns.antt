-- ===== src/Engine/Custom/Returns.antt =====
-- `handle_set_custom_mining_job` does not panic.
use sv2_p2pool.Prelude.{
  ℕ, ◌≡◌, refl, Bool, true, false, List, All, Option, none, some, nat_eq, bytes_eq, arith,
}
use sv2_p2pool.Prelude.Assoc
use sv2_p2pool.Prelude.Flow.{Flow, next, exit, panic}
use sv2_p2pool.Bitcoin.{Bitcoin, Block}
use sv2_p2pool.Messages.{SetCustomMiningJob}
use sv2_p2pool.Jobs.{DeclaredJob}
use sv2_p2pool.Block.{BlockReconstructError, build_candidate_block}
use sv2_p2pool.Block.Returns.{build_candidate_block_returns}
use sv2_p2pool.Tdp.{TdpHandle}
use sv2_p2pool.Engine.{
  Engine, World, bodies_fetch, proposal_check, bump, ProposalOutcome, accepted, duplicate, rejected,
}
use sv2_p2pool.Engine.Custom.{
  ScmjError, invalid_coinbase_tx, SetCustomMiningJobResult, success, error,
  invalid_mining_job_token, observe_validation, CustomOutcome, check_job, conclude, propose,
  validate, validate_with, accept_custom, judge, consume_job, handle_set_custom_mining_job,
}
use sv2_p2pool.Engine.Custom.Returning.{Is32, check_job_returns}
use sv2_p2pool.Engine.Custom.Accepts.{consumed}
use sv2_p2pool.Engine.Invariant.{IsDeclared, Inv}

-- A handler returned.
abbrev pub Returns : CustomOutcome → Type 0
Returns outcome = (result : SetCustomMiningJobResult) × (outcome.1 ≡ some result)

-- A verdict returns, whatever was counted and whatever ran at the awaits.
module _ (b : Bitcoin) (w : World b) (scmj : SetCustomMiningJob) where
  conclude-Returns : (o : Option ProposalOutcome) (s : Engine) → Returns (conclude o s)
  unfolding conclude
  conclude-Returns none s = (_, refl)
  conclude-Returns (some accepted) s = (_, refl)
  conclude-Returns (some duplicate) s = (_, refl)
  conclude-Returns (some rejected) s = (_, refl)

  propose-Returns :
      (declared : DeclaredJob) (tx_bodies : List b.Transaction) (s : Engine)
      → IsDeclared b declared
      → Returns (propose b w declared scmj tx_bodies s)
  unfolding propose
  propose-Returns declared tx_bodies s ok =
      go (build_candidate_block b declared scmj tx_bodies) refl
    where
      go :
          (r : Flow BlockReconstructError (Block b))
          → build_candidate_block b declared scmj tx_bodies ≡ r
          → Returns (propose b w declared scmj tx_bodies s)
      go panic e =
          absurd
            (build_candidate_block_returns b declared scmj tx_bodies ok.coinbase_tx ok.rebuilds e)
      go (exit x) e = (error invalid_coinbase_tx, rw (e, propose))
      go (next candidate) e =
          let (result, returned) =
            conclude-Returns (w.proposal candidate)
              (bump observe_validation (w.meanwhile proposal_check s)) in
          (result, rw (e, propose) returned)

  validate-Returns :
      (declared : DeclaredJob) (template_id : ℕ) (s : Engine)
      → IsDeclared b declared
      → Returns (validate b w declared scmj template_id s)
  unfolding validate
  validate-Returns declared template_id s ok = go (w.tx_bodies template_id) refl
    where
      go :
          (o : Option (List b.Transaction))
          → w.tx_bodies template_id ≡ o
          → Returns (validate b w declared scmj template_id s)
      go none e = (success, rw (e, validate))
      go (some tx_bodies) e =
          let (result, returned) =
            propose-Returns declared tx_bodies (w.meanwhile bodies_fetch s) ok in
          (result, rw (e, validate) returned)

  validate_with-Returns :
      (declared : DeclaredJob) (s : Engine) (tdp : Option TdpHandle) (handles : Bool)
      (template_id : Option ℕ)
      → IsDeclared b declared
      → Returns (validate_with b w declared scmj s tdp handles template_id)
  validate_with-Returns declared s none handles template_id ok = (_, refl)
  validate_with-Returns declared s (some tdp) false template_id ok = (_, refl)
  validate_with-Returns declared s (some tdp) true none ok = (_, refl)
  validate_with-Returns declared s (some tdp) true (some template_id) ok =
      validate-Returns declared template_id s ok

  module _ (is32 : Is32 scmj.prev_hash) (all32 : All Is32 scmj.merkle_path) where
    judge-Returns :
        (declared : DeclaredJob) (s : Engine)
        → IsDeclared b declared
        → Returns (judge b w scmj declared s)
    unfolding judge accept_custom
    judge-Returns declared s ok = go (check_job b declared scmj) refl
      where
        go :
            (r : Flow ScmjError (Unit {0}))
            → check_job b declared scmj ≡ r
            → Returns (judge b w scmj declared s)
        go panic e = absurd (check_job_returns b scmj is32 all32 declared ok e)
        go (exit code) e = (error code, rw (e, judge))
        go (next u) e =
            let (result, returned) =
              validate_with-Returns declared s s.tdp s.handles declared.template_id ok in
            (result, rw (e, judge) returned)

  -- In an engine that satisfies the invariant, `handle_set_custom_mining_job` returns a result and
  -- does not panic, if the previous hash and the hashes of the merkle path have 32 bytes.
  pub custom-Returns :
      (token : ℕ) (s : Engine)
      → Is32 scmj.prev_hash
      → All Is32 scmj.merkle_path
      → Inv b s
      → Returns (handle_set_custom_mining_job b w scmj token s)
  unfolding handle_set_custom_mining_job consume_job
  custom-Returns token s is32 all32 v = at_token (Assoc.get token s.allocated_tokens) refl
    where
      at_job :
          (request_id : ℕ)
          → Assoc.get token s.allocated_tokens ≡ some request_id
          → (o : Option DeclaredJob) → Assoc.get request_id s.declared_jobs ≡ o
          → Returns (handle_set_custom_mining_job b w scmj token s)
      at_job request_id allocated none e =
          (error invalid_mining_job_token, ground (arith, allocated, e))
      at_job request_id allocated (some declared) e =
          let (result, returned) =
            judge-Returns is32 all32 declared (consumed token request_id s)
              (v.declared request_id declared e) in
          (result, ground (arith, allocated, e, returned))

      at_token :
          (o : Option ℕ)
          → Assoc.get token s.allocated_tokens ≡ o
          → Returns (handle_set_custom_mining_job b w scmj token s)
      at_token none e = (error invalid_mining_job_token, ground (arith, e))
      at_token (some request_id) e = at_job request_id e (Assoc.get request_id s.declared_jobs) refl
