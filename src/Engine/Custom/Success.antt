-- ===== src/Engine/Custom/Success.antt =====
-- What the success of `handle_set_custom_mining_job` says.
use sv2_p2pool.Prelude.{ℕ, ◌≡◌, refl, ◌⊎◌, inl, inr, true, List, Option, none, some, nat_eq, arith}
use sv2_p2pool.Prelude.Assoc
use sv2_p2pool.Prelude.Flow.{Flow, next, exit, panic}
use sv2_p2pool.Bitcoin.{Bitcoin, Block}
use sv2_p2pool.Messages.{SetCustomMiningJob}
use sv2_p2pool.Jobs.{DeclaredJob}
use sv2_p2pool.Block.{BlockReconstructError, build_candidate_block}
use sv2_p2pool.Block.Assembly.{IsCandidate, build_candidate_block-IsCandidate}
use sv2_p2pool.Tdp.{TdpHandle}
use sv2_p2pool.Engine.{
  Engine, World, bodies_fetch, proposal_check, bump, ProposalOutcome, accepted, duplicate, rejected,
}
use sv2_p2pool.Engine.Custom.{
  ScmjError, success, observe_validation, check_job, conclude, propose, validate, accept_custom,
  judge, consume_job, handle_set_custom_mining_job,
}
use sv2_p2pool.Engine.Custom.Accepts.{consumed}
use sv2_p2pool.Engine.Custom.Checks.{Matches, check_job-Matches}

module _ (b : Bitcoin) (w : World b) (scmj : SetCustomMiningJob) where
  -- The job that a token stands for was declared, and the custom job matches it.
  pub record IsBacked (token : ℕ) (s : Engine) : Type 0 where
    pub request_id : ℕ
    pub allocated : Assoc.get token s.allocated_tokens ≡ some request_id
    pub declared : DeclaredJob
    pub cached : Assoc.get request_id s.declared_jobs ≡ some declared
    pub matches : Matches b declared scmj

  judge-Matches :
      (declared : DeclaredJob) (s : Engine)
      → (judge b w scmj declared s).1 ≡ some success
      → check_job b declared scmj ≡ next tt
  unfolding judge
  judge-Matches declared s h = go (check_job b declared scmj) refl h
    where
      go :
          (r : Flow ScmjError (Unit {0}))
          → check_job b declared scmj ≡ r
          → (judge b w scmj declared s).1 ≡ some success
          → check_job b declared scmj ≡ next tt
      go panic e h = absurd (ground (arith, e))
      go (exit code) e h = absurd (ground (arith, e))
      go (next tt) e h = e

  -- Success is given only to a token whose job was declared and is cached, for a custom job that
  -- matches it: version, merkle path, every coinbase field and, unless no tip was captured when
  -- the job was declared, previous hash and nbits.
  pub custom-IsBacked :
      (token : ℕ) (s : Engine)
      → (handle_set_custom_mining_job b w scmj token s).1 ≡ some success
      → IsBacked token s
  unfolding handle_set_custom_mining_job consume_job
  custom-IsBacked token s h = at_token (Assoc.get token s.allocated_tokens) refl
    where
      at_job :
          (request_id : ℕ)
          → Assoc.get token s.allocated_tokens ≡ some request_id
          → (o : Option DeclaredJob) → Assoc.get request_id s.declared_jobs ≡ o
          → IsBacked token s
      at_job request_id allocated none e = absurd (ground (arith, allocated, e))
      at_job request_id allocated (some declared) e = record {
        request_id = request_id;
        allocated = allocated;
        declared = declared;
        cached = e;
        matches = check_job-Matches b declared scmj (
            judge-Matches declared (consumed token request_id s) (ground (arith, allocated, e, h)));
      }

      at_token : (o : Option ℕ) → Assoc.get token s.allocated_tokens ≡ o → IsBacked token s
      at_token none e = absurd (ground (arith, e))
      at_token (some request_id) e = at_job request_id e (Assoc.get request_id s.declared_jobs) refl

  -- A candidate block for the declared job that bitcoind did not reject.
  pub record IsProposed (declared : DeclaredJob) (tx_bodies : List b.Transaction) : Type 0 where
    pub candidate : Block b
    pub is_candidate : IsCandidate b declared scmj tx_bodies candidate
    pub verdict : (w.proposal candidate ≡ some accepted) ⊎ (w.proposal candidate ≡ some duplicate)

  conclude-success :
      (o : Option ProposalOutcome) (s : Engine)
      → (conclude o s).1 ≡ some success
      → (o ≡ some accepted) ⊎ (o ≡ some duplicate)
  unfolding conclude
  conclude-success none s h = absurd (ground arith)
  conclude-success (some accepted) s h = inl refl
  conclude-success (some duplicate) s h = inr refl
  conclude-success (some rejected) s h = absurd (ground arith)

  propose-success :
      (declared : DeclaredJob) (tx_bodies : List b.Transaction) (s : Engine)
      → (propose b w declared scmj tx_bodies s).1 ≡ some success
      → IsProposed declared tx_bodies
  unfolding propose
  propose-success declared tx_bodies s h = go (build_candidate_block b declared scmj tx_bodies) refl
    where
      go :
          (r : Flow BlockReconstructError (Block b))
          → build_candidate_block b declared scmj tx_bodies ≡ r
          → IsProposed declared tx_bodies
      go panic e = absurd (ground (arith, e))
      go (exit x) e = absurd (ground (arith, e))
      go (next candidate) e = record {
        candidate = candidate;
        is_candidate = build_candidate_block-IsCandidate b declared scmj tx_bodies candidate e;
        verdict =
            conclude-success (w.proposal candidate)
              (bump observe_validation (w.meanwhile proposal_check s)) (ground (arith, e, h));
      }

  judge-success :
      (declared : DeclaredJob) (tdp : TdpHandle) (template_id : ℕ) (tx_bodies : List b.Transaction)
      (s : Engine)
      → s.tdp ≡ some tdp
      → s.handles ≡ true
      → declared.template_id ≡ some template_id
      → w.tx_bodies template_id ≡ some tx_bodies
      → (judge b w scmj declared s).1 ≡ some success
      → IsProposed declared tx_bodies
  unfolding judge accept_custom validate
  judge-success declared tdp template_id tx_bodies s wired handles captured fetched h =
      propose-success declared tx_bodies (w.meanwhile bodies_fetch s)
        (ground (arith, judge-Matches declared s h, wired, handles, captured, fetched, h))

  -- Where TDP and bitcoind are wired, the job has a template id and the Template Provider returns
  -- its bodies, success is given only if bitcoind was proposed a block of exactly the declared
  -- transactions behind the declared coinbase, and did not reject it.
  pub custom-IsProposed :
      (token request_id template_id : ℕ) (declared : DeclaredJob) (tdp : TdpHandle)
      (tx_bodies : List b.Transaction) (s : Engine)
      → Assoc.get token s.allocated_tokens ≡ some request_id
      → Assoc.get request_id s.declared_jobs ≡ some declared
      → s.tdp ≡ some tdp
      → s.handles ≡ true
      → declared.template_id ≡ some template_id
      → w.tx_bodies template_id ≡ some tx_bodies
      → (handle_set_custom_mining_job b w scmj token s).1 ≡ some success
      → IsProposed declared tx_bodies
  unfolding handle_set_custom_mining_job consume_job
  custom-IsProposed token request_id template_id declared tdp tx_bodies s allocated cached wired
        handles captured fetched h =
      judge-success declared tdp template_id tx_bodies (consumed token request_id s) wired handles
        captured fetched (ground (arith, allocated, cached, h))
