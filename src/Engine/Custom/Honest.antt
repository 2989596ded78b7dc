-- ===== src/Engine/Custom/Honest.antt =====
-- A custom job that matches its declared job is accepted.
use sv2_p2pool.Prelude.{
  ℕ, ◌≡◌, refl, ◌⊎◌, inl, inr, Bool, true, false, List, ◌∷◌, map, All, Option, none, some, nat_eq,
  bytes_eq, arith,
}
use sv2_p2pool.Prelude.Assoc
use sv2_p2pool.Prelude.Flow.{next}
use sv2_p2pool.Merkle.{compute_merkle_root_from_txids}
use sv2_p2pool.Bitcoin.{as_i32, Bitcoin, Block}
use sv2_p2pool.Messages.{SetCustomMiningJob}
use sv2_p2pool.Jobs.{DeclaredJob}
use sv2_p2pool.Block.{build_candidate_block}
use sv2_p2pool.Block.Assembly.{match_bodies_iff, IsCandidate, build_candidate_block-IsCandidate}
use sv2_p2pool.Tdp.{TdpHandle}
use sv2_p2pool.Engine.{
  Engine, World, ProposalOutcome, accepted, duplicate, bodies_fetch, proposal_check, bump,
}
use sv2_p2pool.Engine.Custom.{
  success, observe_validation, conclude, propose, validate, validate_with, accept_custom, judge,
  consume_job, handle_set_custom_mining_job,
}
use sv2_p2pool.Engine.Custom.Accepts.{consumed}
use sv2_p2pool.Engine.Custom.Checks.{Matches}
use sv2_p2pool.Engine.Custom.Complete.{check_job_iff, to_hash_self}
use sv2_p2pool.Engine.Custom.Returning.{Is32}

module _ (b : Bitcoin) (w : World b) (scmj : SetCustomMiningJob) (declared : DeclaredJob)
    (is32 : Is32 scmj.prev_hash) (all32 : All Is32 scmj.merkle_path)
    (matches : Matches b declared scmj) where
  -- The verdict on a matching job is that of the proposal check.
  judge-matching : (s : Engine) → judge b w scmj declared s ≡ accept_custom b w declared scmj s
  unfolding judge
  judge-matching s = rw ((check_job_iff b declared scmj is32 all32).1 matches, judge)

  handle-matching :
      (token request_id : ℕ) (s : Engine)
      → Assoc.get token s.allocated_tokens ≡ some request_id
      → Assoc.get request_id s.declared_jobs ≡ some declared
      → handle_set_custom_mining_job b w scmj token s
        ≡ accept_custom b w declared scmj (consumed token request_id s)
  unfolding handle_set_custom_mining_job consume_job
  handle-matching token request_id s allocated cached =
      rw (allocated, handle_set_custom_mining_job, cached, consume_job)
        (judge-matching (consumed token request_id s))

  skip-success :
      (s : Engine) (tdp : Option TdpHandle) (handles : Bool) (template_id : Option ℕ)
      → (tdp ≡ none) ⊎ ((handles ≡ false) ⊎ (template_id ≡ none))
      → (validate_with b w declared scmj s tdp handles template_id).1 ≡ some success
  skip-success s none handles template_id missing = refl
  skip-success s (some tdp) false template_id missing = refl
  skip-success s (some tdp) true none missing = refl
  skip-success s (some tdp) true (some template_id) (inl missing) = absurd (ground arith)
  skip-success s (some tdp) true (some template_id) (inr (inl missing)) = absurd (ground arith)
  skip-success s (some tdp) true (some template_id) (inr (inr missing)) = absurd (ground arith)

  -- Without TDP, without bitcoind or for a job without a template id, a custom job that matches
  -- the declared job of its token, with hashes of 32 bytes, is accepted.
  pub custom_structural :
      (token request_id : ℕ) (s : Engine)
      → Assoc.get token s.allocated_tokens ≡ some request_id
      → Assoc.get request_id s.declared_jobs ≡ some declared
      → (s.tdp ≡ none) ⊎ ((s.handles ≡ false) ⊎ (declared.template_id ≡ none))
      → (handle_set_custom_mining_job b w scmj token s).1 ≡ some success
  unfolding accept_custom
  custom_structural token request_id s allocated cached missing =
      rw (handle-matching token request_id s allocated cached)
        (skip-success (consumed token request_id s) s.tdp s.handles declared.template_id missing)

  -- The candidate block of a matching job can be built out of the declared transactions.
  abbrev candidate : List b.Transaction → Block b
  candidate tx_bodies = record {
    header = record {
      version = as_i32 scmj.version;
      prev_blockhash = scmj.prev_hash;
      merkle_root =
          compute_merkle_root_from_txids b (b.compute_txid matches.coinbase_tx) matches.txids;
      time = scmj.min_ntime;
      bits = scmj.nbits;
      nonce = 0;
    };
    txdata = matches.coinbase_tx ∷ tx_bodies;
  }

  build_candidate_block-candidate :
      (tx_bodies : List b.Transaction)
      → map b.compute_txid tx_bodies ≡ matches.txids
      → build_candidate_block b declared scmj tx_bodies ≡ next (candidate tx_bodies)
  unfolding build_candidate_block
  build_candidate_block-candidate tx_bodies same = rw (
    matches.has_txids,
    (match_bodies_iff b matches.txids tx_bodies).1 same,
    matches.rebuilds,
    to_hash_self scmj.prev_hash is32,
  )

  conclude-success :
      (o : Option ProposalOutcome) (s : Engine)
      → (o ≡ some accepted) ⊎ (o ≡ some duplicate)
      → (conclude o s).1 ≡ some success
  unfolding conclude
  conclude-success o s (inl e) = rw e
  conclude-success o s (inr e) = rw e

  validate-success :
      (template_id : ℕ) (tx_bodies : List b.Transaction) (s : Engine)
      → w.tx_bodies template_id ≡ some tx_bodies
      → map b.compute_txid tx_bodies ≡ matches.txids
      → ((block : Block b)
          → IsCandidate b declared scmj tx_bodies block
          → (w.proposal block ≡ some accepted) ⊎ (w.proposal block ≡ some duplicate))
      → (validate b w declared scmj template_id s).1 ≡ some success
  unfolding validate propose
  validate-success template_id tx_bodies s fetched same proposed =
      let built = build_candidate_block-candidate tx_bodies same in
      rw (fetched, validate, built, propose)
        (conclude-success (w.proposal (candidate tx_bodies))
          (bump observe_validation (w.meanwhile proposal_check (w.meanwhile bodies_fetch s)))
          (proposed (candidate tx_bodies) (
            build_candidate_block-IsCandidate b declared scmj tx_bodies (candidate tx_bodies)
              built)))

  check-success :
      (s : Engine) (tdp' : Option TdpHandle) (handles' : Bool) (template' : Option ℕ)
      (tdp : TdpHandle) (template_id : ℕ)
      → tdp' ≡ some tdp
      → handles' ≡ true
      → template' ≡ some template_id
      → (validate b w declared scmj template_id s).1 ≡ some success
      → (validate_with b w declared scmj s tdp' handles' template').1 ≡ some success
  check-success s tdp' handles' template' tdp template_id wired handles captured fine =
      rw (wired, handles, captured) fine

  -- With TDP and bitcoind wired, a template id on the job and its declared transactions returned by
  -- the Template Provider, a custom job that matches the declared job of its token, with hashes of
  -- 32 bytes, is accepted if bitcoind accepts, or knows, every block that is a candidate for it.
  pub custom_validated :
      (token request_id template_id : ℕ) (tdp : TdpHandle) (tx_bodies : List b.Transaction)
      (s : Engine)
      → Assoc.get token s.allocated_tokens ≡ some request_id
      → Assoc.get request_id s.declared_jobs ≡ some declared
      → s.tdp ≡ some tdp
      → s.handles ≡ true
      → declared.template_id ≡ some template_id
      → w.tx_bodies template_id ≡ some tx_bodies
      → map b.compute_txid tx_bodies ≡ matches.txids
      → ((block : Block b)
          → IsCandidate b declared scmj tx_bodies block
          → (w.proposal block ≡ some accepted) ⊎ (w.proposal block ≡ some duplicate))
      → (handle_set_custom_mining_job b w scmj token s).1 ≡ some success
  unfolding accept_custom
  custom_validated token request_id template_id tdp tx_bodies s allocated cached wired handles
        captured fetched same proposed =
      let s' = consumed token request_id s in
      rw (handle-matching token request_id s allocated cached) (
        check-success s' s.tdp s.handles declared.template_id tdp template_id wired handles captured
          (validate-success template_id tx_bodies s' fetched same proposed))
