-- ===== src/Engine/Invariant/Consumed.antt =====
-- The verdict on a custom job, and `handle_set_custom_mining_job`, keep the invariant.
use sv2_p2pool.Prelude.{ℕ, ◌≡◌, refl, Bool, true, false, List, Option, none, some, nat_eq}
use sv2_p2pool.Prelude.Assoc
use sv2_p2pool.Prelude.Assoc.{remove-IsMap, remove-Values}
use sv2_p2pool.Prelude.Flow.{Flow, next, exit, panic}
use sv2_p2pool.Bitcoin.{Bitcoin, Block}
use sv2_p2pool.Messages.{SetCustomMiningJob}
use sv2_p2pool.Jobs.{DeclaredJob}
use sv2_p2pool.Metrics.{EngineMetrics}
use sv2_p2pool.Block.{BlockReconstructError, build_candidate_block}
use sv2_p2pool.Tdp.{TdpHandle}
use sv2_p2pool.Engine.{
  Engine, World, Await, ProposalOutcome, accepted, duplicate, rejected, bodies_fetch,
  proposal_check, bump,
}
use sv2_p2pool.Engine.Custom.{
  ScmjError, success, finish, skip_validation, observe_validation, check_job, conclude, propose,
  validate, validate_with, accept_custom, judge, consume_job, handle_set_custom_mining_job,
}
use sv2_p2pool.Engine.Invariant.{IsDeclared, Inv, Relies}
use sv2_p2pool.Engine.Invariant.Kept.{Inv-bump}

-- What counting and what runs at the awaits keep, the job's verdict keeps.
module _ (b : Bitcoin) (w : World b) (P : Engine → Type 0)
    (counted : (f : EngineMetrics → EngineMetrics) (s : Engine) → P s → P (bump f s))
    (waits : (at : Await) (s : Engine) → P s → P (w.meanwhile at s)) where
  conclude-keeps : (verdict : Option ProposalOutcome) (s : Engine) → P s → P (conclude verdict s).0
  unfolding conclude
  conclude-keeps none s v = counted _ _ (counted _ s v)
  conclude-keeps (some accepted) s v = counted _ s v
  conclude-keeps (some duplicate) s v = counted _ s v
  conclude-keeps (some rejected) s v = counted _ _ (counted _ s v)

  module _ (scmj : SetCustomMiningJob) (declared : DeclaredJob) where
    propose-keeps :
        (bodies : List b.Transaction) (s : Engine) → P s → P (propose b w declared scmj bodies s).0
    unfolding propose
    propose-keeps bodies s v = go (build_candidate_block b declared scmj bodies) refl
      where
        go :
            (r : Flow BlockReconstructError (Block b))
            → build_candidate_block b declared scmj bodies ≡ r
            → P (propose b w declared scmj bodies s).0
        go panic e = rw (e, propose) v
        go (exit x) e = rw (e, propose) (counted _ s v)
        go (next candidate) e =
            rw (e, propose)
              (conclude-keeps (w.proposal candidate) _
                (counted observe_validation _ (waits proposal_check s v)))

    validate-keeps :
        (template_id : ℕ) (s : Engine) → P s → P (validate b w declared scmj template_id s).0
    unfolding validate
    validate-keeps template_id s v = go (w.tx_bodies template_id) refl
      where
        here : P (w.meanwhile bodies_fetch s)
        here = waits bodies_fetch s v

        go :
            (o : Option (List b.Transaction))
            → w.tx_bodies template_id ≡ o
            → P (validate b w declared scmj template_id s).0
        go none e = rw (e, validate) (counted _ _ (counted skip_validation _ here))
        go (some bodies) e = rw (e, validate) (propose-keeps bodies _ here)

    skipped : (s : Engine) → P s → P (finish success (bump skip_validation s)).0
    skipped s v = counted _ _ (counted skip_validation s v)

    validate_with-keeps :
        (s : Engine) (tdp : Option TdpHandle) (handles : Bool) (template_id : Option ℕ)
        → P s
        → P (validate_with b w declared scmj s tdp handles template_id).0
    validate_with-keeps s none handles template_id v = skipped s v
    validate_with-keeps s (some tdp) false template_id v = skipped s v
    validate_with-keeps s (some tdp) true none v = skipped s v
    validate_with-keeps s (some tdp) true (some template_id) v = validate-keeps template_id s v

    accept_custom-keeps : (s : Engine) → P s → P (accept_custom b w declared scmj s).0
    unfolding accept_custom
    accept_custom-keeps s v = validate_with-keeps s s.tdp s.handles declared.template_id v

    pub judge-keeps : (s : Engine) → P s → P (judge b w scmj declared s).0
    unfolding judge
    judge-keeps s v = go (check_job b declared scmj) refl
      where
        go :
            (r : Flow ScmjError (Unit {0}))
            → check_job b declared scmj ≡ r
            → P (judge b w scmj declared s).0
        go panic e = rw (e, judge) v
        go (exit code) e = rw (e, judge) (counted _ s v)
        go (next u) e = rw (e, judge) (accept_custom-keeps s v)

module _ (b : Bitcoin) (w : World b) (relies : Relies b w) where
  consume_job-Inv :
      (scmj : SetCustomMiningJob) (request_id : ℕ) (s : Engine)
      → Inv b s
      → Inv b (consume_job b w scmj request_id s).0
  unfolding consume_job
  consume_job-Inv scmj request_id s v = go (Assoc.get request_id s.declared_jobs) refl
    where
      go :
          (o : Option DeclaredJob)
          → Assoc.get request_id s.declared_jobs ≡ o
          → Inv b (consume_job b w scmj request_id s).0
      go none e = rw (e, consume_job) (Inv-bump b _ s v)
      go (some declared) e =
          rw (e, consume_job)
            (judge-keeps b w (Inv b) (Inv-bump b) relies.keeps scmj declared _ (record {
              cache_map = remove-IsMap request_id s.declared_jobs v.cache_map;
              declared = remove-Values (IsDeclared b) request_id s.declared_jobs v.declared;
              index_map = v.index_map;
              live = v.live;
            }))

  -- `handle_set_custom_mining_job` keeps the invariant.
  pub custom-Inv :
      (scmj : SetCustomMiningJob) (allocated_token : ℕ) (s : Engine)
      → Inv b s
      → Inv b (handle_set_custom_mining_job b w scmj allocated_token s).0
  unfolding handle_set_custom_mining_job
  custom-Inv scmj allocated_token s v = go (Assoc.get allocated_token s.allocated_tokens) refl
    where
      go :
          (o : Option ℕ)
          → Assoc.get allocated_token s.allocated_tokens ≡ o
          → Inv b (handle_set_custom_mining_job b w scmj allocated_token s).0
      go none e = rw (e, handle_set_custom_mining_job) (Inv-bump b _ s v)
      go (some request_id) e =
          rw (e, handle_set_custom_mining_job)
            (consume_job-Inv scmj request_id _ (record {
              cache_map = v.cache_map;
              declared = v.declared;
              index_map = v.index_map;
              live = v.live;
            }))
