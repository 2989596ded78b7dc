-- ===== src/Engine/Push/Dropped.antt =====
-- Solutions that `handle_push_solution` drops.
use sv2_p2pool.Prelude.{ℕ, ◌≡◌, ap, inl, inr, none, some, nat_eq, arith, Option-cases}
use sv2_p2pool.Prelude.Assoc
use sv2_p2pool.Bitcoin.{Bitcoin}
use sv2_p2pool.Messages.{PushSolution, SetCustomMiningJob}
use sv2_p2pool.Jobs.{find_by_solution}
use sv2_p2pool.Engine.{Engine, World}
use sv2_p2pool.Engine.Push.{handle_push_solution}
use sv2_p2pool.Engine.Push.Submits.{push-IsFound}
use sv2_p2pool.Engine.Custom.{handle_set_custom_mining_job}
use sv2_p2pool.Engine.Custom.Accepts.{IsQuiet, custom-consumed}

module _ (b : Bitcoin) (w : World b) (solution : PushSolution) where
  -- A solution for which no job is cached when it arrives leads to no submission.
  pub push_unmatched :
      (s : Engine)
      → find_by_solution solution.prev_hash solution.nbits solution.version s.declared_jobs ≡ none
      → (handle_push_solution b w solution s).submits ≡ none
  push_unmatched s miss = elim (Option-cases (handle_push_solution b w solution s).submits) [
    | inl dropped ↦ dropped
    | inr (block, h) ↦ absurd (ground (arith, miss, (push-IsFound b w solution block s h).found))
  ]

  -- A `SetCustomMiningJob` uses its declared job up, also when it succeeds: a solution that matches
  -- no other cached job leads to no submission afterwards, when no other task runs meanwhile.
  pub push-custom :
      (scmj : SetCustomMiningJob) (token request_id : ℕ) (s : Engine)
      → IsQuiet b w
      → Assoc.get token s.allocated_tokens ≡ some request_id
      → find_by_solution solution.prev_hash solution.nbits solution.version
          (Assoc.remove request_id s.declared_jobs)
        ≡ none
      → (handle_push_solution b w solution
          (handle_set_custom_mining_job b w scmj token s).0).submits
        ≡ none
  push-custom scmj token request_id s quiet allocated unmatched =
      let cache : (handle_set_custom_mining_job b w scmj token s).0.declared_jobs
          ≡ Assoc.remove request_id s.declared_jobs =
        ap (λ s'. s'.declared_jobs) (custom-consumed b w scmj token request_id s quiet allocated) in
      push_unmatched _ (rw cache unmatched)
