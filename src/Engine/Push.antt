-- ===== src/Engine/Push.antt =====
-- `handle_push_solution` of crates/sv2-p2pool-engine/src/engine_impl.rs.
pub mod Submits
pub mod Dropped
use sv2_p2pool.Prelude.{
  ℕ, zero, suc, ◌+◌, ◌/◌, ◌%◌, Bool, true, false, Bytes, List, [], ◌∷◌, ◌++◌, Option, none, some,
  nat_eq, String, text_eq, ◌==◌, if◌then◌else◌,
}
use sv2_p2pool.Prelude.Assoc
use sv2_p2pool.Prelude.Flow.{Flow, next, exit, panic}
use sv2_p2pool.Bitcoin.{Hash, to_hash, Bitcoin, Block}
use sv2_p2pool.Messages.{PushSolution}
use sv2_p2pool.Jobs.{DeclaredJob, find_by_solution}
use sv2_p2pool.RecentSolutions
use sv2_p2pool.Metrics.{
  EngineMetrics, PushSolutionDropReason, no_handles, no_matching_job, cache_race, no_template_id,
  tdp_fetch_failed, reconstruct_failed, record_push_solution_drop,
}
use sv2_p2pool.Block.{reconstruct_block}
use sv2_p2pool.Tdp.{TdpHandle}
use sv2_p2pool.Engine.{Engine, World, cache_look, bodies_fetch, bump}

-- `u32::to_le_bytes`
abbrev pub to_le_bytes : ℕ → Bytes
to_le_bytes x = x % 256 ∷ x / 256 % 256 ∷ x / 65536 % 256 ∷ x / 16777216 % 256 ∷ []

unfoldable pub received : EngineMetrics → EngineMetrics
received m = record m { push_solution_received = suc m.push_solution_received }

unfoldable pub submitted : EngineMetrics → EngineMetrics
submitted m = record m { blocks_submitted = suc m.blocks_submitted }

unfoldable pub submit_failed : EngineMetrics → EngineMetrics
submit_failed m = record m { blocks_submit_failed = suc m.blocks_submit_failed }

abbrev pub credit_solution : ℕ → Hash → Hash → Engine → Engine
credit_solution now share_hash block_hash s = record s {
  recent_solutions = RecentSolutions.recorded s.recent_solutions now share_hash block_hash;
}

module _ (b : Bitcoin) where
  unfoldable pub synthetic_share_hash : PushSolution → Hash
  synthetic_share_hash solution = b.sha256d (
      solution.prev_hash
      ++ (to_le_bytes solution.nonce
          ++ (to_le_bytes solution.ntime ++ to_le_bytes solution.version)))

  -- The engine when the handler ends; the block whose submission it spawned, if any; and whether it
  -- returned, rather than panicked.
  pub record PushOutcome : Type 0 where
    pub engine : Engine
    pub submits : Option (Block b)
    pub returned : Bool

  abbrev pub stop : Engine → PushOutcome
  stop s = record { engine = s; submits = none; returned = true }

  abbrev pub dropped : PushSolutionDropReason → Engine → PushOutcome
  dropped reason s = stop (bump (record_push_solution_drop reason) s)

  -- Steps 5 and 6: credit first, then hand the block over, if bitcoind is wired. Step 4b only logs.
  unfoldable pub credit_and_submit : World b → Hash → Block b → Engine → PushOutcome
  credit_and_submit w share_hash block s =
      let credited = credit_solution w.now share_hash (b.block_hash block.header) s in
      if s.handles
      then record { engine = bump submitted credited; submits = some block; returned = true }
      else stop credited

  -- Steps 3 and 4, with the bodies fetched.
  unfoldable pub rebuild :
      World b → PushSolution → DeclaredJob → List b.Transaction → Engine → PushOutcome
  unfolding credit_and_submit
  rebuild w solution declared tx_bodies s = elim (reconstruct_block b declared solution tx_bodies) [
    | panic ↦ record { engine = s; submits = none; returned = false }
    | exit e ↦ dropped reconstruct_failed s
    | next block ↦ credit_and_submit w (synthetic_share_hash solution) block s
  ]

  -- The bodies of the template's transactions, asked of the Template Provider.
  unfoldable pub fetched : World b → PushSolution → DeclaredJob → ℕ → Engine → PushOutcome
  unfolding rebuild
  fetched w solution declared template_id s =
      let s' = w.meanwhile bodies_fetch s in
      elim (w.tx_bodies template_id) [
        | none ↦ dropped tdp_fetch_failed s'
        | some tx_bodies ↦ rebuild w solution declared tx_bodies s'
      ]

  -- Steps 2 and 3, for the job's template id.
  abbrev pub fetch_bodies : World b → PushSolution → DeclaredJob → Engine → Option ℕ → PushOutcome
  fetch_bodies w solution declared s none =
      let share_hash = synthetic_share_hash solution in
      dropped no_template_id (credit_solution w.now share_hash share_hash s)
  fetch_bodies w solution declared s (some template_id) = fetched w solution declared template_id s

  -- The second look at the cache.
  unfoldable pub looked_up : World b → PushSolution → ℕ → Engine → PushOutcome
  looked_up w solution request_id s = elim (Assoc.get request_id s.declared_jobs) [
    | none ↦ dropped cache_race s
    | some declared ↦ fetch_bodies w solution declared s declared.template_id
  ]

  -- Step 1: the cache is looked at twice, and others may run in between.
  unfoldable pub find_job : World b → PushSolution → Hash → Engine → PushOutcome
  unfolding looked_up
  find_job w solution push_prev_hash s =
      elim (find_by_solution push_prev_hash solution.nbits solution.version s.declared_jobs) [
        | none ↦ dropped no_matching_job s
        | some request_id ↦ looked_up w solution request_id (w.meanwhile cache_look s)
      ]

  -- A previous hash that is not 32 bytes ends the handler.
  abbrev pub pushed : World b → PushSolution → Engine → Option Hash → PushOutcome
  pushed w solution s none = stop s
  pushed w solution s (some push_prev_hash) = find_job w solution push_prev_hash s

  -- Without TDP the synthetic hash is credited for itself.
  abbrev pub push_with : World b → PushSolution → Engine → Option TdpHandle → PushOutcome
  push_with w solution s none =
      let share_hash = synthetic_share_hash solution in
      dropped no_handles (credit_solution w.now share_hash share_hash s)
  push_with w solution s (some tdp) = pushed w solution s (to_hash solution.prev_hash)

  unfoldable pub handle_push_solution : World b → PushSolution → Engine → PushOutcome
  handle_push_solution w solution s = let s₁ = bump received s in push_with w solution s₁ s₁.tdp

  -- The spawned task: anything but the reply `null` counts as a failure.
  unfoldable pub submit_task : World b → Block b → Engine → Engine
  submit_task w block s = elim (w.submit_reply block) [
    | none ↦ bump submit_failed s
    | some reply ↦ if reply == "null" then s else bump submit_failed s
  ]
