-- ===== src/Engine/Events.antt =====
-- The engine of crates/sv2-p2pool-engine/src as one state machine: an event is a call of a handler
-- of `JobValidationEngine`, a round of a background task, or the spawned submission of a block.
pub mod Reachable
use sv2_p2pool.Prelude.{ℕ, Bool, Bytes, List, [], ◌∷◌, Option, none, some}
use sv2_p2pool.Bitcoin.{Hash, Bitcoin, Block}
use sv2_p2pool.Messages.{
  DeclareMiningJob, ProvideMissingTransactionsSuccess, SetCustomMiningJob, PushSolution,
}
use sv2_p2pool.Metrics.{EngineMetrics}
use sv2_p2pool.Tdp.{TdpHandle}
use sv2_p2pool.Engine.{Engine, World, new}
use sv2_p2pool.Engine.Declare.{handle_declare_mining_job}
use sv2_p2pool.Engine.Custom.{handle_set_custom_mining_job}
use sv2_p2pool.Engine.Push.{handle_push_solution, submit_task}
use sv2_p2pool.Engine.Allocate.{
  handle_allocate_mining_job_token, on_allocated_evicted, on_active_evicted,
}
use sv2_p2pool.Engine.Reorg.{Received, notify_share_chain_reorg, invalidator_round, sweeper_tick}

module _ (b : Bitcoin) where
  pub data Event : Type 0 where
    declare_mining_job : DeclareMiningJob → Option ProvideMissingTransactionsSuccess → Event
    set_custom_mining_job : SetCustomMiningJob → (allocated_token : ℕ) → Event
    push_solution : PushSolution → Event
    allocate_token : (token : ℕ) → (user_identifier : Bytes) → (budget : ℕ) → Event
    allocated_evicted : (token : ℕ) → Event
    active_evicted : (active_token allocated_token : ℕ) → Event
    share_chain_reorg : (new_tip : Hash) → Event
    invalidator_wakes : Received → Event
    sweeper_wakes : (now unix_seconds : ℕ) → Event
    submits_block : Block b → Event
    tdp_updates : TdpHandle → Event

  unfoldable pub handle : World b → Event → Engine → Engine
  handle w (declare_mining_job message pmts) s = (handle_declare_mining_job b w message pmts s).0
  handle w (set_custom_mining_job scmj token) s = (handle_set_custom_mining_job b w scmj token s).0
  handle w (push_solution solution) s = (handle_push_solution b w solution s).engine
  handle w (allocate_token token user budget) s =
      (handle_allocate_mining_job_token b w token user budget s).0
  handle w (allocated_evicted token) s = on_allocated_evicted b w token s
  handle w (active_evicted active_token allocated_token) s =
      on_active_evicted b w active_token allocated_token s
  handle w (share_chain_reorg new_tip) s = notify_share_chain_reorg b w new_tip s
  handle w (invalidator_wakes received) s = (invalidator_round received s).0
  handle w (sweeper_wakes now unix_seconds) s = sweeper_tick now unix_seconds s
  handle w (submits_block block) s = submit_task b w block s
  -- the Template Provider bridge keeps its snapshots up to date in place
  handle w (tdp_updates tdp) s = record s { tdp = some tdp }

  -- An engine as it is started, with what was wired.
  abbrev pub started : Bool → Option TdpHandle → Option EngineMetrics → Engine
  started handles tdp metrics = record new { handles = handles; tdp = tdp; metrics = metrics }

  -- The engine after a sequence of events, each in its own world.
  unfoldable pub run : List (World b × Event) → Engine → Engine
  run [] s = s
  run ((w, event) ∷ rest) s = run rest (handle w event s)
