-- ===== src/Engine/Events/Reachable.antt =====
-- Every event keeps the invariant, so every engine that was started and then run satisfies it.
use sv2_p2pool.Prelude.{
  Bool, true, false, List, [], ◌∷◌, All, Option, none, some, String, text_eq, ◌==◌, if◌then◌else◌,
  nat_eq, bytes_eq, ◌≡◌, refl,
}
use sv2_p2pool.Prelude.Assoc.{empty-Values, get-nothing}
use sv2_p2pool.Bitcoin.{Bitcoin, Block}
use sv2_p2pool.Metrics.{EngineMetrics}
use sv2_p2pool.Tdp.{TdpHandle}
use sv2_p2pool.Engine.{Engine, World, bump}
use sv2_p2pool.Engine.Push.{submit_task, submit_failed}
use sv2_p2pool.Engine.Allocate.{on_allocated_evicted, on_active_evicted}
use sv2_p2pool.Engine.Events.{
  Event, declare_mining_job, set_custom_mining_job, push_solution, allocate_token,
  allocated_evicted, active_evicted, share_chain_reorg, invalidator_wakes, sweeper_wakes,
  submits_block, tdp_updates, handle, started, run,
}
use sv2_p2pool.Engine.Invariant.{IsDeclared, Inv, Relies, Alone}
use sv2_p2pool.Engine.Invariant.Kept.{Inv-bump, declare-Inv}
use sv2_p2pool.Engine.Invariant.Consumed.{custom-Inv}
use sv2_p2pool.Engine.Invariant.Tasks.{
  push-Inv, notify-Inv, invalidator_round-Inv, sweeper_tick-Inv,
}
use sv2_p2pool.Engine.Invariant.Tokens.{allocate-Inv, drop_token_payout-Inv}

module _ (b : Bitcoin) where
  submit_task-Inv :
      (w : World b) (block : Block b) (s : Engine) → Inv b s → Inv b (submit_task b w block s)
  unfolding submit_task
  submit_task-Inv w block s v = go (w.submit_reply block) refl
    where
      go : (o : Option String) → w.submit_reply block ≡ o → Inv b (submit_task b w block s)
      go none e = rw (e, submit_task) (Inv-bump b _ s v)
      go (some reply) e =
          rw (e, submit_task)
            (elim (reply == "null") as (λ fine. Inv b (if fine then s else bump submit_failed s)) [
              | true ↦ v
              | false ↦ Inv-bump b _ s v
            ])

  -- One event keeps the invariant, in a world whose other tasks keep it.
  pub handle-Inv :
      (w : World b) (event : Event b) (s : Engine)
      → Relies b w × Alone b w
      → Inv b s
      → Inv b (handle b w event s)
  unfolding handle on_allocated_evicted on_active_evicted
  handle-Inv w (declare_mining_job message pmts) s (relies, alone) v =
      declare-Inv b w relies message pmts s v
  handle-Inv w (set_custom_mining_job scmj token) s (relies, alone) v =
      custom-Inv b w relies scmj token s v
  handle-Inv w (push_solution solution) s (relies, alone) v = push-Inv b w relies solution s v
  handle-Inv w (allocate_token token user budget) s (relies, alone) v =
      allocate-Inv b w alone token user budget s v
  handle-Inv w (allocated_evicted token) s (relies, alone) v =
      drop_token_payout-Inv b w alone token s v
  handle-Inv w (active_evicted active token) s (relies, alone) v =
      drop_token_payout-Inv b w alone token s v
  handle-Inv w (share_chain_reorg new_tip) s (relies, alone) v = notify-Inv b w relies new_tip s v
  handle-Inv w (invalidator_wakes received) s (relies, alone) v =
      invalidator_round-Inv b received s v
  handle-Inv w (sweeper_wakes now unix_seconds) s (relies, alone) v =
      sweeper_tick-Inv b now unix_seconds s v
  handle-Inv w (submits_block block) s (relies, alone) v = submit_task-Inv w block s v
  handle-Inv w (tdp_updates tdp) s (relies, alone) v = record {
    cache_map = v.cache_map;
    declared = v.declared;
    index_map = v.index_map;
    live = v.live;
  }

  started-Inv :
      (handles : Bool) (tdp : Option TdpHandle) (metrics : Option EngineMetrics)
      → Inv b (started b handles tdp metrics)
  unfolding sv2_p2pool.Engine.new
  started-Inv handles tdp metrics = record {
    cache_map = tt;
    declared = empty-Values (IsDeclared b);
    index_map = tt;
    live = λ user token h. absurd (get-nothing user token h);
  }

  run-keeps :
      (events : List (World b × Event b)) (s : Engine)
      → All (λ step. Relies b step.0 × Alone b step.0) events
      → Inv b s
      → Inv b (run b events s)
  unfolding run
  run-keeps [] s relies v = v
  run-keeps ((w, event) ∷ rest) s (here, later) v =
      run-keeps rest (handle b w event s) later (handle-Inv w event s here v)

  -- In every state that a started engine reaches, no request id or user is entered twice, every
  -- cached job is validated, has its txids and token and a coinbase that can be rebuilt with one
  -- input, and every user in the inverse index is bound to a token that has a payout script;
  -- provided that what ran during the handlers' awaits and after an allocation's guard kept this
  -- too, and that nothing ran between the two writes of a binding or of an eviction.
  pub run-Inv :
      (handles : Bool) (tdp : Option TdpHandle) (metrics : Option EngineMetrics)
      (events : List (World b × Event b))
      → All (λ step. Relies b step.0 × Alone b step.0) events
      → Inv b (run b events (started b handles tdp metrics))
  run-Inv handles tdp metrics events relies =
      run-keeps events _ relies (started-Inv handles tdp metrics)
