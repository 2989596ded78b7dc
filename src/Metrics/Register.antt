-- ===== src/Metrics/Register.antt =====
-- crates/sv2-p2pool-engine/src/metrics.rs: registration. The constructors of prometheus's collectors
-- and its `Registry::register` are parameters.
use sv2_p2pool.Prelude.{String, List, [], ◌∷◌, ◌++◌}
use sv2_p2pool.Prelude.Flow.{Flow, next, exit, panic, ◌>>=◌}
use sv2_p2pool.Metrics.{
  Gauge, minus_one, EngineMetrics, CounterVec, as_str, reject_as_str, no_matching_job, cache_race,
  no_template_id, tdp_fetch_failed, reconstruct_failed, no_handles, consensus_rejected, rpc_error,
}
use sv2_p2pool.Metrics.Collectors.{
  Collector, declare_mining_job_accepted_options, declare_mining_job_rejected_options,
  declare_mining_job_missing_txns_options, set_custom_mining_job_accepted_options,
  set_custom_mining_job_rejected_options, push_solution_received_options, blocks_submitted_options,
  blocks_submit_failed_options, reorg_notifications_options, jobs_invalidated_total_options,
  declared_jobs_cache_size_options, recent_solutions_buffer_size_options,
  sweeper_last_run_timestamp_seconds_options, share_chain_tip_height_options,
  push_solution_dropped_options, set_custom_mining_job_proposal_rejected_options,
  set_custom_mining_job_validation_seconds_options,
  set_custom_mining_job_validation_skipped_options,
}

-- The fields of `EngineMetrics`, as what is registered.
pub record Collectors : Type 0 where
  pub declare_mining_job_accepted : Collector
  pub declare_mining_job_rejected : Collector
  pub declare_mining_job_missing_txns : Collector
  pub set_custom_mining_job_accepted : Collector
  pub set_custom_mining_job_rejected : Collector
  pub push_solution_received : Collector
  pub blocks_submitted : Collector
  pub blocks_submit_failed : Collector
  pub reorg_notifications : Collector
  pub jobs_invalidated_total : Collector
  pub push_solution_dropped : Collector
  pub set_custom_mining_job_proposal_rejected : Collector
  pub set_custom_mining_job_validation_seconds : Collector
  pub set_custom_mining_job_validation_skipped : Collector
  pub declared_jobs_cache_size : Collector
  pub recent_solutions_buffer_size : Collector
  pub sweeper_last_run_timestamp_seconds : Collector
  pub share_chain_tip_height : Collector

abbrev pub all_counters : Collectors → List Collector
all_counters m =
    m.declare_mining_job_accepted ∷ m.declare_mining_job_rejected
    ∷ m.declare_mining_job_missing_txns ∷ m.set_custom_mining_job_accepted
    ∷ m.set_custom_mining_job_rejected ∷ m.push_solution_received ∷ m.blocks_submitted
    ∷ m.blocks_submit_failed ∷ m.reorg_notifications ∷ m.jobs_invalidated_total
    ∷ m.set_custom_mining_job_validation_skipped ∷ []

abbrev pub all_gauges : Collectors → List Collector
all_gauges m =
    m.declared_jobs_cache_size ∷ m.recent_solutions_buffer_size
    ∷ m.sweeper_last_run_timestamp_seconds ∷ m.share_chain_tip_height ∷ []

-- What is registered, in its order.
abbrev pub all_collectors : Collectors → List Collector
all_collectors m =
    all_counters m
    ++ (all_gauges m
        ++ (m.push_solution_dropped ∷ m.set_custom_mining_job_proposal_rejected
            ∷ m.set_custom_mining_job_validation_seconds ∷ []))

-- `with_label_values(&[label])` makes the child, at zero.
abbrev pub seed : List String → CounterVec
seed [] = []
seed (label ∷ labels) = (label, 0) ∷ seed labels

abbrev pub drop_reasons : List String
drop_reasons =
    as_str no_matching_job
    ∷ as_str cache_race
    ∷ as_str no_template_id
    ∷ as_str tdp_fetch_failed
    ∷ as_str reconstruct_failed
    ∷ as_str no_handles
    ∷ []

abbrev pub rejection_reasons : List String
rejection_reasons = reject_as_str consensus_rejected ∷ reject_as_str rpc_error ∷ []

-- The values after registration; the gauge of the tip height is set to `-1`.
pub record Registered : Type 0 where
  pub collectors : Collectors
  pub metrics : EngineMetrics
  pub share_chain_tip_height : Gauge

abbrev pub seeded : Collectors → Registered
seeded collectors = record {
  collectors = collectors;
  metrics = record {
    declare_mining_job_accepted = 0;
    declare_mining_job_rejected = 0;
    declare_mining_job_missing_txns = 0;
    set_custom_mining_job_accepted = 0;
    set_custom_mining_job_rejected = 0;
    push_solution_received = 0;
    blocks_submitted = 0;
    blocks_submit_failed = 0;
    reorg_notifications = 0;
    jobs_invalidated_total = 0;
    push_solution_dropped = seed drop_reasons;
    set_custom_mining_job_proposal_rejected = seed rejection_reasons;
    set_custom_mining_job_validation_seconds = 0;
    set_custom_mining_job_validation_skipped = 0;
    declared_jobs_cache_size = 0;
    recent_solutions_buffer_size = 0;
    sweeper_last_run_timestamp_seconds = 0;
  };
  share_chain_tip_height = minus_one;
}

-- The struct literal: the first constructor that fails is the error.
unfoldable pub create_all :
    {Error : Type 0} → (Collector → Flow Error Collector) → Flow Error Collectors
create_all create = do
  declare_mining_job_accepted ← create declare_mining_job_accepted_options
  declare_mining_job_rejected ← create declare_mining_job_rejected_options
  declare_mining_job_missing_txns ← create declare_mining_job_missing_txns_options
  set_custom_mining_job_accepted ← create set_custom_mining_job_accepted_options
  set_custom_mining_job_rejected ← create set_custom_mining_job_rejected_options
  push_solution_received ← create push_solution_received_options
  blocks_submitted ← create blocks_submitted_options
  blocks_submit_failed ← create blocks_submit_failed_options
  reorg_notifications ← create reorg_notifications_options
  jobs_invalidated_total ← create jobs_invalidated_total_options
  declared_jobs_cache_size ← create declared_jobs_cache_size_options
  recent_solutions_buffer_size ← create recent_solutions_buffer_size_options
  sweeper_last_run_timestamp_seconds ← create sweeper_last_run_timestamp_seconds_options
  share_chain_tip_height ← create share_chain_tip_height_options
  push_solution_dropped ← create push_solution_dropped_options
  set_custom_mining_job_proposal_rejected ← create set_custom_mining_job_proposal_rejected_options
  set_custom_mining_job_validation_seconds ← create set_custom_mining_job_validation_seconds_options
  set_custom_mining_job_validation_skipped ← create set_custom_mining_job_validation_skipped_options
  next (record {
    declare_mining_job_accepted = declare_mining_job_accepted;
    declare_mining_job_rejected = declare_mining_job_rejected;
    declare_mining_job_missing_txns = declare_mining_job_missing_txns;
    set_custom_mining_job_accepted = set_custom_mining_job_accepted;
    set_custom_mining_job_rejected = set_custom_mining_job_rejected;
    push_solution_received = push_solution_received;
    blocks_submitted = blocks_submitted;
    blocks_submit_failed = blocks_submit_failed;
    reorg_notifications = reorg_notifications;
    jobs_invalidated_total = jobs_invalidated_total;
    push_solution_dropped = push_solution_dropped;
    set_custom_mining_job_proposal_rejected = set_custom_mining_job_proposal_rejected;
    set_custom_mining_job_validation_seconds = set_custom_mining_job_validation_seconds;
    set_custom_mining_job_validation_skipped = set_custom_mining_job_validation_skipped;
    declared_jobs_cache_size = declared_jobs_cache_size;
    recent_solutions_buffer_size = recent_solutions_buffer_size;
    sweeper_last_run_timestamp_seconds = sweeper_last_run_timestamp_seconds;
    share_chain_tip_height = share_chain_tip_height;
  })

module _ {Registry Error : Type 0} where
  abbrev pub and_then :
      Registry
      → Flow Error Registry
      → (Registry → Registry × Flow Error (Unit {0}))
      → Registry × Flow Error (Unit {0})
  and_then r (next r') rest = rest r'
  and_then r (exit e) rest = (r, exit e)
  and_then r panic rest = (r, panic)

  -- Registration in order, to the first error; what was registered before it stays.
  unfoldable pub register_each :
      (Collector → Registry → Flow Error Registry)
      → List Collector
      → Registry
      → Registry × Flow Error (Unit {0})
  register_each register_collector [] r = (r, next tt)
  register_each register_collector (c ∷ cs) r =
      and_then r (register_collector c r) (register_each register_collector cs)

  abbrev pub finish :
      Collectors → Registry × Flow Error (Unit {0}) → Registry × Flow Error Registered
  finish m (r, next done) = (r, next (seeded m))
  finish m (r, exit e) = (r, exit e)
  finish m (r, panic) = (r, panic)

  abbrev pub register_created :
      (Collector → Registry → Flow Error Registry)
      → Flow Error Collectors
      → Registry
      → Registry × Flow Error Registered
  register_created register_collector (next m) r =
      finish m (register_each register_collector (all_collectors m) r)
  register_created register_collector (exit e) r = (r, exit e)
  register_created register_collector panic r = (r, panic)

  unfoldable pub register :
      (Collector → Flow Error Collector)
      → (Collector → Registry → Flow Error Registry)
      → Registry
      → Registry × Flow Error Registered
  register create register_collector r = register_created register_collector (create_all create) r
