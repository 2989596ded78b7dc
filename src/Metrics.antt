-- ===== src/Metrics.antt =====
-- crates/sv2-p2pool-engine/src/metrics.rs: the engine's counters. A counter is the number of its
-- increments (prometheus is a third-party package), a labelled counter an association by label.
pub mod Collectors
pub mod Register
pub mod Names
pub mod Succeeds
use sv2_p2pool.Prelude.{ℕ, suc, String, text_eq, Option, none, some}
use sv2_p2pool.Prelude.Assoc
use sv2_p2pool.Prelude.Assoc.{Assoc}

pub data PushSolutionDropReason : Type 0 where
  no_matching_job cache_race no_template_id tdp_fetch_failed : PushSolutionDropReason
  reconstruct_failed no_handles : PushSolutionDropReason

unfoldable pub as_str : PushSolutionDropReason → String
as_str no_matching_job = "no_matching_job"
as_str cache_race = "cache_race"
as_str no_template_id = "no_template_id"
as_str tdp_fetch_failed = "tdp_fetch_failed"
as_str reconstruct_failed = "reconstruct_failed"
as_str no_handles = "no_handles"

pub data ScmjProposalRejectReason : Type 0 where
  consensus_rejected rpc_error : ScmjProposalRejectReason

unfoldable pub reject_as_str : ScmjProposalRejectReason → String
reject_as_str consensus_rejected = "consensus_rejected"
reject_as_str rpc_error = "rpc_error"

-- `IntCounterVec` with one label
abbrev pub CounterVec : Type 0
CounterVec = Assoc String ℕ

abbrev pub value : Option ℕ → ℕ
value none = 0
value (some n) = n

-- `vec.with_label_values(&[label]).inc()`
pub inc_label : String → CounterVec → CounterVec
inc_label label counters = Assoc.insert label (suc (value (Assoc.get label counters))) counters

-- The gauge of the tip height, an `i64`: a height, or `-1`.
pub data Gauge : Type 0 where
  height : ℕ → Gauge
  minus_one : Gauge

pub record EngineMetrics : Type 0 where
  pub declare_mining_job_accepted : ℕ
  pub declare_mining_job_rejected : ℕ
  pub declare_mining_job_missing_txns : ℕ
  pub set_custom_mining_job_accepted : ℕ
  pub set_custom_mining_job_rejected : ℕ
  pub push_solution_received : ℕ
  pub blocks_submitted : ℕ
  pub blocks_submit_failed : ℕ
  pub reorg_notifications : ℕ
  pub jobs_invalidated_total : ℕ
  pub push_solution_dropped : CounterVec
  pub set_custom_mining_job_proposal_rejected : CounterVec
  -- the number of observations of the histogram
  pub set_custom_mining_job_validation_seconds : ℕ
  pub set_custom_mining_job_validation_skipped : ℕ
  pub declared_jobs_cache_size : ℕ
  pub recent_solutions_buffer_size : ℕ
  pub sweeper_last_run_timestamp_seconds : ℕ

pub record_push_solution_drop : PushSolutionDropReason → EngineMetrics → EngineMetrics
record_push_solution_drop reason m = record m {
  push_solution_dropped = inc_label (as_str reason) m.push_solution_dropped;
}

pub record_scmj_proposal_rejection : ScmjProposalRejectReason → EngineMetrics → EngineMetrics
record_scmj_proposal_rejection reason m = record m {
  set_custom_mining_job_proposal_rejected =
      inc_label (reject_as_str reason) m.set_custom_mining_job_proposal_rejected;
}
