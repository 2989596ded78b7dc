-- ===== src/Metrics/Collectors.antt =====
-- crates/sv2-p2pool-engine/src/metrics.rs: the collectors that registration makes, with the names
-- under which /metrics shows them.
use sv2_p2pool.Prelude.{String, List, [], ◌∷◌}

-- A collector with its options and label names.
pub data Kind : Type 0 where
  counter gauge counter_vec histogram : Kind

pub record Collector : Type 0 where
  pub kind : Kind
  pub name : String
  pub help : String
  pub labels : List String

abbrev pub options : Kind → List String → String → String → Collector
options kind labels name help = record { kind = kind; name = name; help = help; labels = labels }

abbrev pub declare_mining_job_accepted_options : Collector
declare_mining_job_accepted_options =
    options counter [] "sv2_p2pool_engine_declare_mining_job_accepted_total"
      "Successful DeclareMiningJob exchanges"

abbrev pub declare_mining_job_rejected_options : Collector
declare_mining_job_rejected_options =
    options counter [] "sv2_p2pool_engine_declare_mining_job_rejected_total"
      "DeclareMiningJob calls returning an Error code"

abbrev pub declare_mining_job_missing_txns_options : Collector
declare_mining_job_missing_txns_options =
    options counter [] "sv2_p2pool_engine_declare_mining_job_missing_txns_total"
      "DeclareMiningJob calls returning MissingTransactions"

abbrev pub set_custom_mining_job_accepted_options : Collector
set_custom_mining_job_accepted_options =
    options counter [] "sv2_p2pool_engine_set_custom_mining_job_accepted_total"
      "Successful SetCustomMiningJob cross-checks"

abbrev pub set_custom_mining_job_rejected_options : Collector
set_custom_mining_job_rejected_options =
    options counter [] "sv2_p2pool_engine_set_custom_mining_job_rejected_total"
      "SetCustomMiningJob calls returning an Error code"

abbrev pub push_solution_received_options : Collector
push_solution_received_options =
    options counter [] "sv2_p2pool_engine_push_solution_received_total"
      "PushSolution messages handled"

abbrev pub blocks_submitted_options : Collector
blocks_submitted_options =
    options counter [] "sv2_p2pool_engine_blocks_submitted_total"
      "Blocks reconstructed and forwarded to bitcoind.submit_block"

abbrev pub blocks_submit_failed_options : Collector
blocks_submit_failed_options =
    options counter [] "sv2_p2pool_engine_blocks_submit_failed_total"
      "submit_block calls bitcoind did not accept (transport error or consensus rejection)"

abbrev pub reorg_notifications_options : Collector
reorg_notifications_options =
    options counter [] "sv2_p2pool_engine_reorg_notifications_total"
      "notify_share_chain_reorg invocations"

abbrev pub jobs_invalidated_total_options : Collector
jobs_invalidated_total_options =
    options counter [] "sv2_p2pool_engine_jobs_invalidated_total"
      "DeclaredJobs dropped on share-chain reorg"

abbrev pub declared_jobs_cache_size_options : Collector
declared_jobs_cache_size_options =
    options gauge [] "sv2_p2pool_engine_declared_jobs_cache_size"
      "Current count of cached DeclaredJobs"

abbrev pub recent_solutions_buffer_size_options : Collector
recent_solutions_buffer_size_options =
    options gauge [] "sv2_p2pool_engine_recent_solutions_buffer_size"
      "Current count of buffered share-finder credits"

abbrev pub sweeper_last_run_timestamp_seconds_options : Collector
sweeper_last_run_timestamp_seconds_options =
    options gauge [] "sv2_p2pool_engine_sweeper_last_run_timestamp_seconds"
      "Unix epoch seconds of the most recent recent-solutions sweeper tick (0 = never)"

abbrev pub share_chain_tip_height_options : Collector
share_chain_tip_height_options =
    options gauge [] "sv2_p2pool_engine_share_chain_tip_height"
      "Most-recently-observed share-chain tip height (-1 = unknown / poll failed)"

abbrev pub push_solution_dropped_options : Collector
push_solution_dropped_options =
    options counter_vec ("reason" ∷ []) "sv2_p2pool_engine_push_solution_dropped_total"
      "PushSolution messages that did not result in a submit_block attempt"

abbrev pub set_custom_mining_job_proposal_rejected_options : Collector
set_custom_mining_job_proposal_rejected_options =
    options counter_vec ("reason" ∷ [])
      "sv2_p2pool_engine_set_custom_mining_job_proposal_rejected_total"
      "SetCustomMiningJob calls rejected because validate_block_proposal returned Rejected or errored"

abbrev pub set_custom_mining_job_validation_seconds_options : Collector
set_custom_mining_job_validation_seconds_options =
    options histogram [] "sv2_p2pool_engine_set_custom_mining_job_validation_seconds"
      "Wall-clock latency of validate_block_proposal calls made during handle_set_custom_mining_job"

abbrev pub set_custom_mining_job_validation_skipped_options : Collector
set_custom_mining_job_validation_skipped_options =
    options counter [] "sv2_p2pool_engine_set_custom_mining_job_validation_skipped_total"
      "SetCustomMiningJob calls that bypassed validate_block_proposal (structural-only / no TDP / no template_id)"
