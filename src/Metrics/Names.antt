-- ===== src/Metrics/Names.antt =====
-- crates/sv2-p2pool-engine/src/metrics.rs: the names that /metrics shows, and which names are free.
use sv2_p2pool.Prelude.{
  ◌≡◌, refl, arith, Bool, true, false, ◌&&◌, ◌||◌, not, String, text_eq, List, [], ◌∷◌, ◌==◌,
}

-- What /metrics shows.
abbrev pub metric_names : List String
metric_names =
    "sv2_p2pool_engine_declare_mining_job_accepted_total"
    ∷ "sv2_p2pool_engine_declare_mining_job_rejected_total"
    ∷ "sv2_p2pool_engine_declare_mining_job_missing_txns_total"
    ∷ "sv2_p2pool_engine_set_custom_mining_job_accepted_total"
    ∷ "sv2_p2pool_engine_set_custom_mining_job_rejected_total"
    ∷ "sv2_p2pool_engine_push_solution_received_total" ∷ "sv2_p2pool_engine_blocks_submitted_total"
    ∷ "sv2_p2pool_engine_blocks_submit_failed_total" ∷ "sv2_p2pool_engine_reorg_notifications_total"
    ∷ "sv2_p2pool_engine_jobs_invalidated_total"
    ∷ "sv2_p2pool_engine_set_custom_mining_job_validation_skipped_total"
    ∷ "sv2_p2pool_engine_declared_jobs_cache_size"
    ∷ "sv2_p2pool_engine_recent_solutions_buffer_size"
    ∷ "sv2_p2pool_engine_sweeper_last_run_timestamp_seconds"
    ∷ "sv2_p2pool_engine_share_chain_tip_height" ∷ "sv2_p2pool_engine_push_solution_dropped_total"
    ∷ "sv2_p2pool_engine_set_custom_mining_job_proposal_rejected_total"
    ∷ "sv2_p2pool_engine_set_custom_mining_job_validation_seconds" ∷ []

abbrev pub taken : String → List String → Bool
taken n [] = false
taken n (m ∷ ms) = (m == n) || taken n ms

-- None of the names is among `ns`.
abbrev pub absent : List String → List String → Bool
absent [] ns = true
absent (m ∷ ms) ns = not (taken m ns) && absent ms ns

-- The names `ms` put before `ns`, one by one.
abbrev pub put_all : List String → List String → List String
put_all [] ns = ns
put_all (m ∷ ms) ns = put_all ms (m ∷ ns)

abbrev pub apart : String → List String → Bool
apart m [] = true
apart m (k ∷ ms) = not (m == k) && apart m ms

abbrev pub distinct : List String → Bool
distinct [] = true
distinct (m ∷ ms) = apart m ms && distinct ms

-- None is among `ns` nor among those before it.
abbrev pub fresh : List String → List String → Bool
fresh [] ns = true
fresh (m ∷ ms) ns = not (taken m ns) && fresh ms (m ∷ ns)

absent_put :
    (m : String) (ms ns : List String) → apart m ms ≡ true → absent ms (m ∷ ns) ≡ absent ms ns
absent_put m [] ns h = refl
absent_put m (k ∷ ms) ns h = let rest = absent_put m ms ns in ground arith

pub fresh-absent : (ms ns : List String) → distinct ms ≡ true → fresh ms ns ≡ absent ms ns
fresh-absent [] ns h = refl
fresh-absent (m ∷ ms) ns h =
    let rest = fresh-absent ms (m ∷ ns) in let put = absent_put m ms ns in ground arith
