-- ===== src/Metrics/Succeeds.antt =====
-- crates/sv2-p2pool-engine/src/metrics.rs: when registration succeeds, and what /metrics shows then.
use sv2_p2pool.Prelude.{
  ◌≡◌, refl, ap, ◌∙◌, ◌↔◌, inl, inr, arith, true, false, Bool-cases, String, text_eq, List, [], ◌∷◌,
  some, ◌==◌,
}
use sv2_p2pool.Prelude.Flow.{Flow, next, exit}
use sv2_p2pool.Prelude.Assoc
use sv2_p2pool.Metrics.{
  PushSolutionDropReason, ScmjProposalRejectReason, as_str, reject_as_str, minus_one, cache_race,
  consensus_rejected, no_handles, no_matching_job, no_template_id, reconstruct_failed, rpc_error,
  tdp_fetch_failed,
}
use sv2_p2pool.Metrics.Collectors.{
  Collector, declare_mining_job_accepted_options, declare_mining_job_rejected_options,
  declare_mining_job_missing_txns_options, set_custom_mining_job_accepted_options,
  set_custom_mining_job_rejected_options, push_solution_received_options, blocks_submitted_options,
  blocks_submit_failed_options, reorg_notifications_options, jobs_invalidated_total_options,
  declared_jobs_cache_size_options, recent_solutions_buffer_size_options,
  sweeper_last_run_timestamp_seconds_options, share_chain_tip_height_options,
  push_solution_dropped_options, set_custom_mining_job_proposal_rejected_options,
  set_custom_mining_job_validation_seconds_options,
  set_custom_mining_job_validation_skipped_options,
}
use sv2_p2pool.Metrics.Register.{
  Collectors, Registered, seed, drop_reasons, rejection_reasons, all_collectors, seeded, create_all,
  register_each, register,
}
use sv2_p2pool.Metrics.Names.{metric_names, taken, absent, put_all, fresh, fresh-absent}

abbrev names_of : List Collector → List String
names_of [] = []
names_of (c ∷ cs) = c.name ∷ names_of cs

abbrev pub engine_collectors : Collectors
engine_collectors = record {
  declare_mining_job_accepted = declare_mining_job_accepted_options;
  declare_mining_job_rejected = declare_mining_job_rejected_options;
  declare_mining_job_missing_txns = declare_mining_job_missing_txns_options;
  set_custom_mining_job_accepted = set_custom_mining_job_accepted_options;
  set_custom_mining_job_rejected = set_custom_mining_job_rejected_options;
  push_solution_received = push_solution_received_options;
  blocks_submitted = blocks_submitted_options;
  blocks_submit_failed = blocks_submit_failed_options;
  reorg_notifications = reorg_notifications_options;
  jobs_invalidated_total = jobs_invalidated_total_options;
  push_solution_dropped = push_solution_dropped_options;
  set_custom_mining_job_proposal_rejected = set_custom_mining_job_proposal_rejected_options;
  set_custom_mining_job_validation_seconds = set_custom_mining_job_validation_seconds_options;
  set_custom_mining_job_validation_skipped = set_custom_mining_job_validation_skipped_options;
  declared_jobs_cache_size = declared_jobs_cache_size_options;
  recent_solutions_buffer_size = recent_solutions_buffer_size_options;
  sweeper_last_run_timestamp_seconds = sweeper_last_run_timestamp_seconds_options;
  share_chain_tip_height = share_chain_tip_height_options;
}

-- A seeded label shows from the start, and the tip height is unknown.
abbrev pub IsSeeded : Registered → Type 0
IsSeeded out =
    ((reason : PushSolutionDropReason)
      → Assoc.get (as_str reason) out.metrics.push_solution_dropped ≡ some 0)
    × ((reason : ScmjProposalRejectReason)
        → Assoc.get (reject_as_str reason) out.metrics.set_custom_mining_job_proposal_rejected
          ≡ some 0)
    × (out.share_chain_tip_height ≡ minus_one)

drop_reasons_seeded :
    (reason : PushSolutionDropReason) → Assoc.get (as_str reason) (seed drop_reasons) ≡ some 0
unfolding Assoc.get as_str
drop_reasons_seeded no_matching_job = refl
drop_reasons_seeded cache_race = refl
drop_reasons_seeded no_template_id = refl
drop_reasons_seeded tdp_fetch_failed = refl
drop_reasons_seeded reconstruct_failed = refl
drop_reasons_seeded no_handles = refl

rejection_reasons_seeded :
    (reason : ScmjProposalRejectReason)
    → Assoc.get (reject_as_str reason) (seed rejection_reasons) ≡ some 0
unfolding Assoc.get reject_as_str
rejection_reasons_seeded consensus_rejected = refl
rejection_reasons_seeded rpc_error = refl

seeded-IsSeeded : (m : Collectors) → IsSeeded (seeded m)
seeded-IsSeeded m = (drop_reasons_seeded, rejection_reasons_seeded, refl)

module _ {Registry Error : Type 0} (create : Collector → Flow Error Collector)
    (register_collector : Collector → Registry → Flow Error Registry)
    (names : Registry → List String) where
  -- What the package documents: the options are accepted, and a registry takes a collector unless it
  -- has one of that name.
  pub record IsPrometheus : Type 0 where
    pub accepts :
        (c : Collector)
        → taken c.name metric_names ≡ true
        → (c.help == "") ≡ false
        → create c ≡ next c
    pub takes :
        (c : Collector) (r : Registry)
        → taken c.name (names r) ≡ false
        → (r' : Registry) × (register_collector c r ≡ next r') × (names r' ≡ c.name ∷ names r)
    pub refuses :
        (c : Collector) (r : Registry)
        → taken c.name (names r) ≡ true
        → (e : Error) × (register_collector c r ≡ exit e)

  abbrev pub Registers : Registry → Type 0
  Registers r =
      (r' : Registry) × (out : Registered) × (register create register_collector r ≡ (r', next out))
      × (names r' ≡ put_all metric_names (names r))
      × IsSeeded out

  create_all_lem : IsPrometheus → create_all create ≡ next engine_collectors
  unfolding create_all
  create_all_lem h = rw (
    h.accepts declare_mining_job_accepted_options refl refl,
    h.accepts declare_mining_job_rejected_options refl refl,
    h.accepts declare_mining_job_missing_txns_options refl refl,
    h.accepts set_custom_mining_job_accepted_options refl refl,
    h.accepts set_custom_mining_job_rejected_options refl refl,
    h.accepts push_solution_received_options refl refl,
    h.accepts blocks_submitted_options refl refl,
    h.accepts blocks_submit_failed_options refl refl,
    h.accepts reorg_notifications_options refl refl,
    h.accepts jobs_invalidated_total_options refl refl,
    h.accepts declared_jobs_cache_size_options refl refl,
    h.accepts recent_solutions_buffer_size_options refl refl,
    h.accepts sweeper_last_run_timestamp_seconds_options refl refl,
    h.accepts share_chain_tip_height_options refl refl,
    h.accepts push_solution_dropped_options refl refl,
    h.accepts set_custom_mining_job_proposal_rejected_options refl refl,
    h.accepts set_custom_mining_job_validation_seconds_options refl refl,
    h.accepts set_custom_mining_job_validation_skipped_options refl refl,
  )

  register_each-fresh :
      IsPrometheus
      → (cs : List Collector) (r : Registry) → fresh (names_of cs) (names r) ≡ true
      → (r' : Registry) × (register_each register_collector cs r ≡ (r', next tt))
        × (names r' ≡ put_all (names_of cs) (names r))
  unfolding register_each
  register_each-fresh h [] r is_fresh = (r, refl, refl)
  register_each-fresh h (c ∷ cs) r is_fresh =
      let (r', e, names_eq) = h.takes c r (ground arith) in
      let (r'', e', names_eq') = register_each-fresh h cs r' (ground arith) in
      (r'', rw (e) e', names_eq' ∙ ap (put_all (names_of cs)) names_eq)

  register_each-taken :
      IsPrometheus
      → (cs : List Collector) (r : Registry) → fresh (names_of cs) (names r) ≡ false
      → (r' : Registry) × (e : Error) × (register_each register_collector cs r ≡ (r', exit e))
  unfolding register_each
  register_each-taken h [] r is_taken = cc
  register_each-taken h (c ∷ cs) r is_taken = elim (Bool-cases (taken c.name (names r))) [
    | inl found ↦ let (x, e) = h.refuses c r found in (r, x, rw (e) refl)
    | inr free ↦
        let (r', e, names_eq) = h.takes c r free in
        let (r'', x, e') = register_each-taken h cs r' (ground arith) in (r'', x, rw (e) e')
  ]

  register-taken :
      IsPrometheus
      → (r : Registry) → absent metric_names (names r) ≡ false
      → (r' : Registry) × (x : Error) × (register create register_collector r ≡ (r', exit x))
  unfolding register
  register-taken h r some_taken =
      let (r', x, e) =
        register_each-taken h (all_collectors engine_collectors) r
          (fresh-absent metric_names (names r) refl ∙ some_taken) in
      (r', x, rw (create_all_lem h, e) refl)

  register-absent :
      IsPrometheus
      → (r : Registry) → absent metric_names (names r) ≡ true
      → (r' : Registry) × (register create register_collector r
          ≡ (r', next (seeded engine_collectors)))
        × (names r' ≡ put_all metric_names (names r))
  unfolding register
  register-absent h r all =
      let (r', e, names_eq) =
        register_each-fresh h (all_collectors engine_collectors) r
          (fresh-absent metric_names (names r) refl ∙ all) in
      (r', rw (create_all_lem h, e) refl, names_eq)

  -- With a registry as documented, registration succeeds exactly when the registry has none of the
  -- engine's 18 names. It then has them all, each known reason of a dropped solution and of a
  -- rejected proposal shows at zero, and the tip height shows as unknown.
  pub register_iff :
      IsPrometheus → (r : Registry) → Registers r ↔ (absent metric_names (names r) ≡ true)
  register_iff h r = (
    λ (r', out, e, names_eq, seeds). elim (Bool-cases (absent metric_names (names r))) [
      | inl all ↦ all
      | inr some_taken ↦ let (r'', x, e') = register-taken h r some_taken in cc
    ],
    λ all.
        let (r', e, names_eq) = register-absent h r all in
        (r', seeded engine_collectors, e, names_eq, seeded-IsSeeded engine_collectors),
  )

  -- A second registration on the registry that the first left fails.
  pub register_once :
      IsPrometheus
      → (r : Registry) → (done : Registers r)
      → (r' : Registry) × (x : Error) × (register create register_collector done.0 ≡ (r', exit x))
  register_once h r done = register-taken h done.0 (ap (absent metric_names) done.3 ∙ refl)
