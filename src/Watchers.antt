-- ===== src/Watchers.antt =====
-- crates/sv2-p2pool-engine/src/lib.rs: the background tasks of `P2poolV2Engine`, their handles, and
-- which of them an abort ends.
pub mod Owned
use sv2_p2pool.Prelude.{ℕ, suc, List, [], ◌∷◌, Option, none, some, keep_if, not, nat_eqb}

-- The tasks that run, by kind and number. The loops of a detector and of a sweeper have no exit, and
-- an invalidator's has none while its detector runs; a supervisor waits for both.
pub record Runtime : Type 0 where
  pub next_id : ℕ
  pub detectors : List ℕ
  pub invalidators : List ℕ
  pub supervisors : List ℕ
  pub sweepers : List ℕ

-- The engine's handles and the runtime.
pub record Tasks : Type 0 where
  pub runtime : Runtime
  pub reorg_watcher : Option ℕ
  pub recent_solutions_sweeper : Option ℕ

abbrev pub no_tasks : Tasks
no_tasks = record {
  runtime = record {
    next_id = 0;
    detectors = [];
    invalidators = [];
    supervisors = [];
    sweepers = [];
  };
  reorg_watcher = none;
  recent_solutions_sweeper = none;
}

abbrev pub without : ℕ → List ℕ → List ℕ
without id = keep_if (λ other. not (nat_eqb other id))

-- `handle.abort()` ends one task. The handles that the supervisor holds are dropped with it, and a
-- dropped handle detaches its task.
abbrev pub abort_supervisor : Option ℕ → Runtime → Runtime
abort_supervisor none r = r
abort_supervisor (some id) r = record r { supervisors = without id r.supervisors }

abbrev pub abort_sweeper : Option ℕ → Runtime → Runtime
abort_sweeper none r = r
abort_sweeper (some id) r = record r { sweepers = without id r.sweepers }

-- The invalidator, the detector and the supervisor, in this order.
abbrev pub spawn_watcher : Runtime → Runtime
spawn_watcher r = record r {
  next_id = suc (suc (suc r.next_id));
  invalidators = r.next_id ∷ r.invalidators;
  detectors = suc r.next_id ∷ r.detectors;
  supervisors = suc (suc r.next_id) ∷ r.supervisors;
}

unfoldable pub start_reorg_watcher : Tasks → Tasks
start_reorg_watcher s = record s {
  runtime = spawn_watcher (abort_supervisor s.reorg_watcher s.runtime);
  reorg_watcher = some (suc (suc s.runtime.next_id));
}

unfoldable pub stop_reorg_watcher : Tasks → Tasks
stop_reorg_watcher s = record s {
  runtime = abort_supervisor s.reorg_watcher s.runtime;
  reorg_watcher = none;
}

abbrev pub spawn_sweeper : Runtime → Runtime
spawn_sweeper r = record r { next_id = suc r.next_id; sweepers = r.next_id ∷ r.sweepers }

unfoldable pub start_recent_solutions_sweeper : Tasks → Tasks
start_recent_solutions_sweeper s = record s {
  runtime = spawn_sweeper (abort_sweeper s.recent_solutions_sweeper s.runtime);
  recent_solutions_sweeper = some s.runtime.next_id;
}

unfoldable pub stop_recent_solutions_sweeper : Tasks → Tasks
stop_recent_solutions_sweeper s = record s {
  runtime = abort_sweeper s.recent_solutions_sweeper s.runtime;
  recent_solutions_sweeper = none;
}

-- `Drop for P2poolV2Engine`
unfoldable pub drop_engine : Tasks → Tasks
drop_engine s = stop_recent_solutions_sweeper (stop_reorg_watcher s)

pub data Call : Type 0 where
  starts_watcher stops_watcher starts_sweeper stops_sweeper drops : Call

unfoldable pub step : Call → Tasks → Tasks
step starts_watcher = start_reorg_watcher
step stops_watcher = stop_reorg_watcher
step starts_sweeper = start_recent_solutions_sweeper
step stops_sweeper = stop_recent_solutions_sweeper
step drops = drop_engine

abbrev pub run : List Call → Tasks → Tasks
run [] s = s
run (call ∷ calls) s = run calls (step call s)
