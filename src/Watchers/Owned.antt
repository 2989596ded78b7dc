-- ===== src/Watchers/Owned.antt =====
-- Which tasks the engine's handles own, and which outlive them.
use sv2_p2pool.Prelude.{
  ℕ, suc, ◌+◌, ◌≡◌, refl, ap, ap₂, ◌∙◌, arith, List, [], ◌∷◌, Option, none, some, length,
}
use sv2_p2pool.Watchers.{
  Runtime, Tasks, no_tasks, without, abort_supervisor, abort_sweeper, start_reorg_watcher,
  stop_reorg_watcher, start_recent_solutions_sweeper, stop_recent_solutions_sweeper, drop_engine,
  Call, starts_watcher, stops_watcher, starts_sweeper, stops_sweeper, drops, step, run,
}

-- The task behind a handle.
abbrev pub owned : Option ℕ → List ℕ
owned none = []
owned (some id) = id ∷ []

-- The sweeper and the supervisor that run are those of the engine's handles.
pub record IsOwned (s : Tasks) : Type 0 where
  pub supervisors_owned : s.runtime.supervisors ≡ owned s.reorg_watcher
  pub sweepers_owned : s.runtime.sweepers ≡ owned s.recent_solutions_sweeper

without_itself : (id : ℕ) → without id (id ∷ []) ≡ []
without_itself id = ground arith

abort_supervisor-owned :
    (handle : Option ℕ) (r : Runtime)
    → r.supervisors ≡ owned handle
    → (abort_supervisor handle r).supervisors ≡ []
abort_supervisor-owned none r e = e
abort_supervisor-owned (some id) r e = rw e (without_itself id)

abort_sweeper-owned :
    (handle : Option ℕ) (r : Runtime)
    → r.sweepers ≡ owned handle
    → (abort_sweeper handle r).sweepers ≡ []
abort_sweeper-owned none r e = e
abort_sweeper-owned (some id) r e = rw e (without_itself id)

-- An abort touches nothing else.
abort_supervisor_keeps :
    (handle : Option ℕ) (r : Runtime)
    → ((abort_supervisor handle r).sweepers ≡ r.sweepers)
      × ((abort_supervisor handle r).detectors ≡ r.detectors)
      × ((abort_supervisor handle r).next_id ≡ r.next_id)
abort_supervisor_keeps none r = (refl, refl, refl)
abort_supervisor_keeps (some id) r = (refl, refl, refl)

abort_sweeper_keeps :
    (handle : Option ℕ) (r : Runtime)
    → ((abort_sweeper handle r).supervisors ≡ r.supervisors)
      × ((abort_sweeper handle r).detectors ≡ r.detectors)
      × ((abort_sweeper handle r).next_id ≡ r.next_id)
abort_sweeper_keeps none r = (refl, refl, refl)
abort_sweeper_keeps (some id) r = (refl, refl, refl)

start_reorg_watcher-IsOwned : (s : Tasks) → IsOwned s → IsOwned (start_reorg_watcher s)
unfolding start_reorg_watcher
start_reorg_watcher-IsOwned s o = record {
  supervisors_owned =
      ap₂ (λ n xs. suc (suc n) ∷ xs) (abort_supervisor_keeps s.reorg_watcher s.runtime).2
        (abort_supervisor-owned s.reorg_watcher s.runtime o.supervisors_owned);
  sweepers_owned = (abort_supervisor_keeps s.reorg_watcher s.runtime).0 ∙ o.sweepers_owned;
}

stop_reorg_watcher-IsOwned : (s : Tasks) → IsOwned s → IsOwned (stop_reorg_watcher s)
unfolding stop_reorg_watcher
stop_reorg_watcher-IsOwned s o = record {
  supervisors_owned = abort_supervisor-owned s.reorg_watcher s.runtime o.supervisors_owned;
  sweepers_owned = (abort_supervisor_keeps s.reorg_watcher s.runtime).0 ∙ o.sweepers_owned;
}

start_recent_solutions_sweeper-IsOwned :
    (s : Tasks) → IsOwned s → IsOwned (start_recent_solutions_sweeper s)
unfolding start_recent_solutions_sweeper
start_recent_solutions_sweeper-IsOwned s o = record {
  supervisors_owned =
      (abort_sweeper_keeps s.recent_solutions_sweeper s.runtime).0 ∙ o.supervisors_owned;
  sweepers_owned =
      ap₂ (λ n xs. n ∷ xs) (abort_sweeper_keeps s.recent_solutions_sweeper s.runtime).2
        (abort_sweeper-owned s.recent_solutions_sweeper s.runtime o.sweepers_owned);
}

stop_recent_solutions_sweeper-IsOwned :
    (s : Tasks) → IsOwned s → IsOwned (stop_recent_solutions_sweeper s)
unfolding stop_recent_solutions_sweeper
stop_recent_solutions_sweeper-IsOwned s o = record {
  supervisors_owned =
      (abort_sweeper_keeps s.recent_solutions_sweeper s.runtime).0 ∙ o.supervisors_owned;
  sweepers_owned = abort_sweeper-owned s.recent_solutions_sweeper s.runtime o.sweepers_owned;
}

step-IsOwned : (call : Call) (s : Tasks) → IsOwned s → IsOwned (step call s)
unfolding step drop_engine
step-IsOwned starts_watcher s o = start_reorg_watcher-IsOwned s o
step-IsOwned stops_watcher s o = stop_reorg_watcher-IsOwned s o
step-IsOwned starts_sweeper s o = start_recent_solutions_sweeper-IsOwned s o
step-IsOwned stops_sweeper s o = stop_recent_solutions_sweeper-IsOwned s o
step-IsOwned drops s o =
    stop_recent_solutions_sweeper-IsOwned (stop_reorg_watcher s) (stop_reorg_watcher-IsOwned s o)

run_keeps_IsOwned : (calls : List Call) (s : Tasks) → IsOwned s → IsOwned (run calls s)
run_keeps_IsOwned [] s o = o
run_keeps_IsOwned (call ∷ calls) s o = run_keeps_IsOwned calls (step call s) (step-IsOwned call s o)

-- After any starts, stops and drops, the sweeper and the supervisor that run are exactly those of
-- the engine's handles: at most one of each, and none once it was stopped or the engine dropped.
pub run-IsOwned : (calls : List Call) → IsOwned (run calls no_tasks)
run-IsOwned calls =
    run_keeps_IsOwned calls no_tasks (record { supervisors_owned = refl; sweepers_owned = refl })

-- How often a watcher was started.
abbrev pub starts : List Call → ℕ
starts [] = 0
starts (starts_watcher ∷ calls) = suc (starts calls)
starts (stops_watcher ∷ calls) = starts calls
starts (starts_sweeper ∷ calls) = starts calls
starts (stops_sweeper ∷ calls) = starts calls
starts (drops ∷ calls) = starts calls

-- A started detector runs for ever: there are as many as starts, whatever was stopped, replaced or
-- dropped meanwhile.
pub run-starts :
    (calls : List Call) (s : Tasks)
    → length (run calls s).runtime.detectors ≡ starts calls + length s.runtime.detectors
unfolding step drop_engine start_reorg_watcher stop_reorg_watcher start_recent_solutions_sweeper
    stop_recent_solutions_sweeper
run-starts [] s = omega arith
run-starts (starts_watcher ∷ calls) s = omega (
  arith,
  run-starts calls (step starts_watcher s),
  ap length (abort_supervisor_keeps s.reorg_watcher s.runtime).1,
)
run-starts (stops_watcher ∷ calls) s =
    run-starts calls (step stops_watcher s)
    ∙ ap (λ xs. starts calls + length xs) (abort_supervisor_keeps s.reorg_watcher s.runtime).1
run-starts (starts_sweeper ∷ calls) s =
    run-starts calls (step starts_sweeper s)
    ∙ ap (λ xs. starts calls + length xs)
        (abort_sweeper_keeps s.recent_solutions_sweeper s.runtime).1
run-starts (stops_sweeper ∷ calls) s =
    run-starts calls (step stops_sweeper s)
    ∙ ap (λ xs. starts calls + length xs)
        (abort_sweeper_keeps s.recent_solutions_sweeper s.runtime).1
run-starts (drops ∷ calls) s =
    run-starts calls (step drops s)
    ∙ ap (λ xs. starts calls + length xs)
        ((abort_sweeper_keeps (stop_reorg_watcher s).recent_solutions_sweeper
            (stop_reorg_watcher s).runtime).1
          ∙ (abort_supervisor_keeps s.reorg_watcher s.runtime).1)
