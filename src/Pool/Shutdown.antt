-- ===== src/Pool/Shutdown.antt =====
-- The end of `Pool::start` and `Pool::shutdown` of pool.rs: who holds the share-chain store, and
-- what waits for it to be released.
use sv2_p2pool.Prelude.{
  ℕ, ◌≡◌, refl, ◌∙◌, ◌↔◌, ◌≢◌, ◌⊎◌, inl, inr, arith, Bool, true, false, ◌||◌, not, List, [], ◌∷◌,
  length, if◌then◌else◌,
}
use sv2_p2pool.Watchers.{
  Tasks, no_tasks, start_reorg_watcher, start_recent_solutions_sweeper, drop_engine, starts_watcher,
  starts_sweeper, drops, step,
}
use sv2_p2pool.Watchers.Owned.{run-starts}

-- The share-chain backend, if there is one.
pub data Backend : Type 0 where
  no_share_chain ipc in_process : Backend

-- What keeps a chain store, and with it the channel to the `StoreWriter`: the pool's
-- `ShareChainHandles`, the engine, the publisher's closure, and each detector's `tip_source`.
pub record Holders : Type 0 where
  pub backend : Backend
  pub share_chain_handles : Bool
  pub engine : Bool
  pub tip_height_publisher : Bool
  pub tasks : Tasks

abbrev pub any_task : List ℕ → Bool
any_task [] = false
any_task (id ∷ ids) = true

unfoldable pub store_is_held : Holders → Bool
store_is_held h =
    h.share_chain_handles
    || (h.engine || (h.tip_height_publisher || any_task h.tasks.runtime.detectors))

abbrev pub has_backend : Backend → Bool
has_backend no_share_chain = false
has_backend ipc = true
has_backend in_process = true

-- The tasks of an engine with a reorg watcher, where there is a backend to watch.
abbrev pub watched : Backend → Tasks
watched no_share_chain = no_tasks
watched ipc = start_reorg_watcher no_tasks
watched in_process = start_reorg_watcher no_tasks

-- A pool that waits for its shutdown signal.
unfoldable pub started : Backend → (has_metrics : Bool) → Holders
started backend has_metrics = record {
  backend = backend;
  share_chain_handles = has_backend backend;
  engine = true;
  tip_height_publisher = if has_backend backend then has_metrics else false;
  tasks = start_recent_solutions_sweeper (watched backend);
}

-- The publisher is aborted, and the handles are dropped last. The other owners of the engine are
-- libraries' objects: whether they have dropped it by then is `engine_is_dropped`.
unfoldable pub released : (engine_is_dropped : Bool) → Holders → Holders
released engine_is_dropped h = record h {
  share_chain_handles = false;
  tip_height_publisher = false;
  engine = not engine_is_dropped;
  tasks = if engine_is_dropped then drop_engine h.tasks else h.tasks;
}

-- Whether the wait for the `StoreWriter` ends, if there is one: it exits when nobody holds a store.
abbrev pub writer_joins : Backend → Holders → Bool
writer_joins no_share_chain h = true
writer_joins ipc h = true
writer_joins in_process h = not (store_is_held h)

-- Whether `Pool::start`, told to shut down, comes to `notify_waiters`; the libraries' tasks end.
unfoldable pub start_ends : (engine_is_dropped : Bool) → Holders → Bool
start_ends engine_is_dropped h = writer_joins h.backend (released engine_is_dropped h)

-- Whether `Pool::shutdown` returns, called while `start` waits for the shutdown signal.
unfoldable pub shutdown_returns : (is_alive : Bool) → (engine_is_dropped : Bool) → Holders → Bool
shutdown_returns false engine_is_dropped h = true
shutdown_returns true engine_is_dropped h = start_ends engine_is_dropped h

-- A detector outlives the engine.
one_detector : (ids : List ℕ) → length ids ≡ 1 → any_task ids ≡ true
one_detector [] h = absurd (omega (arith, h))
one_detector (id ∷ ids) h = refl

dropped_watches :
    any_task
      (drop_engine
        (start_recent_solutions_sweeper (start_reorg_watcher no_tasks))).runtime.detectors
    ≡ true
unfolding step
dropped_watches =
    one_detector _
      (run-starts (starts_watcher ∷ starts_sweeper ∷ drops ∷ []) no_tasks ∙ omega arith)

start_ends_iff :
    (backend : Backend) (has_metrics engine_is_dropped : Bool)
    → (start_ends engine_is_dropped (started backend has_metrics) ≡ true) ↔ (backend ≢ in_process)
unfolding start_ends released started store_is_held
start_ends_iff no_share_chain has_metrics engine_is_dropped = (λ h e. cc, λ h. refl)
start_ends_iff ipc has_metrics engine_is_dropped = (λ h e. cc, λ h. refl)
start_ends_iff in_process has_metrics true =
    rw dropped_watches (λ h. absurd cc, λ h. absurd (h refl))
start_ends_iff in_process has_metrics false = (λ h. absurd cc, λ h. absurd (h refl))

-- `Pool::shutdown` returns exactly when the pool is no longer alive or has no in-process store. With
-- an in-process store it never does, with or without metrics, and whether or not the engine is
-- dropped meanwhile: the detector of the reorg watcher still holds the store, and `start` waits for
-- the `StoreWriter`, which waits for that.
pub shutdown_returns_iff :
    (is_alive : Bool) (backend : Backend) (has_metrics engine_is_dropped : Bool)
    → (shutdown_returns is_alive engine_is_dropped (started backend has_metrics) ≡ true)
      ↔ ((is_alive ≡ false) ⊎ (backend ≢ in_process))
unfolding shutdown_returns
shutdown_returns_iff false backend has_metrics engine_is_dropped = (λ h. inl refl, λ h. refl)
shutdown_returns_iff true backend has_metrics engine_is_dropped = (
  λ h. inr ((start_ends_iff backend has_metrics engine_is_dropped).0 h),
  λ h. elim h [
    | inl dead ↦ absurd cc
    | inr other ↦ (start_ends_iff backend has_metrics engine_is_dropped).1 other
  ],
)
