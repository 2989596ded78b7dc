-- ===== src/Engine/Reorg.antt =====
-- `notify_share_chain_reorg` of crates/sv2-p2pool-engine/src/engine_impl.rs, and the background tasks
-- of lib.rs: `reorg_invalidator_loop` and the sweeper.
pub mod Ancestry
pub mod Survivors
use sv2_p2pool.Prelude.{
  ℕ, zero, suc, ◌+◌, Bool, true, false, ◌||◌, ◌==◌, bytes_eq, if◌then◌else◌, List, [], ◌∷◌, Option,
  none, some, length,
}
use sv2_p2pool.Bitcoin.{Hash, Bitcoin}
use sv2_p2pool.Jobs.{DeclaredJob, DeclaredJobCache, invalidate_all, retain}
use sv2_p2pool.RecentSolutions
use sv2_p2pool.Metrics.{EngineMetrics}
use sv2_p2pool.Engine.{
  Engine, World, ShareHeaderLookup, found, not_found, genesis, header_walk, bump,
}

abbrev pub reorg_ancestry_depth : ℕ
reorg_ancestry_depth = 100

unfoldable pub notified : EngineMetrics → EngineMetrics
notified m = record m { reorg_notifications = suc m.reorg_notifications }

unfoldable pub add_invalidated : ℕ → EngineMetrics → EngineMetrics
add_invalidated n m = record m { jobs_invalidated_total = m.jobs_invalidated_total + n }

-- `ancestors.contains(tip)`
unfoldable pub contains : Hash → List Hash → Bool
contains tip [] = false
contains tip (x ∷ xs) = x == tip || contains tip xs

-- What both invalidations do to the engine: the cache that is left, and the count.
abbrev pub keep_jobs : DeclaredJobCache × ℕ → Engine → Engine
keep_jobs (cache, dropped) s = bump (add_invalidated dropped) (record s { declared_jobs = cache })

unfoldable pub flush : Engine → Engine
unfolding invalidate_all
flush s = keep_jobs (invalidate_all s.declared_jobs) s

-- A job survives if the tip that it captured is among the ancestors.
abbrev pub survives : List Hash → DeclaredJob → Bool
survives ancestors job = elim job.share_chain_tip [
  | none ↦ false
  | some tip ↦ contains tip ancestors
]

module _ (b : Bitcoin) where
  -- The loop, over the hops that are left: `none` where a header is missing or cannot be read.
  unfoldable pub walk : World b → ℕ → Hash → List Hash → Option (List Hash)
  walk w zero cursor ancestors = some ancestors
  walk w (suc hops) cursor ancestors = elim (w.share_header cursor) [
    | none ↦ none
    | some lookup ↦ elim lookup [
      | found header ↦ elim header [
        | none ↦ some ancestors
        | some prev ↦ walk w hops prev (prev ∷ ancestors)
      ]
      | genesis ↦ some ancestors
      | not_found ↦ none
    ]
  ]

  -- After the walk, in the engine as it is then.
  unfoldable pub invalidate : Option (List Hash) → Engine → Engine
  unfolding flush
  invalidate none s = flush s
  invalidate (some ancestors) s = keep_jobs (retain (survives ancestors) s.declared_jobs) s

  unfoldable pub notify_share_chain_reorg : World b → Hash → Engine → Engine
  unfolding invalidate walk
  notify_share_chain_reorg w new_tip s =
      let s₁ = bump notified s in
      if s₁.handles
      then invalidate (walk w reorg_ancestry_depth new_tip (new_tip ∷ []))
          (w.meanwhile header_walk s₁)
      else flush s₁

-- `broadcast::Receiver::recv`
pub data Received : Type 0 where
  tip : Hash → Received
  lagged : ℕ → Received
  closed : Received

-- One round of `reorg_invalidator_loop`, and whether the loop goes on.
unfoldable pub invalidator_round : Received → Engine → Engine × Bool
unfolding flush
invalidator_round (tip new_tip) s = (bump notified (flush s), true)
invalidator_round (lagged missed) s = (bump notified (flush s), true)
invalidator_round closed s = (s, false)

-- One tick of the sweeper, at a moment and at a Unix time in seconds.
unfoldable pub sweeper_tick : ℕ → ℕ → Engine → Engine
sweeper_tick now unix_seconds s =
    let buf = RecentSolutions.sweep s.recent_solutions now in
    bump
      (λ m. record m {
        declared_jobs_cache_size = length s.declared_jobs;
        recent_solutions_buffer_size = RecentSolutions.len buf;
        sweeper_last_run_timestamp_seconds = unix_seconds;
      })
      (record s { recent_solutions = buf })
