-- ===== src/Engine/Invariant/Tasks.antt =====
-- `handle_push_solution` and the tasks that only drop or count keep the invariant.
use sv2_p2pool.Prelude.{
  ℕ, ◌≡◌, refl, true, false, if◌then◌else◌, List, [], ◌∷◌, Option, none, some, nat_eq,
}
use sv2_p2pool.Prelude.Assoc
use sv2_p2pool.Prelude.Assoc.{IsMap, Values, retain-IsMap, retain-Values, empty-Values}
use sv2_p2pool.Prelude.Flow.{Flow, next, exit, panic}
use sv2_p2pool.Bitcoin.{Hash, to_hash, Bitcoin, Block}
use sv2_p2pool.Messages.{PushSolution}
use sv2_p2pool.Jobs.{DeclaredJob, find_by_solution, invalidate_all, retain}
use sv2_p2pool.Block.{BlockReconstructError, reconstruct_block}
use sv2_p2pool.Tdp.{TdpHandle}
use sv2_p2pool.Engine.{Engine, World, cache_look, bodies_fetch, header_walk, bump}
use sv2_p2pool.Engine.Push.{
  PushOutcome, credit_solution, credit_and_submit, rebuild, fetched, fetch_bodies, looked_up,
  find_job, pushed, submitted, push_with, handle_push_solution, stop,
}
use sv2_p2pool.Engine.Reorg.{
  flush, walk, invalidate, notify_share_chain_reorg, reorg_ancestry_depth, notified, Received, tip,
  lagged, closed, invalidator_round, sweeper_tick,
}
use sv2_p2pool.Engine.Invariant.{IsDeclared, Inv, Relies}
use sv2_p2pool.Engine.Invariant.Kept.{Inv-bump}

module _ (b : Bitcoin) where
  credit_solution-Inv :
      (now : ℕ) (share_hash block_hash : Hash) (s : Engine)
      → Inv b s
      → Inv b (credit_solution now share_hash block_hash s)
  credit_solution-Inv now share_hash block_hash s v = record {
    cache_map = v.cache_map;
    declared = v.declared;
    index_map = v.index_map;
    live = v.live;
  }

  flush-Inv : (s : Engine) → Inv b s → Inv b (flush s)
  unfolding flush invalidate_all
  flush-Inv s v = record {
    cache_map = tt;
    declared = empty-Values (IsDeclared b);
    index_map = v.index_map;
    live = v.live;
  }

  invalidate-Inv : (o : Option (List Hash)) (s : Engine) → Inv b s → Inv b (invalidate b o s)
  unfolding invalidate retain
  invalidate-Inv none s v = flush-Inv s v
  invalidate-Inv (some ancestors) s v = record {
    cache_map = retain-IsMap _ s.declared_jobs v.cache_map;
    declared = retain-Values (IsDeclared b) _ s.declared_jobs v.cache_map v.declared;
    index_map = v.index_map;
    live = v.live;
  }

  -- `reorg_invalidator_loop` keeps the invariant.
  pub invalidator_round-Inv :
      (received : Received) (s : Engine) → Inv b s → Inv b (invalidator_round received s).0
  unfolding invalidator_round
  invalidator_round-Inv (tip new_tip) s v = Inv-bump b notified _ (flush-Inv s v)
  invalidator_round-Inv (lagged missed) s v = Inv-bump b notified _ (flush-Inv s v)
  invalidator_round-Inv closed s v = v

  -- The sweeper keeps the invariant.
  pub sweeper_tick-Inv :
      (now unix_seconds : ℕ) (s : Engine) → Inv b s → Inv b (sweeper_tick now unix_seconds s)
  unfolding sweeper_tick
  sweeper_tick-Inv now unix_seconds s v = record {
    cache_map = v.cache_map;
    declared = v.declared;
    index_map = v.index_map;
    live = v.live;
  }

  module _ (w : World b) (relies : Relies b w) where
    -- `notify_share_chain_reorg` keeps the invariant.
    pub notify-Inv :
        (new_tip : Hash) (s : Engine) → Inv b s → Inv b (notify_share_chain_reorg b w new_tip s)
    unfolding notify_share_chain_reorg
    notify-Inv new_tip s v =
        elim s.handles
          as (λ wired. Inv b (
            if wired
            then invalidate b (walk b w reorg_ancestry_depth new_tip (new_tip ∷ []))
                (w.meanwhile header_walk (bump notified s))
            else flush (bump notified s))) [
              | true ↦ invalidate-Inv _ _ (relies.keeps header_walk _ (Inv-bump b notified s v))
              | false ↦ flush-Inv _ (Inv-bump b notified s v)
            ]

    credit_and_submit-Inv :
        (share_hash : Hash) (block : Block b) (s : Engine)
        → Inv b s
        → Inv b (credit_and_submit b w share_hash block s).engine
    unfolding credit_and_submit
    credit_and_submit-Inv share_hash block s v =
        let credited = credit_solution w.now share_hash (b.block_hash block.header) s in
        let here = credit_solution-Inv w.now share_hash (b.block_hash block.header) s v in
        elim s.handles
          as (λ wired.
            Inv b
              (if◌then◌else◌ {A = PushOutcome b} wired
                (record { engine = bump submitted credited; submits = some block; returned = true })
                (stop b credited)).engine) [
                  | true ↦ Inv-bump b submitted credited here
                  | false ↦ here
                ]

    module _ (solution : PushSolution) where
      rebuild-Inv :
          (declared : DeclaredJob) (tx_bodies : List b.Transaction) (s : Engine)
          → Inv b s
          → Inv b (rebuild b w solution declared tx_bodies s).engine
      unfolding rebuild
      rebuild-Inv declared tx_bodies s v = go (reconstruct_block b declared solution tx_bodies) refl
        where
          go :
              (r : Flow BlockReconstructError (Block b))
              → reconstruct_block b declared solution tx_bodies ≡ r
              → Inv b (rebuild b w solution declared tx_bodies s).engine
          go panic e = rw (e, rebuild) v
          go (exit x) e = rw (e, rebuild) (Inv-bump b _ s v)
          go (next block) e = rw (e, rebuild) (credit_and_submit-Inv _ block s v)

      fetched-Inv :
          (declared : DeclaredJob) (template_id : ℕ) (s : Engine)
          → Inv b s
          → Inv b (fetched b w solution declared template_id s).engine
      unfolding fetched
      fetched-Inv declared template_id s v = go (w.tx_bodies template_id) refl
        where
          go :
              (o : Option (List b.Transaction))
              → w.tx_bodies template_id ≡ o
              → Inv b (fetched b w solution declared template_id s).engine
          go none e = rw (e, fetched) (Inv-bump b _ _ (relies.keeps bodies_fetch s v))
          go (some tx_bodies) e =
              rw (e, fetched) (rebuild-Inv declared tx_bodies _ (relies.keeps bodies_fetch s v))

      fetch_bodies-Inv :
          (declared : DeclaredJob) (o : Option ℕ) (s : Engine)
          → Inv b s
          → Inv b (fetch_bodies b w solution declared s o).engine
      fetch_bodies-Inv declared none s v = Inv-bump b _ _ (credit_solution-Inv _ _ _ s v)
      fetch_bodies-Inv declared (some template_id) s v = fetched-Inv declared template_id s v

      looked_up-Inv :
          (request_id : ℕ) (s : Engine)
          → Inv b s
          → Inv b (looked_up b w solution request_id s).engine
      unfolding looked_up
      looked_up-Inv request_id s v = go (Assoc.get request_id s.declared_jobs) refl
        where
          go :
              (o : Option DeclaredJob)
              → Assoc.get request_id s.declared_jobs ≡ o
              → Inv b (looked_up b w solution request_id s).engine
          go none e = rw (e, looked_up) (Inv-bump b _ s v)
          go (some declared) e =
              rw (e, looked_up) (fetch_bodies-Inv declared declared.template_id s v)

      find_job-Inv :
          (push_prev_hash : Hash) (s : Engine)
          → Inv b s
          → Inv b (find_job b w solution push_prev_hash s).engine
      unfolding find_job
      find_job-Inv push_prev_hash s v =
          go (find_by_solution push_prev_hash solution.nbits solution.version s.declared_jobs) refl
        where
          go :
              (o : Option ℕ)
              → find_by_solution push_prev_hash solution.nbits solution.version s.declared_jobs ≡ o
              → Inv b (find_job b w solution push_prev_hash s).engine
          go none e = rw (e, find_job) (Inv-bump b _ s v)
          go (some request_id) e =
              rw (e, find_job) (looked_up-Inv request_id _ (relies.keeps cache_look s v))

      pushed-Inv : (o : Option Hash) (s : Engine) → Inv b s → Inv b (pushed b w solution s o).engine
      pushed-Inv none s v = v
      pushed-Inv (some push_prev_hash) s v = find_job-Inv push_prev_hash s v

      push_with-Inv :
          (o : Option TdpHandle) (s : Engine) → Inv b s → Inv b (push_with b w solution s o).engine
      push_with-Inv none s v = Inv-bump b _ _ (credit_solution-Inv _ _ _ s v)
      push_with-Inv (some tdp) s v = pushed-Inv (to_hash solution.prev_hash) s v

      -- `handle_push_solution` keeps the invariant.
      pub push-Inv : (s : Engine) → Inv b s → Inv b (handle_push_solution b w solution s).engine
      unfolding handle_push_solution
      push-Inv s v = push_with-Inv s.tdp _ (Inv-bump b _ s v)
