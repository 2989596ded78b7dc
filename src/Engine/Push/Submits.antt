-- ===== src/Engine/Push/Submits.antt =====
-- The block that `handle_push_solution` submits.
use sv2_p2pool.Prelude.{
  ℕ, ◌≡◌, refl, sym, subst, ◌∙◌, ap, List, Option, none, some, nat_eq, bytes_eq, arith, Bool-cases,
  inl, inr,
}
use sv2_p2pool.Prelude.Assoc
use sv2_p2pool.Prelude.Assoc.{get-insert_self}
use sv2_p2pool.Prelude.Flow.{Flow, next, exit, panic}
use sv2_p2pool.Bitcoin.{Hash, to_hash, to_hash-eq-some, Bitcoin, Block}
use sv2_p2pool.Messages.{PushSolution}
use sv2_p2pool.Jobs.{DeclaredJob, find_by_solution}
use sv2_p2pool.RecentSolutions.{recorded}
use sv2_p2pool.Block.{BlockReconstructError, reconstruct_block}
use sv2_p2pool.Block.Assembly.{IsSolved, reconstruct_block-IsSolved}
use sv2_p2pool.Tdp.{TdpHandle}
use sv2_p2pool.Engine.{Engine, World, cache_look, bodies_fetch, bump}
use sv2_p2pool.Engine.Push.{
  received, synthetic_share_hash, credit_and_submit, rebuild, fetched, fetch_bodies, looked_up,
  find_job, pushed, push_with, handle_push_solution,
}

module _ (b : Bitcoin) (w : World b) (solution : PushSolution) (block : Block b) where
  -- The buffer of recent solutions holds the block's hash for the solution's share.
  abbrev pub IsCredited : Engine → Type 0
  IsCredited after =
      Assoc.get (synthetic_share_hash b solution) after.recent_solutions.inner
      ≡ some (record { recorded_at = w.now; block_hash = b.block_hash block.header })

  -- A job whose transactions were fetched makes the block, and the block was credited.
  pub record IsMade (declared : DeclaredJob) (after : Engine) : Type 0 where
    pub template_id : ℕ
    pub captured : declared.template_id ≡ some template_id
    pub tx_bodies : List b.Transaction
    pub returned : w.tx_bodies template_id ≡ some tx_bodies
    pub solved : IsSolved b declared solution tx_bodies block
    pub credited : IsCredited after

  credit_and_submit-submits :
      (found : Block b) (s : Engine)
      → (credit_and_submit b w (synthetic_share_hash b solution) found s).submits ≡ some block
      → (found ≡ block)
        × IsCredited (credit_and_submit b w (synthetic_share_hash b solution) found s).engine
  unfolding credit_and_submit recorded
  credit_and_submit-submits found s h = elim (Bool-cases s.handles) [
    | inl wired ↦
        let same : found ≡ block = ground (arith, wired, h) in
        (same, rw (wired, ← same) (get-insert_self (synthetic_share_hash b solution) _ _))
    | inr unwired ↦ absurd (ground (arith, unwired, h))
  ]

  rebuild-submits :
      (declared : DeclaredJob) (tx_bodies : List b.Transaction) (s : Engine)
      → (rebuild b w solution declared tx_bodies s).submits ≡ some block
      → IsSolved b declared solution tx_bodies block
        × IsCredited (rebuild b w solution declared tx_bodies s).engine
  unfolding rebuild
  rebuild-submits declared tx_bodies s h = go (reconstruct_block b declared solution tx_bodies) refl
    where
      go :
          (r : Flow BlockReconstructError (Block b))
          → reconstruct_block b declared solution tx_bodies ≡ r
          → IsSolved b declared solution tx_bodies block
            × IsCredited (rebuild b w solution declared tx_bodies s).engine
      go panic e = absurd (ground (arith, e, h))
      go (exit x) e = absurd (ground (arith, e, h))
      go (next found) e =
          let (same, credited) = credit_and_submit-submits found s (ground (arith, e, h)) in
          (
            reconstruct_block-IsSolved b declared solution tx_bodies block (rw (← same) e),
            rw (e, rebuild) credited,
          )

  fetch_bodies-submits :
      (declared : DeclaredJob) (template_id : Option ℕ) (s : Engine)
      → declared.template_id ≡ template_id
      → (fetch_bodies b w solution declared s template_id).submits ≡ some block
      → IsMade declared (fetch_bodies b w solution declared s template_id).engine
  unfolding fetched
  fetch_bodies-submits declared none s e h = absurd (ground arith)
  fetch_bodies-submits declared (some template_id) s captured h = go (w.tx_bodies template_id) refl
    where
      go :
          (o : Option (List b.Transaction))
          → w.tx_bodies template_id ≡ o
          → IsMade declared (fetched b w solution declared template_id s).engine
      go none e = absurd (ground (arith, e, h))
      go (some tx_bodies) e =
          let (solved, credited) =
            rebuild-submits declared tx_bodies (w.meanwhile bodies_fetch s)
              (ground (arith, e, h)) in
          record {
            template_id = template_id;
            captured = captured;
            tx_bodies = tx_bodies;
            returned = e;
            solved = solved;
            credited = rw (e, fetched) credited;
          }

  -- The block comes from a job that is in the cache at the second look, under the id that the
  -- first look found for the solution's previous hash, nbits and version.
  pub record IsFound (s after : Engine) : Type 0 where
    pub request_id : ℕ
    pub found :
        find_by_solution solution.prev_hash solution.nbits solution.version s.declared_jobs
        ≡ some request_id
    pub declared : DeclaredJob
    pub cached : Assoc.get request_id (w.meanwhile cache_look s).declared_jobs ≡ some declared
    pub made : IsMade declared after

  looked_up-submits :
      (request_id : ℕ) (s : Engine)
      → (looked_up b w solution request_id s).submits ≡ some block
      → (declared : DeclaredJob) × (Assoc.get request_id s.declared_jobs ≡ some declared)
        × IsMade declared (looked_up b w solution request_id s).engine
  unfolding looked_up
  looked_up-submits request_id s h = go (Assoc.get request_id s.declared_jobs) refl
    where
      go :
          (o : Option DeclaredJob)
          → Assoc.get request_id s.declared_jobs ≡ o
          → (declared : DeclaredJob) × (Assoc.get request_id s.declared_jobs ≡ some declared)
            × IsMade declared (looked_up b w solution request_id s).engine
      go none e = absurd (ground (arith, e, h))
      go (some declared) e = (
        declared,
        e,
        rw (e, looked_up)
            (fetch_bodies-submits declared declared.template_id s refl (ground (arith, e, h))),
      )

  find_job-submits :
      (s : Engine)
      → (find_job b w solution solution.prev_hash s).submits ≡ some block
      → IsFound s (find_job b w solution solution.prev_hash s).engine
  unfolding find_job
  find_job-submits s h =
      go (find_by_solution solution.prev_hash solution.nbits solution.version s.declared_jobs) refl
    where
      go :
          (o : Option ℕ)
          → find_by_solution solution.prev_hash solution.nbits solution.version s.declared_jobs ≡ o
          → IsFound s (find_job b w solution solution.prev_hash s).engine
      go none e = absurd (ground (arith, e, h))
      go (some request_id) e =
          let (declared, cached, made) =
            looked_up-submits request_id (w.meanwhile cache_look s) (ground (arith, e, h)) in
          record {
            request_id = request_id;
            found = e;
            declared = declared;
            cached = cached;
            made = rw (e, find_job) made;
          }

  push_with-submits :
      (o : Option TdpHandle) (s : Engine)
      → (push_with b w solution s o).submits ≡ some block
      → IsFound s (push_with b w solution s o).engine
  push_with-submits none s h = absurd (ground arith)
  push_with-submits (some tdp) s h = go (to_hash solution.prev_hash) refl
    where
      go :
          (o : Option Hash)
          → to_hash solution.prev_hash ≡ o
          → IsFound s (pushed b w solution s (to_hash solution.prev_hash)).engine
      go none e = absurd (ground (arith, e, h))
      go (some hash) e =
          let same : solution.prev_hash ≡ hash = to_hash-eq-some solution.prev_hash hash e in
          let there : to_hash solution.prev_hash ≡ some solution.prev_hash =
            e ∙ ap some (sym same) in
          rw there (
            find_job-submits s
              (subst (λ o. (pushed b w solution s o).submits ≡ some block) there h))

  -- A block that is submitted is solved by the solution for a declared job: the job cached under
  -- the id that was found for the solution's previous hash, nbits and version, with exactly the
  -- declared transactions, fetched from the Template Provider; and by the time of the submission
  -- the buffer of recent solutions holds the block's hash for the solution's share.
  pub push-IsFound :
      (s : Engine)
      → (handle_push_solution b w solution s).submits ≡ some block
      → IsFound (bump received s) (handle_push_solution b w solution s).engine
  unfolding handle_push_solution
  push-IsFound s h = push_with-submits s.tdp (bump received s) h
