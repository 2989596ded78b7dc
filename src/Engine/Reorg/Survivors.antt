-- ===== src/Engine/Reorg/Survivors.antt =====
-- Which cached jobs survive a reorg.
use sv2_p2pool.Prelude.{
  ℕ, ◌≡◌, ◌↔◌, ◌⊎◌, inl, inr, true, false, bytes_eq, List, [], ◌∷◌, none, some, arith, nat_eq,
  Bool-cases, Option-cases, ◌∙◌, sym,
}
use sv2_p2pool.Prelude.Assoc
use sv2_p2pool.Prelude.Assoc.{IsMap, kept, kept_iff, get-retain}
use sv2_p2pool.Bitcoin.{Hash, Bitcoin}
use sv2_p2pool.Jobs.{DeclaredJob, retain}
use sv2_p2pool.Engine.{Engine, World, header_walk, bump}
use sv2_p2pool.Engine.Reorg.{
  survives, walk, notified, notify_share_chain_reorg, reorg_ancestry_depth,
}
use sv2_p2pool.Engine.Reorg.Ancestry.{IsAncestor, walk_iff}

-- The test on a job, against the relation.
survives_iff :
    {b : Bitcoin} (w : World b) (hops : ℕ) (new_tip : Hash) (ancestors : List Hash)
    (job : DeclaredJob)
    → walk b w hops new_tip (new_tip ∷ []) ≡ some ancestors
    → (survives ancestors job ≡ true)
      ↔ ((tip : Hash) × (job.share_chain_tip ≡ some tip) × IsAncestor w hops new_tip tip)
survives_iff w hops new_tip ancestors job e = (forth (Option-cases job.share_chain_tip), back)
  where
    forth :
        (job.share_chain_tip ≡ none) ⊎ ((tip : Hash) × (job.share_chain_tip ≡ some tip))
        → survives ancestors job ≡ true
        → (tip : Hash) × (job.share_chain_tip ≡ some tip) × IsAncestor w hops new_tip tip
    forth (inl missing) h = absurd (ground arith)
    forth (inr (tip, captured)) h =
        (tip, captured, (walk_iff w hops new_tip tip ancestors e).0 (ground arith))

    back :
        ((tip : Hash) × (job.share_chain_tip ≡ some tip) × IsAncestor w hops new_tip tip)
        → survives ancestors job ≡ true
    back (tip, captured, above) = ground (arith, (walk_iff w hops new_tip tip ancestors e).1 above)

module _ {b : Bitcoin} (w : World b) (new_tip : Hash) (s : Engine) where
  -- The engine at the time of the invalidation: others ran during the walk.
  abbrev pub walked : Engine
  walked = w.meanwhile header_walk (bump notified s)

  -- With the chain wired and every header on the way readable, a reorg keeps exactly those jobs of
  -- a cache with unique ids whose captured share-chain tip is the new tip or one of its ancestors
  -- within 100 hops, and keeps them unchanged.
  pub notify_survivors :
      (ancestors : List Hash) (request_id : ℕ) (job : DeclaredJob)
      → s.handles ≡ true
      → walk b w reorg_ancestry_depth new_tip (new_tip ∷ []) ≡ some ancestors
      → IsMap walked.declared_jobs
      → (Assoc.get request_id (notify_share_chain_reorg b w new_tip s).declared_jobs ≡ some job) ↔ (
          (Assoc.get request_id walked.declared_jobs ≡ some job)
          × ((tip : Hash) × (job.share_chain_tip ≡ some tip)
              × IsAncestor w reorg_ancestry_depth new_tip tip))
  notify_survivors ancestors request_id job wired e m = (forth, back)
    where
      cache :
          (notify_share_chain_reorg b w new_tip s).declared_jobs
          ≡ Assoc.retain (λ _ j. survives ancestors j) walked.declared_jobs
      cache = unfold notify_share_chain_reorg retain in rw (wired, e)

      looked :
          Assoc.get request_id (notify_share_chain_reorg b w new_tip s).declared_jobs
          ≡ kept (survives ancestors) (Assoc.get request_id walked.declared_jobs)
      looked = rw cache (get-retain (λ _ j. survives ancestors j) request_id walked.declared_jobs m)

      forth :
          Assoc.get request_id (notify_share_chain_reorg b w new_tip s).declared_jobs ≡ some job
          → (Assoc.get request_id walked.declared_jobs ≡ some job)
            × ((tip : Hash) × (job.share_chain_tip ≡ some tip)
                × IsAncestor w reorg_ancestry_depth new_tip tip)
      forth h =
          let (was, alive) = (kept_iff (survives ancestors) _ job).0 (sym looked ∙ h) in
          (was, (survives_iff w reorg_ancestry_depth new_tip ancestors job e).0 alive)

      back :
          (Assoc.get request_id walked.declared_jobs ≡ some job)
            × ((tip : Hash) × (job.share_chain_tip ≡ some tip)
                × IsAncestor w reorg_ancestry_depth new_tip tip)
          → Assoc.get request_id (notify_share_chain_reorg b w new_tip s).declared_jobs ≡ some job
      back (was, above) =
          looked
          ∙ (kept_iff (survives ancestors) _ job).1
              (was, (survives_iff w reorg_ancestry_depth new_tip ancestors job e).1 above)

  -- Without the chain, or where a header on the way is missing or cannot be read, a reorg leaves
  -- no cached job.
  pub notify_flushes :
      (s.handles ≡ false) ⊎ (walk b w reorg_ancestry_depth new_tip (new_tip ∷ []) ≡ none)
      → (notify_share_chain_reorg b w new_tip s).declared_jobs ≡ []
  notify_flushes (inl unwired) = unfold notify_share_chain_reorg in rw unwired
  notify_flushes (inr failed) = elim (Bool-cases s.handles) [
    | inl wired ↦ unfold notify_share_chain_reorg in rw (wired, failed)
    | inr unwired ↦ unfold notify_share_chain_reorg in rw unwired
  ]
