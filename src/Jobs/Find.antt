-- ===== src/Jobs/Find.antt =====
-- `find_by_solution` and `retain` against the entries of the cache.
use sv2_p2pool.Prelude.{
  ℕ, ◌≡◌, inl, inr, true, false, [], ◌∷◌, none, some, arith, nat_eq, nat_eqb_iff, Bool-cases,
}
use sv2_p2pool.Prelude.Assoc
use sv2_p2pool.Prelude.Assoc.{IsMap}
use sv2_p2pool.Bitcoin.{Hash}
use sv2_p2pool.Jobs.{DeclaredJob, DeclaredJobCache, solves, find_by_solution}

module _ (prev_hash : Hash) (nbits version : ℕ) where
  -- In a cache with unique ids, a hit is an entry of the cache whose previous hash, nbits and
  -- version are those asked for.
  pub find_by_solution-get :
      (cache : DeclaredJobCache) (rid : ℕ)
      → IsMap cache
      → find_by_solution prev_hash nbits version cache ≡ some rid
      → (job : DeclaredJob) × (Assoc.get rid cache ≡ some job)
        × (solves prev_hash nbits version job ≡ true)
  unfolding find_by_solution Assoc.get
  find_by_solution-get [] rid m h = cc
  find_by_solution-get ((key, job) ∷ rest) rid m h =
      elim (Bool-cases (solves prev_hash nbits version job)) [
        | inl hit ↦ (job, ground arith, hit)
        | inr miss ↦
            let (found, e, s) = find_by_solution-get rest rid m.1 (ground arith) in
            (found, ground (arith, nat_eqb_iff key rid), s)
      ]

  -- After a miss no entry of the cache has the previous hash, nbits and version asked for.
  pub find_by_solution-none :
      (cache : DeclaredJobCache) (rid : ℕ) (job : DeclaredJob)
      → find_by_solution prev_hash nbits version cache ≡ none
      → Assoc.get rid cache ≡ some job
      → solves prev_hash nbits version job ≡ false
  unfolding find_by_solution Assoc.get
  find_by_solution-none [] rid job h g = cc
  find_by_solution-none ((key, found) ∷ rest) rid job h g =
      ground (arith, find_by_solution-none rest rid job)
