-- ===== src/Tests/Calls.antt =====
-- The cache, the buffers, the detector and the Template Provider's handle on concrete inputs.
use sv2_p2pool.Prelude.{ℕ, ◌≡◌, bytes_eq, nat_eq, List, [], ◌∷◌, none, arith}
use sv2_p2pool.RecentSolutions
use sv2_p2pool.RecentSolutions.{RecentSolutions, claim, take, recorded}
use sv2_p2pool.RecentSolutions.Credit
use sv2_p2pool.RecentSolutions.Credit.{Call, records, takes, sweeps, credit, take-run, take-take}
use sv2_p2pool.Tests.{hash_of}

abbrev history : List (ℕ × Call)
history =
    (10, records (hash_of 1) (hash_of 50))
    ∷ (12, records (hash_of 2) (hash_of 51))
    ∷ (20, sweeps)
    ∷ (25, records (hash_of 1) (hash_of 52))
    ∷ (26, takes (hash_of 2))
    ∷ []

take-run_example :
    (take (Credit.run (RecentSolutions.new 30) history) 50 (hash_of 1)).1
    ≡ claim 30 50 (credit (hash_of 1) none history)
take-run_example =
    take-run 30 50 (hash_of 1) history
      (omega arith, (omega arith, (omega arith, (omega arith, (omega arith, omega arith)))))
