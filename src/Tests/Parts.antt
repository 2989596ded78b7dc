-- ===== src/Tests/Parts.antt =====
-- The parts below the engine on concrete inputs.
use sv2_p2pool.Prelude.{
  ℕ, ◌+◌, ◌<◌, length, ◌≡◌, ◌↔◌, ◌^◌, refl, bytes_eq, bytes_eqb, nat_eq, Bytes, List, [], ◌∷◌, ◌++◌,
  some, replicate, arith,
}
use sv2_p2pool.Prelude.Flow.{next, panic}
use sv2_p2pool.Bitcoin.{Hash, Bitcoin, Block}
use sv2_p2pool.Coinbase.{
  vec_limit, extend_zeros, extranonce_size, reconstruct_coinbase,
  reconstruct_coinbase_with_extranonce,
}
use sv2_p2pool.Coinbase.Layout.{
  Leaves, reconstruct_coinbase_with_extranonce_iff, reconstruct_coinbase_panics_iff,
}
use sv2_p2pool.Merkle.{compute_merkle_root_from_txids, merkle_path}
use sv2_p2pool.Merkle.Branch.{
  fold_path, fold-merkle_path, IsRoot, compute_merkle_root_from_txids-IsRoot,
}
use sv2_p2pool.Block.{check_bodies, match_bodies, reconstruct_block, build_candidate_block}
use sv2_p2pool.Block.Assembly.{
  IsSolved, reconstruct_block-IsSolved, IsCandidate, build_candidate_block-IsCandidate,
}
use sv2_p2pool.Tests.{toy, hash_of, digest, prefix, suffix, body, solved_block, job, scmj, solution}

abbrev txids : List Hash
txids = hash_of 1 ∷ hash_of 2 ∷ hash_of 3 ∷ hash_of 4 ∷ []

fold-merkle_path_example :
    fold_path toy (hash_of 9) (merkle_path toy (hash_of 9) txids)
    ≡ compute_merkle_root_from_txids toy (hash_of 9) txids
fold-merkle_path_example = fold-merkle_path toy (hash_of 9) txids

compute_merkle_root_from_txids-IsRoot_example :
    IsRoot toy (hash_of 9 ∷ txids) (compute_merkle_root_from_txids toy (hash_of 9) txids)
compute_merkle_root_from_txids-IsRoot_example =
    compute_merkle_root_from_txids-IsRoot toy (hash_of 9) txids

Leaves-two : Leaves toy prefix 2
Leaves-two = record { size = 2; announced = refl; starts = omega arith; ends = refl }

reconstruct_coinbase_with_extranonce_iff_example :
    (reconstruct_coinbase_with_extranonce toy prefix (21 ∷ 22 ∷ []) suffix
      ≡ next ((prefix ++ (21 ∷ 22 ∷ [])) ++ suffix))
    ↔ (Leaves toy prefix 2
        × (some ((prefix ++ (21 ∷ 22 ∷ [])) ++ suffix)
            ≡ some ((prefix ++ (21 ∷ 22 ∷ [])) ++ suffix)))
reconstruct_coinbase_with_extranonce_iff_example =
    reconstruct_coinbase_with_extranonce_iff toy prefix (21 ∷ 22 ∷ []) suffix
      ((prefix ++ (21 ∷ 22 ∷ [])) ++ suffix)

-- A size of 2 ^ 63, in nine bytes.
abbrev huge : Bitcoin
huge = record toy { var_int = λ bytes. some (2 ^ 63); var_int_size = λ size. 9 }

abbrev huge_prefix : Bytes
huge_prefix = replicate 52 1

Leaves-huge : Leaves huge huge_prefix (2 ^ 63)
Leaves-huge = record { size = 2 ^ 63; announced = refl; starts = omega arith; ends = refl }

reconstruct_coinbase_panics_iff_example :
    (reconstruct_coinbase huge huge_prefix suffix ≡ panic)
    ↔ ((n : ℕ) × Leaves huge huge_prefix n × (vec_limit < length huge_prefix + n))
reconstruct_coinbase_panics_iff_example = reconstruct_coinbase_panics_iff huge huge_prefix suffix

huge_panics : reconstruct_coinbase huge huge_prefix suffix ≡ panic
huge_panics =
    (reconstruct_coinbase_panics_iff huge huge_prefix suffix).1 (2 ^ 63, Leaves-huge, omega arith)

reconstruct_block-IsSolved_example : IsSolved toy job solution (body ∷ []) solved_block
unfolding reconstruct_block match_bodies check_bodies reconstruct_coinbase_with_extranonce
    extranonce_size bytes_eqb
reconstruct_block-IsSolved_example =
    reconstruct_block-IsSolved toy job solution (body ∷ []) solved_block refl

abbrev declared_coinbase_tx : Bytes
declared_coinbase_tx = (prefix ++ (0 ∷ 0 ∷ [])) ++ suffix

abbrev candidate : Block toy
candidate = record {
  header = record {
    version = 5;
    prev_blockhash = hash_of 6;
    merkle_root =
        compute_merkle_root_from_txids toy (digest declared_coinbase_tx) (digest body ∷ []);
    time = 3;
    bits = 11;
    nonce = 0;
  };
  txdata = declared_coinbase_tx ∷ body ∷ [];
}

build_candidate_block-IsCandidate_example : IsCandidate toy job scmj (body ∷ []) candidate
unfolding build_candidate_block match_bodies check_bodies reconstruct_coinbase extend_zeros
    extranonce_size bytes_eqb
build_candidate_block-IsCandidate_example =
    build_candidate_block-IsCandidate toy job scmj (body ∷ []) candidate refl
