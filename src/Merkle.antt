-- ===== src/Merkle.antt =====
-- The merkle tree over `[coinbase_txid, ...txid_list]`: `merkle_path` of
-- crates/sv2-p2pool-engine/src/coinbase.rs and `compute_merkle_root_from_txids` of block.rs.
-- Both loops halve a list of hashes; their fuel is its length.
pub mod Levels
pub mod Branch
use sv2_p2pool.Prelude.{
  ℕ, zero, suc, ◌+◌, ◌-◌, ◌*◌, ◌/◌, min, List, [], ◌∷◌, map, length, get_or, range_from, ltb,
  if◌then◌else◌, Bool, true, false,
}
use sv2_p2pool.Bitcoin.{Hash, all_zeros, Bitcoin, node}

module _ (b : Bitcoin) where
  -- The hash pushed for index `idx` of the next level; the last odd element is duplicated.
  unfoldable pub pair_at : List Hash → ℕ → Hash
  pair_at hashes idx =
      node b (get_or hashes (2 * idx) all_zeros)
        (get_or hashes (min (2 * idx + 1) (length hashes - 1)) all_zeros)

  unfoldable pub next_level : List Hash → List Hash
  unfolding pair_at
  next_level hashes = map (pair_at hashes) (range_from 0 ((length hashes + 1) / 2))

  unfoldable pub root_loop : ℕ → List Hash → Hash
  root_loop zero hashes = get_or hashes 0 all_zeros
  root_loop (suc fuel) hashes = elim (ltb 1 (length hashes)) [
    | true ↦ root_loop fuel (next_level hashes)
    | false ↦ get_or hashes 0 all_zeros
  ]

  unfoldable pub compute_merkle_root_from_txids : Hash → List Hash → Hash
  unfolding root_loop
  compute_merkle_root_from_txids coinbase_txid txid_list =
      let hashes = coinbase_txid ∷ txid_list in root_loop (length hashes) hashes

  unfoldable pub branch_loop : ℕ → List Hash → List Hash
  branch_loop zero hashes = []
  branch_loop (suc fuel) hashes = elim (ltb 1 (length hashes)) [
    | true ↦ get_or hashes 1 all_zeros ∷ branch_loop fuel (next_level hashes)
    | false ↦ []
  ]

  unfoldable pub merkle_path : Hash → List Hash → List Hash
  unfolding branch_loop
  merkle_path coinbase_txid txid_list =
      let hashes = coinbase_txid ∷ txid_list in branch_loop (length hashes) hashes
