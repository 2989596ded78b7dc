-- ===== src/Merkle/Branch.antt =====
-- `merkle_path` against the merkle root, and the length of the path.
use sv2_p2pool.Prelude.{
  ℕ, zero, suc, ◌+◌, ◌*◌, ◌^◌, ◌≤◌, ◌<◌, ◌≡◌, refl, ap, ◌∙◌, List, [], ◌∷◌, length, arith,
}
use native.Mathlib.Nat.{pow-suc}
use sv2_p2pool.Bitcoin.{Hash, Bitcoin, node}
use sv2_p2pool.Merkle.{root_loop, branch_loop, compute_merkle_root_from_txids, merkle_path}
use sv2_p2pool.Merkle.Levels.{pair_up, next_level-cons, pair_up-cons, length-pair_up}

module _ (b : Bitcoin) where
  -- A verifier's walk from the coinbase up: the coinbase is always the left child.
  pub fold_path : Hash → List Hash → Hash
  fold_path h [] = h
  fold_path h (sibling ∷ rest) = fold_path (node b h sibling) rest

  module _ (fuel : ℕ) (x y : Hash) (rest : List Hash) where
    root_loop-suc :
        root_loop b (suc fuel) (x ∷ y ∷ rest) ≡ root_loop b fuel (node b x y ∷ pair_up b rest)
    unfolding root_loop
    root_loop-suc = ground (arith, next_level-cons b x y rest)

    branch_loop-suc :
        branch_loop b (suc fuel) (x ∷ y ∷ rest)
        ≡ y ∷ branch_loop b fuel (node b x y ∷ pair_up b rest)
    unfolding branch_loop
    branch_loop-suc = ground (arith, next_level-cons b x y rest)

  root_loop-single : (fuel : ℕ) (x : Hash) → root_loop b (suc fuel) (x ∷ []) ≡ x
  unfolding root_loop
  root_loop-single fuel x = refl

  branch_loop-single : (fuel : ℕ) (x : Hash) → branch_loop b (suc fuel) (x ∷ []) ≡ []
  unfolding branch_loop
  branch_loop-single fuel x = refl

  fold-branch_loop :
      (fuel : ℕ) (x : Hash) (xs : List Hash)
      → length xs < fuel
      → fold_path x (branch_loop b fuel (x ∷ xs)) ≡ root_loop b fuel (x ∷ xs)
  unfolding fold_path
  fold-branch_loop zero x xs h = elim h [ ]
  fold-branch_loop (suc fuel) x [] h = rw (branch_loop-single fuel x, root_loop-single fuel x)
  fold-branch_loop (suc fuel) x (y ∷ rest) h =
      rw (branch_loop-suc fuel x y rest, root_loop-suc fuel x y rest)
        (fold-branch_loop fuel (node b x y) (pair_up b rest) (omega (arith, length-pair_up b rest)))

  -- The path leads from the coinbase to the root: folding the coinbase's txid with the siblings
  -- of `merkle_path` gives the root that the block header is built with.
  pub fold-merkle_path :
      (coinbase_txid : Hash) (txid_list : List Hash)
      → fold_path coinbase_txid (merkle_path b coinbase_txid txid_list)
        ≡ compute_merkle_root_from_txids b coinbase_txid txid_list
  unfolding merkle_path compute_merkle_root_from_txids
  fold-merkle_path c txids = fold-branch_loop (suc (length txids)) c txids (omega arith)

  -- Bitcoin's root, as a relation: levels by pairs down to one hash.
  pub data IsRoot : List Hash → Hash → Type 0 where
    single : (h : Hash) → IsRoot (h ∷ []) h
    level :
        {x y root : Hash} {rest : List Hash}
        → IsRoot (node b x y ∷ pair_up b rest) root
        → IsRoot (x ∷ y ∷ rest) root

  root_loop-IsRoot :
      (fuel : ℕ) (x : Hash) (xs : List Hash)
      → length xs < fuel
      → IsRoot (x ∷ xs) (root_loop b fuel (x ∷ xs))
  root_loop-IsRoot zero x xs h = elim h [ ]
  root_loop-IsRoot (suc fuel) x [] h = rw (root_loop-single fuel x) (single x)
  root_loop-IsRoot (suc fuel) x (y ∷ rest) h = rw (root_loop-suc fuel x y rest) (
      level (
        root_loop-IsRoot fuel (node b x y) (pair_up b rest) (omega (arith, length-pair_up b rest))))

  -- For every coinbase txid and txid list the loop's result is the merkle root by Bitcoin's rule:
  -- levels of hashes paired in order, a last odd hash with itself, down to one hash.
  pub compute_merkle_root_from_txids-IsRoot :
      (coinbase_txid : Hash) (txid_list : List Hash)
      → IsRoot
          (coinbase_txid ∷ txid_list)
          (compute_merkle_root_from_txids b coinbase_txid txid_list)
  unfolding compute_merkle_root_from_txids
  compute_merkle_root_from_txids-IsRoot c txids =
      root_loop-IsRoot (suc (length txids)) c txids (omega arith)

  branch_loop_covers :
      (fuel : ℕ) (x : Hash) (xs : List Hash)
      → length xs < fuel
      → length (x ∷ xs) ≤ 2 ^ length (branch_loop b fuel (x ∷ xs))
  branch_loop_covers zero x xs h = elim h [ ]
  branch_loop_covers (suc fuel) x [] h = rw (branch_loop-single fuel x) (omega arith)
  branch_loop_covers (suc fuel) x (y ∷ rest) h =
      let half = length-pair_up b rest in
      let ih = branch_loop_covers fuel (node b x y) (pair_up b rest) (omega (arith, half)) in
      rw (branch_loop-suc fuel x y rest, pow-suc) (omega (arith, half, ih))

  branch_loop-pair : (fuel : ℕ) (x y : Hash) → branch_loop b (suc (suc fuel)) (x ∷ y ∷ []) ≡ y ∷ []
  unfolding pair_up
  branch_loop-pair fuel x y =
      branch_loop-suc (suc fuel) x y [] ∙ ap (◌∷◌ y) (branch_loop-single fuel (node b x y))

  branch_loop_tight :
      (fuel : ℕ) (x y : Hash) (rest : List Hash)
      → suc (length rest) < fuel
      → 2 ^ length (branch_loop b fuel (x ∷ y ∷ rest)) ≤ 2 * suc (length rest)
  branch_loop_tight zero x y rest h = elim h [ ]
  branch_loop_tight (suc zero) x y [] h = absurd (omega arith)
  branch_loop_tight (suc (suc fuel)) x y [] h = rw (branch_loop-pair fuel x y) (omega arith)
  branch_loop_tight (suc fuel) x y (z ∷ rest) h =
      let half = length-pair_up b (z ∷ rest) in
      let (q, qs, e) = pair_up-cons b z rest in
      let size = ap length e in
      let ih = branch_loop_tight fuel (node b x y) q qs (omega (arith, half, size)) in
      rw (branch_loop-suc fuel x y (z ∷ rest), e, pow-suc) (omega (arith, half, size, ih))

  -- The path is as long as the tree is deep: with `n` transactions besides the coinbase, the
  -- `n + 1` leaves fit under a tree of that depth, and `2 ^ depth` is at most `2 * n + 1`, so they
  -- do not fit under a tree one level lower.
  pub length-merkle_path :
      (coinbase_txid : Hash) (txid_list : List Hash)
      → (length txid_list + 1 ≤ 2 ^ length (merkle_path b coinbase_txid txid_list))
        × (2 ^ length (merkle_path b coinbase_txid txid_list) ≤ 2 * length txid_list + 1)
  unfolding merkle_path
  length-merkle_path c [] = (omega arith, omega arith)
  length-merkle_path c (y ∷ rest) =
      let covers = branch_loop_covers (suc (suc (length rest))) c (y ∷ rest) (omega arith) in
      let tight = branch_loop_tight (suc (suc (length rest))) c y rest (omega arith) in
      (omega (arith, covers), omega (arith, tight))
