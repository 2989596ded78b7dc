-- ===== src/Block/Assembly.antt =====
-- What a reconstructed block consists of.
use sv2_p2pool.Prelude.{
  ℕ, suc, ◌≡◌, refl, sym, subst, ◌↔◌, List, [], ◌∷◌, map, some, length, arith, ap, bytes_eqb_iff,
  length-map,
}
use sv2_p2pool.Prelude.Flow.{
  Flow, next, or_exit, map_exit, >>=-eq-next, next-injective, or_exit-eq-next, map_exit-eq-next,
  map_next,
}
use sv2_p2pool.Bitcoin.{Hash, to_hash, to_hash-eq-some, Bitcoin, Block}
use sv2_p2pool.Messages.{PushSolution, SetCustomMiningJob}
use sv2_p2pool.Jobs.{DeclaredJob}
use sv2_p2pool.Coinbase.{
  CoinbaseReconstructError, reconstruct_coinbase, reconstruct_coinbase_with_extranonce,
}
use sv2_p2pool.Merkle.{merkle_path}
use sv2_p2pool.Merkle.Branch.{
  fold_path, fold-merkle_path, IsRoot, compute_merkle_root_from_txids-IsRoot,
}
use sv2_p2pool.Block.{
  coinbase, check_bodies, match_bodies, reconstruct_header, reconstruct_block,
  build_candidate_block,
}

module _ (b : Bitcoin) where
  check_bodies_sound :
      (idx : ℕ) (bodies : List b.Transaction) (txids : List Hash)
      → length bodies ≡ length txids
      → check_bodies b idx bodies txids ≡ next tt
      → map b.compute_txid bodies ≡ txids
  unfolding check_bodies
  check_bodies_sound idx [] [] l h = refl
  check_bodies_sound idx [] (t ∷ ts) l h = absurd (omega arith)
  check_bodies_sound idx (x ∷ xs) [] l h = absurd (omega arith)
  check_bodies_sound idx (x ∷ xs) (t ∷ ts) l h =
      ground (arith, bytes_eqb_iff (b.compute_txid x) t, check_bodies_sound (suc idx) xs ts)

  check_bodies_complete :
      (idx : ℕ) (bodies : List b.Transaction)
      → check_bodies b idx bodies (map b.compute_txid bodies) ≡ next tt
  unfolding check_bodies
  check_bodies_complete idx [] = refl
  check_bodies_complete idx (x ∷ xs) = ground (
    arith,
    bytes_eqb_iff (b.compute_txid x) (b.compute_txid x),
    check_bodies_complete (suc idx) xs,
  )

  -- The bodies pass the check exactly when their txids are the declared list, in order and number.
  pub match_bodies_iff :
      (txid_list : List Hash) (tx_bodies : List b.Transaction)
      → (match_bodies b txid_list tx_bodies ≡ next tt) ↔ (map b.compute_txid tx_bodies ≡ txid_list)
  unfolding match_bodies
  match_bodies_iff txids bodies = (forth, back)
    where
      forth : match_bodies b txids bodies ≡ next tt → map b.compute_txid bodies ≡ txids
      forth h = ground (arith, check_bodies_sound 0 bodies txids)

      back : map b.compute_txid bodies ≡ txids → match_bodies b txids bodies ≡ next tt
      back e = ground (
        arith,
        check_bodies_complete 0 bodies,
        ap (length {A = Hash}) e,
        length-map b.compute_txid bodies,
      )

  abbrev rebuild : DeclaredJob → PushSolution → Flow CoinbaseReconstructError b.Transaction
  rebuild job solution =
      reconstruct_coinbase_with_extranonce b job.coinbase_tx_prefix solution.extranonce
        job.coinbase_tx_suffix

  -- A block that `solution` finishes for `job` out of `tx_bodies`.
  pub record IsSolved (job : DeclaredJob) (solution : PushSolution) (tx_bodies : List b.Transaction)
      (block : Block b) : Type 0 where
    pub coinbase_tx : b.Transaction
    pub rebuilt :
        reconstruct_coinbase_with_extranonce b job.coinbase_tx_prefix solution.extranonce
          job.coinbase_tx_suffix
        ≡ next coinbase_tx
    pub declared : job.txid_list ≡ some (map b.compute_txid tx_bodies)
    pub txdata : block.txdata ≡ coinbase_tx ∷ tx_bodies
    pub root : IsRoot b (map b.compute_txid block.txdata) block.header.merkle_root
    pub on_prev_hash : block.header.prev_blockhash ≡ solution.prev_hash
    pub with_nonce : block.header.nonce ≡ solution.nonce
    pub with_time : block.header.time ≡ solution.ntime
    pub with_bits : block.header.bits ≡ solution.nbits
    pub with_version : block.header.version ≡ solution.version

  -- A block that is reconstructed carries exactly the declared transactions behind the coinbase
  -- of the solution, and its header commits to its own transactions by Bitcoin's merkle root.
  pub reconstruct_block-IsSolved :
      (job : DeclaredJob) (solution : PushSolution) (tx_bodies : List b.Transaction)
      (block : Block b)
      → reconstruct_block b job solution tx_bodies ≡ next block
      → IsSolved job solution tx_bodies block
  unfolding reconstruct_block
  reconstruct_block-IsSolved job solution bodies block h =
      let (txids, declared, h₁) = >>=-eq-next (or_exit job.txid_list _) _ block h in
      let (_, matched, h₂) = >>=-eq-next (match_bodies b txids bodies) _ block h₁ in
      let (coinbase_tx, built, h₃) =
        >>=-eq-next (map_exit coinbase (rebuild job solution)) _ block h₂ in
      let (prev, hashed, h₄) = >>=-eq-next (or_exit (to_hash solution.prev_hash) _) _ block h₃ in
      let same : map b.compute_txid bodies ≡ txids = (match_bodies_iff txids bodies).0 matched in
      subst (IsSolved job solution bodies) (next-injective h₄) (record {
        coinbase_tx = coinbase_tx;
        rebuilt = map_exit-eq-next coinbase _ coinbase_tx built;
        declared = rw same (or_exit-eq-next job.txid_list _ txids declared);
        txdata = refl;
        root = rw same (compute_merkle_root_from_txids-IsRoot b (b.compute_txid coinbase_tx) txids);
        on_prev_hash =
            sym (to_hash-eq-some solution.prev_hash prev (or_exit-eq-next _ _ prev hashed));
        with_nonce = refl;
        with_time = refl;
        with_bits = refl;
        with_version = refl;
      })

  -- With the declared bodies, `reconstruct_header` gives the header of `reconstruct_block`, and
  -- the same error or panic where that fails.
  pub reconstruct_header-eq-block :
      (job : DeclaredJob) (solution : PushSolution) (tx_bodies : List b.Transaction)
      → job.txid_list ≡ some (map b.compute_txid tx_bodies)
      → reconstruct_header b job solution
        ≡ map_next (λ block. block.header) (reconstruct_block b job solution tx_bodies)
  unfolding reconstruct_header reconstruct_block
  reconstruct_header-eq-block job solution bodies declared =
      ground (arith, (match_bodies_iff (map b.compute_txid bodies) bodies).1 refl)

  -- The candidate block of a `SetCustomMiningJob`: what bitcoind is asked to check.
  pub record IsCandidate (job : DeclaredJob) (scmj : SetCustomMiningJob)
      (tx_bodies : List b.Transaction) (block : Block b) : Type 0 where
    pub coinbase_tx : b.Transaction
    pub rebuilt :
        reconstruct_coinbase b job.coinbase_tx_prefix job.coinbase_tx_suffix ≡ next coinbase_tx
    pub declared : job.txid_list ≡ some (map b.compute_txid tx_bodies)
    pub txdata : block.txdata ≡ coinbase_tx ∷ tx_bodies
    pub path :
        fold_path b
          (b.compute_txid coinbase_tx)
          (merkle_path b (b.compute_txid coinbase_tx) (map b.compute_txid tx_bodies))
        ≡ block.header.merkle_root
    pub on_prev_hash : block.header.prev_blockhash ≡ scmj.prev_hash
    pub with_time : block.header.time ≡ scmj.min_ntime
    pub with_bits : block.header.bits ≡ scmj.nbits
    pub with_version : block.header.version ≡ scmj.version

  -- A candidate block carries exactly the declared transactions behind the declared coinbase, and
  -- the merkle path of that coinbase leads to the root in its header.
  pub build_candidate_block-IsCandidate :
      (job : DeclaredJob) (scmj : SetCustomMiningJob) (tx_bodies : List b.Transaction)
      (block : Block b)
      → build_candidate_block b job scmj tx_bodies ≡ next block
      → IsCandidate job scmj tx_bodies block
  unfolding build_candidate_block
  build_candidate_block-IsCandidate job scmj bodies block h =
      let (txids, declared, h₁) = >>=-eq-next (or_exit job.txid_list _) _ block h in
      let (_, matched, h₂) = >>=-eq-next (match_bodies b txids bodies) _ block h₁ in
      let (coinbase_tx, built, h₃) =
        >>=-eq-next
          (map_exit coinbase (reconstruct_coinbase b job.coinbase_tx_prefix job.coinbase_tx_suffix))
          _ block h₂ in
      let (prev, hashed, h₄) = >>=-eq-next (or_exit (to_hash scmj.prev_hash) _) _ block h₃ in
      let same : map b.compute_txid bodies ≡ txids = (match_bodies_iff txids bodies).0 matched in
      subst (IsCandidate job scmj bodies) (next-injective h₄) (record {
        coinbase_tx = coinbase_tx;
        rebuilt = map_exit-eq-next coinbase _ coinbase_tx built;
        declared = rw same (or_exit-eq-next job.txid_list _ txids declared);
        txdata = refl;
        path = rw same (fold-merkle_path b (b.compute_txid coinbase_tx) txids);
        on_prev_hash = sym (to_hash-eq-some scmj.prev_hash prev (or_exit-eq-next _ _ prev hashed));
        with_time = refl;
        with_bits = refl;
        with_version = refl;
      })
