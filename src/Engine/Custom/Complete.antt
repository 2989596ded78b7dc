-- ===== src/Engine/Custom/Complete.antt =====
-- A custom job that matches its declared job passes the structural checks.
use sv2_p2pool.Prelude.{
  ◌≡◌, refl, ◌↔◌, ◌⊎◌, inl, inr, true, false, nat_eq, bytes_eq, nat_eqb_iff, bytes_eqb_iff,
  bytes_eqb_refl, if◌then◌else◌, Bytes, List, [], ◌∷◌, ◌++◌, All, some, starts_with, arith,
}
use sv2_p2pool.Prelude.Flow.{next, or_panic, traverse}
use sv2_p2pool.Bitcoin.{Hash, to_hash, Bitcoin}
use sv2_p2pool.Messages.{SetCustomMiningJob}
use sv2_p2pool.Jobs.{DeclaredJob}
use sv2_p2pool.Merkle.{merkle_path}
use sv2_p2pool.Engine.Custom.{
  ScmjError, tip_was_captured, paths_eqb, check_tip, check_coinbase, check_path, check_job,
}
use sv2_p2pool.Engine.Custom.Checks.{MatchesCoinbase, Matches, check_job-Matches}
use sv2_p2pool.Engine.Custom.Returning.{Is32}

paths_eqb_refl : (xs : List Hash) → paths_eqb xs xs ≡ true
unfolding paths_eqb
paths_eqb_refl [] = refl
paths_eqb_refl (x ∷ xs) = ground (arith, bytes_eqb_refl x, paths_eqb_refl xs)

starts_with-append : (ps rest : Bytes) → starts_with (ps ++ rest) ps ≡ true
unfolding starts_with
starts_with-append [] [] = refl
starts_with-append [] (x ∷ xs) = refl
starts_with-append (p ∷ ps) rest = ground (arith, starts_with-append ps rest)

pub to_hash_self : (bytes : Bytes) → Is32 bytes → to_hash bytes ≡ some bytes
to_hash_self bytes is32 = ground arith

traverse_self {κ} :
    {R : Type κ} (xs : List Bytes)
    → All Is32 xs
    → traverse {R = R} (λ u256. or_panic (to_hash u256)) xs ≡ next xs
unfolding traverse
traverse_self [] all = refl
traverse_self {R} (x ∷ xs) all = rw (to_hash_self x all.0, traverse_self {R = R} xs all.1)

module _ (b : Bitcoin) where
  check_coinbase_complete :
      (tx : b.Transaction) (scmj : SetCustomMiningJob)
      → MatchesCoinbase b tx scmj
      → check_coinbase b tx scmj ≡ next tt
  unfolding check_coinbase
  check_coinbase_complete tx scmj m = rw (
    (nat_eqb_iff _ _).1 m.tx_version,
    m.first,
    m.has_prefix,
    starts_with-append scmj.coinbase_prefix m.after_prefix,
    (nat_eqb_iff _ _).1 m.sequence,
    (bytes_eqb_iff _ _).1 m.outputs,
    (nat_eqb_iff _ _).1 m.locktime,
  )

  check_path_complete :
      (tx : b.Transaction) (txids : List Hash) (scmj : SetCustomMiningJob)
      → All Is32 scmj.merkle_path
      → merkle_path b (b.compute_txid tx) txids ≡ scmj.merkle_path
      → check_path b tx (some txids) scmj ≡ next tt
  unfolding check_path
  check_path_complete tx txids scmj all32 path =
      rw (
        traverse_self {R = ScmjError} scmj.merkle_path all32,
        path,
        paths_eqb_refl scmj.merkle_path,
      )

  check_tip_complete :
      (declared : DeclaredJob) (scmj : SetCustomMiningJob)
      → Is32 scmj.prev_hash
      → (scmj.prev_hash ≡ declared.tip.prev_hash) × (scmj.nbits ≡ declared.tip.nbits)
      → check_tip declared scmj ≡ next tt
  unfolding check_tip
  check_tip_complete declared scmj is32 (prev_hash, nbits) =
      rw (
        to_hash_self scmj.prev_hash is32,
        (bytes_eqb_iff _ _).1 prev_hash,
        (nat_eqb_iff _ _).1 nbits,
      )

  -- For a custom job whose hashes have 32 bytes, the structural checks pass exactly when it
  -- matches the declared job: version, merkle path, each coinbase field and, unless no tip was
  -- captured at declaration, previous hash and nbits.
  pub check_job_iff :
      (declared : DeclaredJob) (scmj : SetCustomMiningJob)
      → Is32 scmj.prev_hash
      → All Is32 scmj.merkle_path
      → (check_job b declared scmj ≡ next tt) ↔ Matches b declared scmj
  unfolding check_job
  check_job_iff declared scmj is32 all32 = (check_job-Matches b declared scmj, back)
    where
      on_tip :
          (tip_was_captured declared ≡ false)
            ⊎ ((scmj.prev_hash ≡ declared.tip.prev_hash) × (scmj.nbits ≡ declared.tip.nbits))
          → (if tip_was_captured declared then check_tip declared scmj else next tt) ≡ next tt
      on_tip (inl unknown) = ground arith
      on_tip (inr same) = ground (arith, check_tip_complete declared scmj is32 same)

      back : Matches b declared scmj → check_job b declared scmj ≡ next tt
      back m = rw (
        on_tip m.on_tip,
        m.is_validated,
        (nat_eqb_iff _ _).1 m.version,
        m.rebuilds,
        check_coinbase_complete m.coinbase_tx scmj m.coinbase,
        m.has_txids,
        check_path_complete m.coinbase_tx m.txids scmj all32 m.path,
      )
