-- ===== src/Engine/Custom/Checks.antt =====
-- The structural checks of `handle_set_custom_mining_job` against what they are for.
use sv2_p2pool.Prelude.{
  ◌≡◌, refl, sym, ap₂, ◌∙◌, ◌⊎◌, inl, inr, true, false, ◌==◌, nat_eq, bytes_eq, nat_eqb_iff,
  bytes_eqb_iff, Bool-cases, if◌then◌else◌, Bytes, List, [], ◌∷◌, ◌++◌, Option, some, starts_with,
  starts_with_sound, arith,
}
use sv2_p2pool.Prelude.Flow.{
  next, or_exit, or_panic, require, map_exit, traverse, >>=-eq-next, or_exit-eq-next,
  or_panic-eq-next, map_exit-eq-next, require-eq-next, next-injective,
}
use sv2_p2pool.Bitcoin.{Hash, to_hash, to_hash-eq-some, as_i32, Bitcoin}
use sv2_p2pool.Messages.{SetCustomMiningJob}
use sv2_p2pool.Jobs.{DeclaredJob}
use sv2_p2pool.Coinbase.{reconstruct_coinbase}
use sv2_p2pool.Merkle.{merkle_path}
use sv2_p2pool.Engine.Custom.{
  job_not_yet_validated, stale_chain_tip, invalid_version, invalid_coinbase_tx,
  invalid_coinbase_tx_version, invalid_coinbase_prefix, invalid_coinbase_tx_input_n_sequence,
  invalid_coinbase_tx_outputs, tip_was_captured, first_input, paths_eqb, check_tip, check_coinbase,
  check_path, check_job,
}

paths_eqb_sound : (xs ys : List Hash) → paths_eqb xs ys ≡ true → xs ≡ ys
unfolding paths_eqb
paths_eqb_sound [] [] h = refl
paths_eqb_sound [] (y ∷ ys) h = cc
paths_eqb_sound (x ∷ xs) [] h = cc
paths_eqb_sound (x ∷ xs) (y ∷ ys) h = ground (arith, paths_eqb_sound xs ys, bytes_eqb_iff x y)

-- The hashes of a list of 32-byte strings are those strings.
traverse-to_hash {κ} :
    {R : Type κ} (xs : List Bytes) (ys : List Hash)
    → traverse {R = R} (λ u256. or_panic (to_hash u256)) xs ≡ next ys
    → xs ≡ ys
unfolding traverse
traverse-to_hash [] ys h = next-injective h
traverse-to_hash {R} (x ∷ xs) ys h =
    let (y, hashed, h₁) = >>=-eq-next {R = R} (or_panic (to_hash x)) _ ys h in
    let (zs, later, h₂) = >>=-eq-next (traverse (λ u256. or_panic (to_hash u256)) xs) _ ys h₁ in
    ap₂ ◌∷◌ (to_hash-eq-some x y (or_panic-eq-next (to_hash x) y hashed))
      (traverse-to_hash xs zs later)
    ∙ next-injective h₂

-- What a custom job must have in common with the declared job it is for.
module _ (b : Bitcoin) where
  pub record MatchesCoinbase (coinbase_tx : b.Transaction) (scmj : SetCustomMiningJob)
      : Type 0 where
    pub tx_version : b.tx_version coinbase_tx ≡ as_i32 scmj.coinbase_tx_version
    pub tx_in : b.TxIn
    pub rest : List b.TxIn
    pub first : b.input coinbase_tx ≡ tx_in ∷ rest
    pub after_prefix : Bytes
    pub has_prefix : b.script_sig tx_in ≡ scmj.coinbase_prefix ++ after_prefix
    pub sequence : b.sequence tx_in ≡ scmj.coinbase_tx_input_n_sequence
    pub outputs : b.serialize_outputs coinbase_tx ≡ scmj.coinbase_tx_outputs
    pub locktime : b.lock_time coinbase_tx ≡ scmj.coinbase_tx_locktime

  pub record Matches (declared : DeclaredJob) (scmj : SetCustomMiningJob) : Type 0 where
    pub is_validated : declared.validated ≡ true
    pub on_tip :
        (tip_was_captured declared ≡ false)
        ⊎ ((scmj.prev_hash ≡ declared.tip.prev_hash) × (scmj.nbits ≡ declared.tip.nbits))
    pub version : scmj.version ≡ declared.version
    pub coinbase_tx : b.Transaction
    pub rebuilds :
        reconstruct_coinbase b declared.coinbase_tx_prefix declared.coinbase_tx_suffix
        ≡ next coinbase_tx
    pub coinbase : MatchesCoinbase coinbase_tx scmj
    pub txids : List Hash
    pub has_txids : declared.txid_list ≡ some txids
    pub path : merkle_path b (b.compute_txid coinbase_tx) txids ≡ scmj.merkle_path

  check_tip_sound :
      (declared : DeclaredJob) (scmj : SetCustomMiningJob)
      → check_tip declared scmj ≡ next tt
      → (scmj.prev_hash ≡ declared.tip.prev_hash) × (scmj.nbits ≡ declared.tip.nbits)
  unfolding check_tip
  check_tip_sound declared scmj h =
      let (hash, hashed, h₁) = >>=-eq-next (or_panic (to_hash scmj.prev_hash)) _ tt h in
      let (_, same, h₂) =
        >>=-eq-next (require (hash == declared.tip.prev_hash) stale_chain_tip) _ tt h₁ in
      (
        to_hash-eq-some _ hash (or_panic-eq-next _ hash hashed)
            ∙ (bytes_eqb_iff hash declared.tip.prev_hash).0 (require-eq-next _ _ same),
        (nat_eqb_iff scmj.nbits declared.tip.nbits).0 (require-eq-next _ _ h₂),
      )

  first_input-some :
      (xs : List b.TxIn) (x : b.TxIn)
      → first_input xs ≡ some x
      → (rest : List b.TxIn) × (xs ≡ x ∷ rest)
  first_input-some [] x h = cc
  first_input-some (y ∷ ys) x h = (ys, cc)

  check_coinbase_sound :
      (tx : b.Transaction) (scmj : SetCustomMiningJob)
      → check_coinbase b tx scmj ≡ next tt
      → MatchesCoinbase tx scmj
  unfolding check_coinbase
  check_coinbase_sound tx scmj h =
      let (_, versions, h₁) =
        >>=-eq-next
          (require (b.tx_version tx == as_i32 scmj.coinbase_tx_version) invalid_coinbase_tx_version)
          _ tt h in
      let (tx_in, firsts, h₂) = >>=-eq-next (or_panic (first_input (b.input tx))) _ tt h₁ in
      let (_, prefixed, h₃) =
        >>=-eq-next
          (require (starts_with (b.script_sig tx_in) scmj.coinbase_prefix) invalid_coinbase_prefix)
          _ tt h₂ in
      let (_, sequences, h₄) =
        >>=-eq-next
          (require (b.sequence tx_in == scmj.coinbase_tx_input_n_sequence)
            invalid_coinbase_tx_input_n_sequence)
          _ tt h₃ in
      let (_, outs, h₅) =
        >>=-eq-next
          (require (b.serialize_outputs tx == scmj.coinbase_tx_outputs) invalid_coinbase_tx_outputs)
          _ tt h₄ in
      let (rest, first) = first_input-some (b.input tx) tx_in (or_panic-eq-next _ tx_in firsts) in
      let (after, split) = starts_with_sound _ _ (require-eq-next _ _ prefixed) in
      record {
        tx_version = (nat_eqb_iff _ _).0 (require-eq-next _ _ versions);
        tx_in = tx_in;
        rest = rest;
        first = first;
        after_prefix = after;
        has_prefix = split;
        sequence = (nat_eqb_iff _ _).0 (require-eq-next _ _ sequences);
        outputs = (bytes_eqb_iff _ _).0 (require-eq-next _ _ outs);
        locktime = (nat_eqb_iff _ _).0 (require-eq-next _ _ h₅);
      }

  check_path_sound :
      (tx : b.Transaction) (txid_list : Option (List Hash)) (scmj : SetCustomMiningJob)
      → check_path b tx txid_list scmj ≡ next tt
      → (txids : List Hash) × (txid_list ≡ some txids)
        × (merkle_path b (b.compute_txid tx) txids ≡ scmj.merkle_path)
  unfolding check_path
  check_path_sound tx txid_list scmj h =
      let (txids, listed, h₁) = >>=-eq-next (or_exit txid_list job_not_yet_validated) _ tt h in
      let (custom, hashed, h₂) =
        >>=-eq-next (traverse (λ u256. or_panic (to_hash u256)) scmj.merkle_path) _ tt h₁ in
      (
        txids,
        or_exit-eq-next txid_list _ txids listed,
        paths_eqb_sound _ custom (require-eq-next _ _ h₂)
            ∙ sym (traverse-to_hash scmj.merkle_path custom hashed),
      )

  -- A custom job that passes the structural checks matches the declared job: version, merkle path,
  -- each coinbase field, and, when a tip was captured at declaration, previous hash and nbits.
  pub check_job-Matches :
      (declared : DeclaredJob) (scmj : SetCustomMiningJob)
      → check_job b declared scmj ≡ next tt
      → Matches declared scmj
  unfolding check_job
  check_job-Matches declared scmj h =
      let (_, valid, h₁) = >>=-eq-next (require declared.validated job_not_yet_validated) _ tt h in
      let (_, tips, h₂) =
        >>=-eq-next (if tip_was_captured declared then check_tip declared scmj else next tt) _ tt
          h₁ in
      let (_, versions, h₃) =
        >>=-eq-next (require (scmj.version == declared.version) invalid_version) _ tt h₂ in
      let (tx, rebuilt, h₄) =
        >>=-eq-next
          (map_exit (λ _. invalid_coinbase_tx)
            (reconstruct_coinbase b declared.coinbase_tx_prefix declared.coinbase_tx_suffix))
          _ tt h₃ in
      let (_, coinbases, h₅) = >>=-eq-next (check_coinbase b tx scmj) _ tt h₄ in
      let (txids, listed, paths) = check_path_sound tx declared.txid_list scmj h₅ in
      record {
        is_validated = require-eq-next _ _ valid;
        on_tip = tip_checked (Bool-cases (tip_was_captured declared)) tips;
        version = (nat_eqb_iff _ _).0 (require-eq-next _ _ versions);
        coinbase_tx = tx;
        rebuilds = map_exit-eq-next _ _ tx rebuilt;
        coinbase = check_coinbase_sound tx scmj coinbases;
        txids = txids;
        has_txids = listed;
        path = paths;
      }
    where
      tip_checked :
          (tip_was_captured declared ≡ true) ⊎ (tip_was_captured declared ≡ false)
          → (if tip_was_captured declared then check_tip declared scmj else next tt) ≡ next tt
          → (tip_was_captured declared ≡ false)
            ⊎ ((scmj.prev_hash ≡ declared.tip.prev_hash) × (scmj.nbits ≡ declared.tip.nbits))
      tip_checked (inl captured) tips = inr (check_tip_sound declared scmj (ground arith))
      tip_checked (inr unknown) tips = inl unknown
