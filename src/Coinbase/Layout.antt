-- ===== src/Coinbase/Layout.antt =====
-- Where the extranonce lies in a reconstructed coinbase.
use sv2_p2pool.Prelude.{
  ℕ, ◌+◌, ◌≤◌, ◌<◌, ◌≡◌, ◌≢◌, ◌↔◌, refl, inl, inr, Option-cases, Bytes, ◌++◌, length, drop,
  replicate, length-replicate, Option, some, arith,
}
use sv2_p2pool.Prelude.Flow.{Flow, next, exit, panic, >>=-eq-next}
use sv2_p2pool.Bitcoin.{Bitcoin}
use sv2_p2pool.Coinbase.{
  CoinbaseReconstructError, coinbase_prefix_len, vec_limit, extend_zeros, extranonce_size,
  reconstruct_coinbase, reconstruct_coinbase_with_extranonce,
}

module _ (b : Bitcoin) where
  abbrev announced_size : Bytes → Option ℕ
  announced_size prefix = b.var_int (drop coinbase_prefix_len prefix)

  -- The scriptSig that the prefix announces ends exactly `n` bytes after the prefix.
  pub record Leaves (prefix : Bytes) (n : ℕ) : Type 0 where
    pub size : ℕ
    pub announced : b.var_int (drop coinbase_prefix_len prefix) ≡ some size
    pub starts : coinbase_prefix_len + b.var_int_size size ≤ length prefix
    pub ends : coinbase_prefix_len + b.var_int_size size + size ≡ length prefix + n

  pub extranonce_size-Leaves :
      (prefix : Bytes) (n : ℕ) → extranonce_size b prefix ≡ next n → Leaves prefix n
  unfolding extranonce_size
  extranonce_size-Leaves prefix n h = elim (Option-cases (announced_size prefix)) [
    | inl e ↦ absurd (ground arith)
    | inr (size, e) ↦ record {
      size = size;
      announced = e;
      starts = ground arith;
      ends = ground arith;
    }
  ]

  pub Leaves-extranonce_size :
      (prefix : Bytes) (n : ℕ) → Leaves prefix n → extranonce_size b prefix ≡ next n
  unfolding extranonce_size
  Leaves-extranonce_size prefix n l = ground arith

  -- `reconstruct_coinbase_with_extranonce` succeeds exactly when the scriptSig that the prefix
  -- announces ends where the extranonce ends and prefix, extranonce and suffix decode.
  pub reconstruct_coinbase_with_extranonce_iff :
      (prefix extranonce suffix : Bytes) (tx : b.Transaction)
      → (reconstruct_coinbase_with_extranonce b prefix extranonce suffix ≡ next tx) ↔ (
          Leaves prefix (length extranonce)
          × (b.decode_transaction ((prefix ++ extranonce) ++ suffix) ≡ some tx))
  unfolding reconstruct_coinbase_with_extranonce
  reconstruct_coinbase_with_extranonce_iff prefix extranonce suffix tx = (forth, back)
    where
      forth :
          reconstruct_coinbase_with_extranonce b prefix extranonce suffix ≡ next tx
          → Leaves prefix (length extranonce)
            × (b.decode_transaction ((prefix ++ extranonce) ++ suffix) ≡ some tx)
      forth h =
          let (n, e, rest) = >>=-eq-next (extranonce_size b prefix) _ tx h in
          (extranonce_size-Leaves prefix (length extranonce) (ground arith), ground arith)

      back :
          Leaves prefix (length extranonce)
            × (b.decode_transaction ((prefix ++ extranonce) ++ suffix) ≡ some tx)
          → reconstruct_coinbase_with_extranonce b prefix extranonce suffix ≡ next tx
      back (l, d) = ground (arith, Leaves-extranonce_size prefix (length extranonce) l)

  -- At declare time the coinbase is the one with an extranonce of as many zeros as fit, as long
  -- as prefix and zeros stay within the largest `Vec`.
  reconstruct_coinbase-zeros :
      (prefix suffix : Bytes) (n : ℕ)
      → Leaves prefix n
      → length prefix + n ≤ vec_limit
      → reconstruct_coinbase b prefix suffix
        ≡ reconstruct_coinbase_with_extranonce b prefix (replicate n 0) suffix
  unfolding reconstruct_coinbase reconstruct_coinbase_with_extranonce extend_zeros
  reconstruct_coinbase-zeros prefix suffix n l fits =
      ground (arith, Leaves-extranonce_size prefix n l, length-replicate {A = ℕ} n 0)

  extranonce_size_returns : (prefix : Bytes) → extranonce_size b prefix ≢ panic
  unfolding extranonce_size
  extranonce_size_returns prefix h = elim (Option-cases (announced_size prefix)) [
    | inl e ↦ ground arith
    | inr (size, e) ↦ ground arith
  ]

  -- `reconstruct_coinbase` panics exactly when the scriptSig that the prefix announces starts within
  -- the prefix and ends past both the prefix and the largest `Vec`, whatever the suffix; where a
  -- guard rejects the prefix, it does not.
  pub reconstruct_coinbase_panics_iff :
      (prefix suffix : Bytes)
      → (reconstruct_coinbase b prefix suffix ≡ panic)
        ↔ ((n : ℕ) × Leaves prefix n × (vec_limit < length prefix + n))
  unfolding reconstruct_coinbase extend_zeros
  reconstruct_coinbase_panics_iff prefix suffix = (
    λ h. go (extranonce_size b prefix) refl h,
    λ (n, l, over). ground (arith, Leaves-extranonce_size prefix n l),
  )
    where
      go :
          (r : Flow CoinbaseReconstructError ℕ)
          → extranonce_size b prefix ≡ r
          → reconstruct_coinbase b prefix suffix ≡ panic
          → (n : ℕ) × Leaves prefix n × (vec_limit < length prefix + n)
      go panic e h = absurd (extranonce_size_returns prefix e)
      go (exit x) e h = absurd (ground (arith, e, h))
      go (next n) e h = (
        n,
        extranonce_size-Leaves prefix n e,
        elim (Option-cases (b.decode_transaction ((prefix ++ replicate n 0) ++ suffix))) [
          | inl none_decoded ↦ ground (arith, e, h)
          | inr (tx, decoded) ↦ ground (arith, e, h)
        ],
      )
