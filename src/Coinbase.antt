-- ===== src/Coinbase.antt =====
-- crates/sv2-p2pool-engine/src/coinbase.rs: the coinbase that a job declares, rebuilt from its
-- prefix, an extranonce and its suffix. `merkle_path` is in `Merkle`.
pub mod Layout
use sv2_p2pool.Prelude.{
  ℕ, ◌+◌, ◌-◌, ◌^◌, Bytes, ◌++◌, length, drop, replicate, ltb, leb, not, nat_eqb, if◌then◌else◌,
}
use sv2_p2pool.Prelude.Flow.{Flow, next, exit, panic, or_exit, require, ◌>>=◌, ◌>>◌}
use sv2_p2pool.Bitcoin.{Bitcoin}

pub data CoinbaseReconstructError : Type 0 where
  prefix_too_short : CoinbaseReconstructError
  bad_script_sig_var_int : CoinbaseReconstructError
  script_sig_overflow : CoinbaseReconstructError
  extranonce_size_mismatch : ℕ → ℕ → CoinbaseReconstructError
  decode : CoinbaseReconstructError

abbrev pub coinbase_prefix_len : ℕ
coinbase_prefix_len = 43

-- `isize::MAX`, the most bytes that a `Vec` holds: `extend` past it is a capacity overflow.
abbrev pub vec_limit : ℕ
vec_limit = 2 ^ 63 - 1

-- `v.extend(repeat_n(0u8, n))`
unfoldable pub extend_zeros : Bytes → ℕ → Flow CoinbaseReconstructError Bytes
extend_zeros v n = if leb (length v + n) vec_limit then next (v ++ replicate n 0) else panic

module _ (b : Bitcoin) where
  -- The first half of both functions: the bytes of the scriptSig that the prefix leaves open.
  unfoldable pub extranonce_size : Bytes → Flow CoinbaseReconstructError ℕ
  extranonce_size prefix = do
    require (not (ltb (length prefix) coinbase_prefix_len)) prefix_too_short
    script_sig_size ← or_exit (b.var_int (drop coinbase_prefix_len prefix)) bad_script_sig_var_int
    let script_sig_offset = coinbase_prefix_len + b.var_int_size script_sig_size
    require (not (ltb (length prefix) script_sig_offset)) prefix_too_short
    let script_sig_bytes_in_prefix = length prefix - script_sig_offset
    require (not (ltb script_sig_size script_sig_bytes_in_prefix)) script_sig_overflow
    next (script_sig_size - script_sig_bytes_in_prefix)

  unfoldable pub reconstruct_coinbase : Bytes → Bytes → Flow CoinbaseReconstructError b.Transaction
  reconstruct_coinbase prefix suffix = do
    full_extranonce_size ← extranonce_size prefix
    padded ← extend_zeros prefix full_extranonce_size
    or_exit (b.decode_transaction (padded ++ suffix)) decode

  unfoldable pub reconstruct_coinbase_with_extranonce :
      Bytes → Bytes → Bytes → Flow CoinbaseReconstructError b.Transaction
  reconstruct_coinbase_with_extranonce prefix extranonce suffix = do
    expected ← extranonce_size prefix
    require (nat_eqb (length extranonce) expected)
        (extranonce_size_mismatch expected (length extranonce))
    or_exit (b.decode_transaction ((prefix ++ extranonce) ++ suffix)) decode
