-- ===== src/Ipc/Wire.antt =====
-- What the code generated from the capnp schema gives the client, a parameter: the readers of the
-- schema's unions, with an error where a part is read, and the calls of the daemon's capability.
use sv2_p2pool.Prelude.{ℕ, Bool, Bytes, String, List, Option}
use sv2_p2pool.Prelude.Flow.{Flow}

-- A call's answer, the response, its results and the `result` in them can each fail to arrive.
abbrev pub Reply {ℓ} : Type ℓ → Type ℓ
Reply A = Flow String (Flow String (Flow String A))

pub data ChainTipWhich : Type 0 where
  tip : Flow String Bytes → ChainTipWhich
  tip_uninitialised : ChainTipWhich

-- The header, then its `prev_share_blockhash`.
pub data ShareHeaderWhich : Type 0 where
  found : Flow String (Flow String Bytes) → ShareHeaderWhich
  not_found genesis : ShareHeaderWhich

pub data TipHeightWhich : Type 0 where
  height : ℕ → TipHeightWhich
  height_uninitialised : TipHeightWhich

pub data NetworkWhich : Type 0 where
  mainnet testnet testnet4 regtest signet unknown : NetworkWhich

-- A text is read, then checked to be UTF-8; the elements of a list are read one by one.
pub data ValidationWhich : Type 0 where
  ok stale_chain_tip : ValidationWhich
  invalid_coinbase : Flow String (Flow String String) → ValidationWhich
  missing_transactions : Flow String (List (Flow String Bytes)) → ValidationWhich

-- `data_list::Builder`; `set` is `none` where it panics.
pub record Lists : Type 1 where
  pub Builder : Type 0
  pub init : ℕ → Builder
  pub set : ℕ → Bytes → Builder → Option Builder
  pub items : Builder → List Bytes

pub record ValidateTemplateParams (lists : Lists) : Type 0 where
  pub coinbase_prefix : Bytes
  pub coinbase_suffix : Bytes
  pub wtxid_list : lists.Builder
  pub missing_txs : lists.Builder

pub record SubmitSolutionParams : Type 0 where
  pub raw_block : Bytes
  pub share_hash : Bytes

-- `share_chain::Client`. A reader of a union is the error `NotInSchema` for an unknown variant.
pub record ShareChain (lists : Lists) : Type 0 where
  pub validate_template : ValidateTemplateParams lists → Reply (Flow ℕ ValidationWhich)
  pub submit_solution : SubmitSolutionParams → Flow String (Flow String Bool)
  pub subscribe_chain_tip : Flow String (Unit {0})
  pub get_chain_tip : Reply (Flow ℕ ChainTipWhich)
  pub get_share_header : Bytes → Reply (Flow ℕ ShareHeaderWhich)
  pub get_tip_height : Reply (Flow ℕ TipHeightWhich)
  pub get_network : Reply (Flow ℕ NetworkWhich)
