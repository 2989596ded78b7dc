-- ===== src/ShareChain/Store.antt =====
-- The chain store of p2poolv2_lib, a third-party package and a parameter: what its handle returns.
use sv2_p2pool.Prelude.{ℕ, String, Option}
use sv2_p2pool.Prelude.Flow.{Flow}
use sv2_p2pool.Bitcoin.{Hash, Network}

-- `StoreError`, each variant with its text.
pub data StoreError : Type 0 where
  not_found other : (message : String) → StoreError

-- `Display`
abbrev pub text : StoreError → String
text (not_found message) = message
text (other message) = message

-- `ShareHeader`, with the field that is read
pub record ShareHeader : Type 0 where
  pub prev_share_blockhash : Hash

pub record ChainStoreHandle : Type 0 where
  pub get_chain_tip : Flow StoreError Hash
  pub get_share_header : Hash → Flow StoreError ShareHeader
  pub get_tip_height : Flow StoreError (Option ℕ)
  pub network : Network
