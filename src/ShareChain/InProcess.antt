-- ===== src/ShareChain/InProcess.antt =====
-- `InProcessChain` of share_chain.rs: the reader over a chain store in the same process.
use sv2_p2pool.Prelude.{String, Option, none, some, all_zero, if◌then◌else◌}
use sv2_p2pool.Prelude.Flow.{Flow, next, exit, panic, map_exit}
use sv2_p2pool.Bitcoin.{Hash}
use sv2_p2pool.Ipc.{
  IpcClientError, capnp, ShareHeaderLookup, found, not_found, genesis, some_unless_zeros,
}
use Prim.Native.String.{◌++◌ as text_append}
use sv2_p2pool.ShareChain.{ShareChainReader}
use sv2_p2pool.ShareChain.Store.{StoreError, text, ShareHeader, ChainStoreHandle}
use sv2_p2pool.ShareChain.Store

-- `IpcClientError::Capnp(capnp::Error::failed(format!("{call}: {e}")))`
abbrev pub failed : (call : String) → StoreError → IpcClientError
failed call e = capnp (text_append call (text_append ": " (text e)))

-- The match of `get_chain_tip`
abbrev pub tip_result : Flow StoreError Hash → Flow IpcClientError (Option Hash)
tip_result (next tip) = next (some tip)
tip_result (exit (Store.not_found message)) = next none
tip_result (exit e) = exit (failed "get_chain_tip" e)
tip_result panic = panic

-- The match of `get_share_header`
abbrev pub header_result : Flow StoreError ShareHeader → Flow IpcClientError ShareHeaderLookup
header_result (next header) = next (found (some_unless_zeros header.prev_share_blockhash))
header_result (exit (Store.not_found message)) = next not_found
header_result (exit e) = exit (failed "get_share_header" e)
header_result panic = panic

module _ (chain : ChainStoreHandle) where
  unfoldable pub get_share_header : Hash → Flow IpcClientError ShareHeaderLookup
  get_share_header share_hash =
      if all_zero share_hash
      then next genesis
      else header_result (chain.get_share_header share_hash)

  unfoldable pub in_process : ShareChainReader
  in_process = record {
    get_chain_tip = tip_result chain.get_chain_tip;
    get_share_header = get_share_header;
    get_tip_height = map_exit (failed "get_tip_height") chain.get_tip_height;
    network = chain.network;
  }
