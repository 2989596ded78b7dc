-- ===== src/Ipc.antt =====
-- crates/sv2-p2pool-ipc/src/lib.rs: the client of the share-chain daemon. The capnp crates and the
-- code generated from the schema are a parameter: what a generated reader gives is a `Flow` whose
-- exit is capnp's error, and a capability is the function that answers its calls.
pub mod Wire
pub mod Requests
pub mod Served
pub mod Accepts
use sv2_p2pool.Prelude.{
  ℕ, suc, ◌%◌, ◌^◌, Bool, Bytes, String, List, [], ◌∷◌, Option, none, some, length, all_zero,
  if◌then◌else◌, nat_eqb,
}
use sv2_p2pool.Prelude.Flow.{Flow, next, exit, panic, or_panic, map_exit, map_next, traverse, ◌>>=◌}
use sv2_p2pool.Bitcoin.{Hash, Network}
use sv2_p2pool.Bitcoin
use Prim.Native.String.{◌++◌ as text_append}
use Wire.{
  Lists, Reply, ChainTipWhich, ShareHeaderWhich, TipHeightWhich, NetworkWhich, ValidationWhich,
  ValidateTemplateParams, SubmitSolutionParams, ShareChain,
}
use sv2_p2pool.Ipc.Wire

pub data IpcClientError : Type 0 where
  connect : (path : String) → (source : String) → IpcClientError
  -- `capnp::Error`, by its text
  capnp : String → IpcClientError
  -- `capnp::NotInSchema`, by its discriminant
  unknown_validation_variant : ℕ → IpcClientError
  block_hash_decode : (got : ℕ) → IpcClientError

pub data ChainTipResult : Type 0 where
  tip : Hash → ChainTipResult
  tip_uninitialised : ChainTipResult

pub data TipHeightResult : Type 0 where
  height : ℕ → TipHeightResult
  height_uninitialised : TipHeightResult

-- `Found` has the field of `ShareHeaderRead`, `prev_share_blockhash`.
pub data ShareHeaderLookup : Type 0 where
  found : (prev_share_blockhash : Option Hash) → ShareHeaderLookup
  not_found genesis : ShareHeaderLookup

pub data ValidationOutcome : Type 0 where
  ok stale_chain_tip : ValidationOutcome
  invalid_coinbase : String → ValidationOutcome
  missing_transactions : List Bytes → ValidationOutcome

-- `?` on what capnp gives
abbrev pub lift {ℓ} : {A : Type ℓ} → Flow String A → Flow IpcClientError A
lift = map_exit capnp

-- `result.which()?`
abbrev pub in_schema {ℓ} : {A : Type ℓ} → Flow ℕ A → Flow IpcClientError A
in_schema = map_exit unknown_validation_variant

-- `req.send().promise.await?`, `reply.get()?` and `.get_result()?`
unfoldable pub received {ℓ} : {A : Type ℓ} → Reply A → Flow IpcClientError A
received reply = do response ← lift reply; results ← lift response; lift results

unfoldable pub decode_block_hash : Bytes → Flow IpcClientError Hash
decode_block_hash bytes =
    if nat_eqb (length bytes) 32 then next bytes else exit (block_hash_decode (length bytes))

unfoldable pub text_to_string : Flow String String → Flow String String
text_to_string = map_exit (text_append "invalid utf-8 in InvalidCoinbase reason: ")

abbrev pub decode_validation : ValidationWhich → Flow IpcClientError ValidationOutcome
decode_validation Wire.ok = next ok
decode_validation Wire.stale_chain_tip = next stale_chain_tip
decode_validation (Wire.invalid_coinbase reason) = do
  text ← lift reason
  text ← lift (text_to_string text)
  next (invalid_coinbase text)
decode_validation (Wire.missing_transactions list) = do
  list ← lift list
  out ← traverse lift list
  next (missing_transactions out)

unfoldable pub decode_validation_result :
    Flow ℕ ValidationWhich → Flow IpcClientError ValidationOutcome
decode_validation_result result = in_schema result >>= decode_validation

-- The map of the daemon's all-zeros sentinel to `None`.
unfoldable pub some_unless_zeros : Hash → Option Hash
some_unless_zeros prev = if all_zero prev then none else some prev

abbrev pub chain_tip : ChainTipWhich → Flow IpcClientError ChainTipResult
chain_tip (Wire.tip bytes) = do bytes ← lift bytes; hash ← decode_block_hash bytes; next (tip hash)
chain_tip Wire.tip_uninitialised = next tip_uninitialised

abbrev pub share_header : ShareHeaderWhich → Flow IpcClientError ShareHeaderLookup
share_header (Wire.found header) = do
  header ← lift header
  prev_bytes ← lift header
  prev ← decode_block_hash prev_bytes
  next (found (some_unless_zeros prev))
share_header Wire.not_found = next not_found
share_header Wire.genesis = next genesis

abbrev pub tip_height : TipHeightWhich → Flow IpcClientError TipHeightResult
tip_height (Wire.height h) = next (height h)
tip_height Wire.height_uninitialised = next height_uninitialised

abbrev pub network_of : NetworkWhich → Flow IpcClientError Network
network_of Wire.mainnet = next Bitcoin.mainnet
network_of Wire.testnet = next Bitcoin.testnet
network_of Wire.testnet4 = next Bitcoin.testnet4
network_of Wire.regtest = next Bitcoin.regtest
network_of Wire.signet = next Bitcoin.signet
network_of Wire.unknown = exit (capnp "getNetwork: server returned `unknown` variant")

-- `for (i, item) in items.iter().enumerate() { list.set(i as u32, item); }`
unfoldable pub set_items :
    (lists : Lists) → ℕ → List Bytes → lists.Builder → Flow IpcClientError (lists.Builder)
set_items lists i [] list = next list
set_items lists i (item ∷ items) list = do
  list ← or_panic (lists.set (i % 2 ^ 32) item list)
  set_items lists (suc i) items list

-- The list of `items.len() as u32` elements, filled.
unfoldable pub build_list : (lists : Lists) → List Bytes → Flow IpcClientError (lists.Builder)
build_list lists items = set_items lists 0 items (lists.init (length items % 2 ^ 32))

module _ {lists : Lists} (client : ShareChain lists) where
  unfoldable pub validate_template :
      (coinbase_prefix coinbase_suffix : Bytes) (wtxid_list missing_txs : List Bytes)
      → Flow IpcClientError ValidationOutcome
  validate_template coinbase_prefix coinbase_suffix wtxid_list missing_txs = do
    wtxids ← build_list lists wtxid_list
    txs ← build_list lists missing_txs
    result ← received (
        client.validate_template (record {
          coinbase_prefix = coinbase_prefix;
          coinbase_suffix = coinbase_suffix;
          wtxid_list = wtxids;
          missing_txs = txs;
        }))
    decode_validation_result result

  unfoldable pub submit_solution : (raw_block share_hash : Bytes) → Flow IpcClientError Bool
  submit_solution raw_block share_hash = do
    reply ←
        lift (client.submit_solution (record { raw_block = raw_block; share_hash = share_hash }))
    lift reply

  unfoldable pub get_chain_tip : Flow IpcClientError ChainTipResult
  get_chain_tip = do
    result ← received client.get_chain_tip
    result ← in_schema result
    chain_tip result

  unfoldable pub get_share_header : Hash → Flow IpcClientError ShareHeaderLookup
  get_share_header share_hash = do
    result ← received (client.get_share_header share_hash)
    result ← in_schema result
    share_header result

  unfoldable pub get_tip_height : Flow IpcClientError TipHeightResult
  get_tip_height = do
    result ← received client.get_tip_height
    result ← in_schema result
    tip_height result

  unfoldable pub get_network : Flow IpcClientError Network
  get_network = do
    result ← received client.get_network
    result ← in_schema result
    network_of result

  -- `_reply`: only that the call was answered.
  unfoldable pub subscribe_chain_tip : Flow IpcClientError (Unit {0})
  subscribe_chain_tip = lift client.subscribe_chain_tip

-- `CallbackImpl::on_new_tip` around a closure that changes a state: an undecodable payload is
-- rejected, any other reaches the closure.
unfoldable pub on_new_tip {ℓ} :
    {S : Type ℓ}
    → (Bytes → S → S)
    → Flow String (Flow String Bytes)
    → S
    → S × Flow String (Unit {0})
on_new_tip callback params s = elim (params >>= λ p. p) [
  | next bytes ↦ (callback bytes s, next tt)
  | exit e ↦ (s, exit e)
  | panic ↦ (s, panic)
]
