-- ===== src/Bitcoin.antt =====
-- What the program uses of the `bitcoin` crate, a third-party package: its types, codecs and hashes
-- are a parameter of the model. Hashes are their 32 bytes, `u32` and `i32` fields bit patterns.
use sv2_p2pool.Prelude.{
  ℕ, Bytes, List, ◌++◌, Option, ◌≡◌, arith, none, some, length, replicate, nat_eqb, if◌then◌else◌,
}

-- `BlockHash`, `Txid`, `Wtxid` and `TxMerkleNode`, all 32-byte double hashes.
abbrev pub Hash : Type 0
Hash = Bytes

abbrev pub all_zeros : Hash
all_zeros = replicate 32 0

-- `<[u8; 32]>::try_from(bytes)`, then `from_byte_array`
abbrev pub to_hash : Bytes → Option Hash
to_hash bytes = if nat_eqb (length bytes) 32 then some bytes else none

pub to_hash-eq-some : (bytes h : Bytes) → to_hash bytes ≡ some h → bytes ≡ h
to_hash-eq-some bytes h e = ground arith

-- `x as i32` of a `u32`, as a bit pattern.
abbrev pub as_i32 : ℕ → ℕ
as_i32 x = x

-- `bitcoin::Network`
pub data Network : Type 0 where
  mainnet testnet testnet4 regtest signet : Network

-- `bitcoin::block::Header`
pub record Header : Type 0 where
  pub version : ℕ
  pub prev_blockhash : Hash
  pub merkle_root : Hash
  pub time : ℕ
  pub bits : ℕ
  pub nonce : ℕ

pub record Bitcoin : Type 1 where
  pub Transaction : Type 0
  pub TxIn : Type 0
  -- `Transaction::consensus_decode(&mut &bytes[..]).ok()`
  pub decode_transaction : Bytes → Option Transaction
  pub compute_txid : Transaction → Hash
  pub tx_version : Transaction → ℕ
  pub lock_time : Transaction → ℕ
  pub input : Transaction → List TxIn
  pub script_sig : TxIn → Bytes
  pub sequence : TxIn → ℕ
  -- `serialize(&tx.output)`, and `serialize(&TxOut { value: Amount::ZERO, script_pubkey })`
  pub serialize_outputs : Transaction → Bytes
  pub serialize_zero_output : Bytes → Bytes
  -- `VarInt::consensus_decode` and `VarInt::size`
  pub var_int : Bytes → Option ℕ
  pub var_int_size : ℕ → ℕ
  pub sha256d : Bytes → Hash
  pub block_hash : Header → Hash

-- `bitcoin::Block`
pub record Block (b : Bitcoin) : Type 0 where
  pub header : Header
  pub txdata : List (b.Transaction)

-- The hash of an inner node of the merkle tree: both children are written to one hash engine.
abbrev pub node : Bitcoin → Hash → Hash → Hash
node b left right = b.sha256d (left ++ right)
