-- ===== src/Tests.antt =====
-- Concrete inputs: a small stand-in for the `bitcoin` crate, one job with one transaction, the
-- messages about it, and the world that answers.
pub mod Parts
pub mod Calls
pub mod Handlers
pub mod Runs
pub mod Stream
pub mod Chain
pub mod Pushes
pub mod Registry
pub mod Signals
pub mod Tasks
use sv2_p2pool.Prelude.{
  ℕ, ◌+◌, ◌%◌, ◌^◌, Bool, true, false, ◌==◌, bytes_eq, if◌then◌else◌, Bytes, List, [], ◌∷◌, ◌++◌,
  Option, none, some, length, replicate,
}
use sv2_p2pool.Bitcoin.{Hash, Bitcoin, Header, Block}
use sv2_p2pool.Messages.{
  DeclareMiningJob, ProvideMissingTransactionsSuccess, SetCustomMiningJob, PushSolution,
}
use sv2_p2pool.Jobs.{TipMetadata, DeclaredJob}
use sv2_p2pool.Merkle.{compute_merkle_root_from_txids}
use sv2_p2pool.Tdp.{TdpHandle}
use sv2_p2pool.Engine.{
  Engine, World, ProposalOutcome, accepted, ShareHeaderLookup, found, genesis, Await,
}

-- A hash of 32 equal bytes.
abbrev pub hash_of : ℕ → Hash
hash_of x = replicate 32 x

abbrev sum : Bytes → ℕ
sum [] = 0
sum (x ∷ xs) = x + sum xs

abbrev pub digest : Bytes → Hash
digest bytes = hash_of (sum bytes % 256)

abbrev first_byte : Bytes → Option ℕ
first_byte [] = none
first_byte (x ∷ xs) = some x

-- A transaction is its bytes; its one input's scriptSig is all of them.
abbrev pub toy : Bitcoin
toy = record {
  Transaction = Bytes;
  TxIn = Bytes;
  decode_transaction = some;
  compute_txid = digest;
  tx_version = λ tx. 1;
  lock_time = λ tx. 0;
  input = λ tx. tx ∷ [];
  script_sig = λ tx_in. tx_in;
  sequence = λ tx_in. 7;
  serialize_outputs = λ tx. [];
  serialize_zero_output = λ script. 0 ∷ script;
  var_int = first_byte;
  var_int_size = λ size. 1;
  sha256d = digest;
  block_hash = λ header. digest (header.nonce ∷ header.merkle_root);
}

-- A scriptSig of two bytes, both left open by the prefix.
abbrev pub prefix : Bytes
prefix = replicate 43 1 ++ (2 ∷ [])

abbrev pub suffix : Bytes
suffix = 9 ∷ []

abbrev pub body : Bytes
body = 3 ∷ 4 ∷ []

abbrev pub job : DeclaredJob
job = record {
  version = 5;
  coinbase_tx_prefix = prefix;
  coinbase_tx_suffix = suffix;
  wtxid_list = hash_of 70 ∷ [];
  txid_list = some (digest body ∷ []);
  tip = record { prev_hash = hash_of 6; nbits = 11; min_ntime = 3 };
  template_id = some 4;
  share_chain_tip = some (hash_of 80);
  validated = true;
  allocated_token = some 2;
}

abbrev pub declaration : DeclareMiningJob
declaration = record {
  request_id = 3;
  mining_job_token = 2 ∷ 0 ∷ 0 ∷ 0 ∷ 0 ∷ 0 ∷ 0 ∷ 0 ∷ [];
  version = 5;
  coinbase_tx_prefix = prefix;
  coinbase_tx_suffix = suffix;
  wtxid_list = hash_of 70 ∷ [];
}

abbrev pub missing : ProvideMissingTransactionsSuccess
missing = record { transaction_list = body ∷ [] }

abbrev pub scmj : SetCustomMiningJob
scmj = record {
  version = 5;
  prev_hash = hash_of 6;
  min_ntime = 3;
  nbits = 11;
  coinbase_tx_version = 1;
  coinbase_prefix = 1 ∷ 1 ∷ [];
  coinbase_tx_input_n_sequence = 7;
  coinbase_tx_outputs = [];
  coinbase_tx_locktime = 0;
  merkle_path = digest body ∷ [];
}

abbrev pub solution : PushSolution
solution = record {
  extranonce = 21 ∷ 22 ∷ [];
  prev_hash = hash_of 6;
  nonce = 99;
  ntime = 1000;
  nbits = 11;
  version = 5;
}

-- The block that the solution makes.
abbrev pub coinbase_tx : Bytes
coinbase_tx = (prefix ++ (21 ∷ 22 ∷ [])) ++ suffix

abbrev pub solved_block : Block toy
solved_block = record {
  header = record {
    version = 5;
    prev_blockhash = hash_of 6;
    merkle_root = compute_merkle_root_from_txids toy (digest coinbase_tx) (digest body ∷ []);
    time = 1000;
    bits = 11;
    nonce = 99;
  };
  txdata = coinbase_tx ∷ body ∷ [];
}

-- The share chain 80 ← 81.
abbrev pub world : World toy
world = record {
  now = 100;
  chain_tip = some (some (hash_of 80));
  share_header = λ h. if h == hash_of 81 then some (found (some (hash_of 80))) else some genesis;
  tx_bodies = λ template_id. some (body ∷ []);
  proposal = λ block. some accepted;
  submit_reply = λ block. some "null";
  nfkc = λ text. text;
  payout_resolver = some (λ user. some (4 ∷ []));
  meanwhile = λ at s. s;
  between = λ at s. s;
}

abbrev pub tdp : TdpHandle
tdp = record {
  pending_requests = [];
  last_prev_hash = some (record { prev_hash = hash_of 6; n_bits = 11; header_timestamp = 3 });
  last_template = some 4;
}

-- An engine that has cached the job, and bound the user `A` to the token.
abbrev pub engine : Engine
engine = record {
  declared_jobs = (3, job) ∷ [];
  allocated_tokens = (2, 3) ∷ [];
  token_payout = (2, 4 ∷ []) ∷ [];
  user_identifier_index = (65 ∷ [], 2) ∷ [];
  recent_solutions = record { inner = []; ttl = 30 };
  handles = true;
  tdp = some tdp;
  metrics = none;
}
