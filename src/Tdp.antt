-- ===== src/Tdp.antt =====
-- crates/sv2-p2pool-engine/src/tdp.rs: the bridge to the Template Distribution Protocol. A call of
-- `request_tx_bodies` is named by a number, its one-shot channel: the phases of the call are
-- separate operations, since it awaits in between. Locks are not poisoned.
pub mod Requests
pub mod Calls
use sv2_p2pool.Prelude.{
  ℕ, nat_eq, Bool, true, false, if◌then◌else◌, Bytes, List, [], ◌∷◌, Option, none, some, is_some,
}
use sv2_p2pool.Prelude.Assoc
use sv2_p2pool.Prelude.Assoc.{Assoc}
use sv2_p2pool.Prelude.Flow.{Flow, next, exit, or_exit, require, ◌>>=◌, ◌>>◌}
use sv2_p2pool.Bitcoin.{to_hash, Bitcoin}
use sv2_p2pool.Jobs.{TipMetadata}

-- `template_distribution_sv2::SetNewPrevHash`, the fields that are read
pub record SetNewPrevHash : Type 0 where
  pub prev_hash : Bytes
  pub n_bits : ℕ
  pub header_timestamp : ℕ

pub record TdpHandle : Type 0 where
  pub pending_requests : Assoc ℕ ℕ
  pub last_prev_hash : Option SetNewPrevHash
  pub last_template : Option ℕ

pub data TxDataResult : Type 0 where
  success : List Bytes → TxDataResult
  error : Bytes → TxDataResult

pub data TdpError : Type 0 where
  duplicate_request : ℕ → TdpError
  send_failed : TdpError
  demux_closed : TdpError
  timeout : ℕ → TdpError
  tp_rejected : ℕ → Bytes → TdpError
  decode_failed : TdpError

abbrev pub new : TdpHandle
new = record { pending_requests = []; last_prev_hash = none; last_template = none }

unfoldable pub current_tip : TdpHandle → Option TipMetadata
current_tip tdp = elim tdp.last_prev_hash [
  | none ↦ none
  | some message ↦ elim (to_hash message.prev_hash) [
    | none ↦ none
    | some prev_hash ↦ some (record {
      prev_hash = prev_hash;
      nbits = message.n_bits;
      min_ntime = message.header_timestamp;
    })
  ]
]

abbrev pub current_template_id : TdpHandle → Option ℕ
current_template_id tdp = tdp.last_template

unfoldable pub record_set_new_prev_hash : SetNewPrevHash → TdpHandle → TdpHandle
record_set_new_prev_hash message tdp = record tdp { last_prev_hash = some message }

-- The message's `template_id`, the only field that is read.
unfoldable pub record_new_template : ℕ → TdpHandle → TdpHandle
record_new_template template_id tdp = record tdp { last_template = some template_id }

-- Step 1 of `request_tx_bodies`: register the call before sending.
unfoldable pub register : ℕ → ℕ → TdpHandle → Flow TdpError TdpHandle
register template_id caller tdp =
    if is_some (Assoc.get template_id tdp.pending_requests)
    then exit (duplicate_request template_id)
    else next
        (record tdp { pending_requests = Assoc.insert template_id caller tdp.pending_requests })

-- The clean-up of steps 2 and 3, after a failed send, a dropped one-shot or a timeout.
unfoldable pub forget : ℕ → TdpHandle → TdpHandle
forget template_id tdp = record tdp {
  pending_requests = Assoc.remove template_id tdp.pending_requests;
}

-- `deliver_response`: the handle, and the call that the response goes to. Whether that call still
-- listens is not the handle's state: `true` is returned if it does.
unfoldable pub deliver_response : ℕ → TdpHandle → TdpHandle × Option ℕ
unfolding forget
deliver_response template_id tdp =
    (forget template_id tdp, Assoc.get template_id tdp.pending_requests)

-- The loop of step 4 over the transaction list.
unfoldable pub decode_bodies : (b : Bitcoin) → List Bytes → Flow TdpError (List b.Transaction)
decode_bodies b [] = next []
decode_bodies b (tx_bytes ∷ rest) = do
  tx ← or_exit (b.decode_transaction tx_bytes) decode_failed
  txs ← decode_bodies b rest
  next (tx ∷ txs)

-- Steps 3 and 4 for a call that got its response.
unfoldable pub answered : (b : Bitcoin) → ℕ → TxDataResult → Flow TdpError (List b.Transaction)
unfolding decode_bodies
answered b template_id (success transaction_list) = decode_bodies b transaction_list
answered b template_id (error code) = exit (tp_rejected template_id code)
