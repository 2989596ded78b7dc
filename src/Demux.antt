-- ===== src/Demux.antt =====
-- crates/sv2-p2pool-pool/src/tdp_demux.rs: the tee of the Template Provider's messages, which shows
-- each to the engine's TDP handle and forwards it to the channel manager. `cm_output` is the number
-- of sends that succeed before the channel is closed.
pub mod Tee
pub mod Merge
use sv2_p2pool.Prelude.{ℕ, zero, suc, Bytes, List, [], ◌∷◌, ◌++◌, Option, none, some}
use sv2_p2pool.Tdp.{
  SetNewPrevHash, TdpHandle, TxDataResult, success, error, record_set_new_prev_hash,
  record_new_template, deliver_response,
}

-- `TemplateDistribution`, with the fields that the tee reads; other messages by a number.
pub data TemplateDistribution : Type 0 where
  set_new_prev_hash : SetNewPrevHash → TemplateDistribution
  new_template : (template_id : ℕ) → TemplateDistribution
  request_transaction_data_success :
      (template_id : ℕ) → (transaction_list : List Bytes) → TemplateDistribution
  request_transaction_data_error : (template_id : ℕ) → (error_code : Bytes) → TemplateDistribution
  other : ℕ → TemplateDistribution

-- A response that went to a waiting call, by its template.
pub record Delivery : Type 0 where
  pub template_id : ℕ
  pub caller : ℕ
  pub result : TxDataResult

abbrev pub delivery_to : ℕ → TxDataResult → Option ℕ → List Delivery
delivery_to template_id result none = []
delivery_to template_id result (some caller) =
    record { template_id = template_id; caller = caller; result = result } ∷ []

-- The engine's handle after a message, and the deliveries.
unfoldable pub observe : TemplateDistribution → TdpHandle → TdpHandle × List Delivery
observe (set_new_prev_hash message) tdp = (record_set_new_prev_hash message tdp, [])
observe (new_template template_id) tdp = (record_new_template template_id tdp, [])
observe (request_transaction_data_success template_id transaction_list) tdp =
    let (tdp', waiter) = deliver_response template_id tdp in
    (tdp', delivery_to template_id (success transaction_list) waiter)
observe (request_transaction_data_error template_id error_code) tdp =
    let (tdp', waiter) = deliver_response template_id tdp in
    (tdp', delivery_to template_id (error error_code) waiter)
observe (other tag) tdp = (tdp, [])

pub record Teed : Type 0 where
  pub tdp : TdpHandle
  pub forwarded : List TemplateDistribution
  pub delivered : List Delivery

abbrev pub then_teed : TemplateDistribution → List Delivery → Teed → Teed
then_teed message deliveries rest = record {
  tdp = rest.tdp;
  forwarded = message ∷ rest.forwarded;
  delivered = deliveries ++ rest.delivered;
}

-- The loop: a message is observed, then forwarded; where that fails, the task ends.
unfoldable pub tee : (cm_output : ℕ) → List TemplateDistribution → TdpHandle → Teed
tee cm_output [] tdp = record { tdp = tdp; forwarded = []; delivered = [] }
tee zero (message ∷ rest) tdp =
    let (tdp', deliveries) = observe message tdp in
    record { tdp = tdp'; forwarded = []; delivered = deliveries }
tee (suc cm_output) (message ∷ rest) tdp =
    let (tdp', deliveries) = observe message tdp in
    then_teed message deliveries (tee cm_output rest tdp')
