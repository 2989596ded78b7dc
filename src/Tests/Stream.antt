-- ===== src/Tests/Stream.antt =====
-- A stream of the Template Provider through the tee.
use sv2_p2pool.Prelude.{◌≡◌, List, [], ◌∷◌, arith, nat_eq}
use sv2_p2pool.Prelude.Assoc
use sv2_p2pool.Tdp.{TdpHandle}
use sv2_p2pool.Demux.{
  TemplateDistribution, set_new_prev_hash, new_template, request_transaction_data_success,
  request_transaction_data_error, other, tee,
}
use sv2_p2pool.Demux.Tee.{tee-answer, first_response, deliveries_for, answer}
use sv2_p2pool.Tests.{hash_of, body, tdp}

abbrev stream : List TemplateDistribution
stream =
    new_template 5
    ∷ set_new_prev_hash (record { prev_hash = hash_of 12; n_bits = 13; header_timestamp = 14 })
    ∷ request_transaction_data_error 4 (1 ∷ [])
    ∷ request_transaction_data_success 4 (body ∷ [])
    ∷ other 0
    ∷ []

abbrev waiting : TdpHandle
waiting = record tdp { pending_requests = (4, 77) ∷ (6, 78) ∷ [] }

tee-answer_example :
    deliveries_for 4 (tee 5 stream waiting).delivered
    ≡ answer 4 (Assoc.get 4 waiting.pending_requests) (first_response 4 stream)
tee-answer_example = tee-answer 4 5 stream waiting (omega arith)
