-- ===== src/Demux/Tee.antt =====
-- What the tee forwards, what the engine's handle learns, and who gets a response.
use sv2_p2pool.Prelude.{
  ℕ, zero, suc, ◌≤◌, ◌≡◌, refl, sym, ap, subst, ◌∙◌, false, if◌then◌else◌, ◌==◌, nat_eq,
  nat_eqb_iff, List, [], ◌∷◌, ◌++◌, Option, none, some, length, arith, Bool-cases, inl, inr,
}
use sv2_p2pool.Prelude.Assoc
use sv2_p2pool.Prelude.Assoc.{get-remove}
use sv2_p2pool.Tdp.{
  SetNewPrevHash, TdpHandle, TxDataResult, success, error, record_set_new_prev_hash,
  record_new_template, deliver_response, forget,
}
use sv2_p2pool.Demux.{
  TemplateDistribution, set_new_prev_hash, new_template, request_transaction_data_success,
  request_transaction_data_error, other, Delivery, delivery_to, observe, tee,
}

-- As long as the channel manager takes every message, it gets exactly the Template Provider's
-- stream: nothing dropped, added, changed or reordered.
pub tee-forwarded :
    (cm_output : ℕ) (messages : List TemplateDistribution) (tdp : TdpHandle)
    → length messages ≤ cm_output
    → (tee cm_output messages tdp).forwarded ≡ messages
unfolding tee
tee-forwarded cm_output [] tdp enough = refl
tee-forwarded zero (message ∷ rest) tdp enough = absurd (omega arith)
tee-forwarded (suc cm_output) (message ∷ rest) tdp enough =
    ap (◌∷◌ message) (tee-forwarded cm_output rest (observe message tdp).0 (omega arith))

-- The last tip and the last template that a stream announces.
pub last_tip : Option SetNewPrevHash → List TemplateDistribution → Option SetNewPrevHash
last_tip tip [] = tip
last_tip tip (set_new_prev_hash message ∷ rest) = last_tip (some message) rest
last_tip tip (new_template template_id ∷ rest) = last_tip tip rest
last_tip tip (request_transaction_data_success template_id txs ∷ rest) = last_tip tip rest
last_tip tip (request_transaction_data_error template_id code ∷ rest) = last_tip tip rest
last_tip tip (other tag ∷ rest) = last_tip tip rest

pub last_announced : Option ℕ → List TemplateDistribution → Option ℕ
last_announced template [] = template
last_announced template (set_new_prev_hash message ∷ rest) = last_announced template rest
last_announced template (new_template template_id ∷ rest) = last_announced (some template_id) rest
last_announced template (request_transaction_data_success template_id txs ∷ rest) =
    last_announced template rest
last_announced template (request_transaction_data_error template_id code ∷ rest) =
    last_announced template rest
last_announced template (other tag ∷ rest) = last_announced template rest

-- After a stream that was forwarded whole, the engine's snapshots are the last tip and the last
-- template that it announced, or the old ones where it announced none.
pub tee-snapshots :
    (cm_output : ℕ) (messages : List TemplateDistribution) (tdp : TdpHandle)
    → length messages ≤ cm_output
    → ((tee cm_output messages tdp).tdp.last_prev_hash ≡ last_tip tdp.last_prev_hash messages)
      × ((tee cm_output messages tdp).tdp.last_template ≡ last_announced tdp.last_template messages)
unfolding tee observe last_tip last_announced record_set_new_prev_hash record_new_template
    deliver_response forget
tee-snapshots cm_output [] tdp enough = (refl, refl)
tee-snapshots zero (message ∷ rest) tdp enough = absurd (omega arith)
tee-snapshots (suc n) (set_new_prev_hash message ∷ rest) tdp enough =
    tee-snapshots n rest (record_set_new_prev_hash message tdp) (omega arith)
tee-snapshots (suc n) (new_template template_id ∷ rest) tdp enough =
    tee-snapshots n rest (record_new_template template_id tdp) (omega arith)
tee-snapshots (suc n) (request_transaction_data_success template_id txs ∷ rest) tdp enough =
    tee-snapshots n rest (forget template_id tdp) (omega arith)
tee-snapshots (suc n) (request_transaction_data_error template_id code ∷ rest) tdp enough =
    tee-snapshots n rest (forget template_id tdp) (omega arith)
tee-snapshots (suc n) (other tag ∷ rest) tdp enough = tee-snapshots n rest tdp (omega arith)

-- The first response for a template in a stream.
pub first_response : ℕ → List TemplateDistribution → Option TxDataResult
first_response t [] = none
first_response t (set_new_prev_hash message ∷ rest) = first_response t rest
first_response t (new_template template_id ∷ rest) = first_response t rest
first_response t (request_transaction_data_success template_id txs ∷ rest) =
    let later = first_response t rest in if template_id == t then some (success txs) else later
first_response t (request_transaction_data_error template_id code ∷ rest) =
    let later = first_response t rest in if template_id == t then some (error code) else later
first_response t (other tag ∷ rest) = first_response t rest

-- The deliveries for a template.
pub deliveries_for : ℕ → List Delivery → List Delivery
deliveries_for t [] = []
deliveries_for t (delivery ∷ rest) =
    let later = deliveries_for t rest in
    if delivery.template_id == t then delivery ∷ later else later

abbrev pub answer : ℕ → Option ℕ → Option TxDataResult → List Delivery
answer t none response = []
answer t (some caller) none = []
answer t (some caller) (some result) =
    record { template_id = t; caller = caller; result = result } ∷ []

module _ (t : ℕ) (tdp : TdpHandle) (later : List TemplateDistribution) (delivered : List Delivery)
    (result : TxDataResult) where
  answered_same :
      deliveries_for t delivered
        ≡ answer t (Assoc.get t (forget t tdp).pending_requests) (first_response t later)
      → deliveries_for t (delivery_to t result (Assoc.get t tdp.pending_requests) ++ delivered)
        ≡ answer t (Assoc.get t tdp.pending_requests) (some result)
  unfolding forget deliveries_for
  answered_same ih = go (Assoc.get t tdp.pending_requests)
    where
      nothing : deliveries_for t delivered ≡ []
      nothing = ground (arith, ih, get-remove t t tdp.pending_requests, nat_eqb_iff t t)

      go :
          (o : Option ℕ)
          → deliveries_for t (delivery_to t result o ++ delivered) ≡ answer t o (some result)
      go none = nothing
      go (some caller) = ground (arith, nothing, nat_eqb_iff t t)

  answered_other :
      (u : ℕ)
      → (u == t) ≡ false
      → deliveries_for t delivered
        ≡ answer t (Assoc.get t (forget u tdp).pending_requests) (first_response t later)
      → deliveries_for t (delivery_to u result (Assoc.get u tdp.pending_requests) ++ delivered)
        ≡ answer t (Assoc.get t tdp.pending_requests) (first_response t later)
  unfolding forget deliveries_for
  answered_other u apart ih = passes (Assoc.get u tdp.pending_requests) ∙ (ih ∙ unmoved)
    where
      passes :
          (o : Option ℕ)
          → deliveries_for t (delivery_to u result o ++ delivered) ≡ deliveries_for t delivered
      passes none = refl
      passes (some caller) = ground (arith, apart)

      unmoved :
          answer t (Assoc.get t (forget u tdp).pending_requests) (first_response t later)
          ≡ answer t (Assoc.get t tdp.pending_requests) (first_response t later)
      unmoved =
          ap (λ o. answer t o (first_response t later))
            (ground (arith, apart, get-remove u t tdp.pending_requests))

  answered :
      (u : ℕ)
      → deliveries_for t delivered
        ≡ answer t (Assoc.get t (forget u tdp).pending_requests) (first_response t later)
      → deliveries_for t (delivery_to u result (Assoc.get u tdp.pending_requests) ++ delivered)
        ≡ answer t
            (Assoc.get t tdp.pending_requests)
            (if u == t then some result else first_response t later)
  answered u ih = elim (Bool-cases (u == t)) [
    | inl same ↦ rw same (
        subst
          (λ x.
            deliveries_for t delivered
              ≡ answer t (Assoc.get t (forget x tdp).pending_requests) (first_response t later)
            → deliveries_for t
                (delivery_to x result (Assoc.get x tdp.pending_requests) ++ delivered)
              ≡ answer t (Assoc.get t tdp.pending_requests) (some result))
          (sym ((nat_eqb_iff u t).0 same)) answered_same ih)
    | inr apart ↦ rw apart (answered_other u apart ih)
  ]

-- Of a stream that is forwarded whole, the first response for a template goes to the call that
-- waits for that template, if one does, and no other delivery is made for it, when no call
-- registers or cleans up meanwhile.
pub tee-answer :
    (t cm_output : ℕ) (messages : List TemplateDistribution) (tdp : TdpHandle)
    → length messages ≤ cm_output
    → deliveries_for t (tee cm_output messages tdp).delivered
      ≡ answer t (Assoc.get t tdp.pending_requests) (first_response t messages)
unfolding tee observe first_response deliver_response record_set_new_prev_hash record_new_template
tee-answer t cm_output [] tdp enough = go (Assoc.get t tdp.pending_requests)
  where
    go : (o : Option ℕ) → deliveries_for t [] ≡ answer t o none
    go none = unfold deliveries_for in refl
    go (some caller) = unfold deliveries_for in refl
tee-answer t zero (message ∷ rest) tdp enough = absurd (omega arith)
tee-answer t (suc n) (set_new_prev_hash message ∷ rest) tdp enough =
    tee-answer t n rest (record_set_new_prev_hash message tdp) (omega arith)
tee-answer t (suc n) (new_template template_id ∷ rest) tdp enough =
    tee-answer t n rest (record_new_template template_id tdp) (omega arith)
tee-answer t (suc n) (request_transaction_data_success u txs ∷ rest) tdp enough =
    answered t tdp rest (tee n rest (forget u tdp)).delivered (success txs) u
      (tee-answer t n rest (forget u tdp) (omega arith))
tee-answer t (suc n) (request_transaction_data_error u code ∷ rest) tdp enough =
    answered t tdp rest (tee n rest (forget u tdp)).delivered (error code) u
      (tee-answer t n rest (forget u tdp) (omega arith))
tee-answer t (suc n) (other tag ∷ rest) tdp enough = tee-answer t n rest tdp (omega arith)
