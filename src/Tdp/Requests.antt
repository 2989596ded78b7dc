-- ===== src/Tdp/Requests.antt =====
-- The requests of crates/sv2-p2pool-engine/src/tdp.rs: who gets a response, and what it decodes to.
use sv2_p2pool.Prelude.{
  ℕ, ◌≡◌, ◌≢◌, refl, ◌∙◌, ap, ap₂, ◌↔◌, ◌==◌, Bytes, List, [], ◌∷◌, map, Option, none, some,
  is_some, nat_eq, nat_eqb_iff, arith, Bool-cases, inl, inr,
}
use sv2_p2pool.Prelude.Assoc
use sv2_p2pool.Prelude.Assoc.{get-insert, get-insert_self, get-remove, get-remove_self}
use sv2_p2pool.Prelude.Flow.{
  Flow, next, exit, panic, or_exit, >>=-eq-next, or_exit-eq-next, next-injective,
}
use sv2_p2pool.Bitcoin.{Bitcoin}
use sv2_p2pool.Tdp.{
  TdpHandle, SetNewPrevHash, TdpError, decode_failed, duplicate_request, record_set_new_prev_hash,
  record_new_template, register, forget, deliver_response, decode_bodies,
}

-- What the tasks do to the handle between two looks of a call: other calls register and clean up,
-- the demux delivers responses and moves the snapshots.
pub data Operation : Type 0 where
  registers : (template_id caller : ℕ) → Operation
  forgets delivers : (template_id : ℕ) → Operation
  moves_tip : SetNewPrevHash → Operation
  moves_template : (template_id : ℕ) → Operation

-- A refused registration leaves the handle as it is.
abbrev pub or_same : TdpHandle → Flow TdpError TdpHandle → TdpHandle
or_same tdp (next tdp') = tdp'
or_same tdp (exit e) = tdp
or_same tdp panic = tdp

pub step : Operation → TdpHandle → TdpHandle
step (registers template_id caller) tdp = or_same tdp (register template_id caller tdp)
step (forgets template_id) tdp = forget template_id tdp
step (delivers template_id) tdp = (deliver_response template_id tdp).0
step (moves_tip message) tdp = record_set_new_prev_hash message tdp
step (moves_template template_id) tdp = record_new_template template_id tdp

pub run : List Operation → TdpHandle → TdpHandle
run [] tdp = tdp
run (operation ∷ rest) tdp = run rest (step operation tdp)

-- No response for the template is delivered, and no call for it cleans up.
abbrev pub Undisturbed : ℕ → List Operation → Type 0
Undisturbed t [] = Unit {0}
Undisturbed t (registers u caller ∷ rest) = Undisturbed t rest
Undisturbed t (forgets u ∷ rest) = (u ≢ t) × Undisturbed t rest
Undisturbed t (delivers u ∷ rest) = (u ≢ t) × Undisturbed t rest
Undisturbed t (moves_tip message ∷ rest) = Undisturbed t rest
Undisturbed t (moves_template u ∷ rest) = Undisturbed t rest

-- No call for the template registers.
abbrev pub Unasked : ℕ → List Operation → Type 0
Unasked t [] = Unit {0}
Unasked t (registers u caller ∷ rest) = (u ≢ t) × Unasked t rest
Unasked t (forgets u ∷ rest) = Unasked t rest
Unasked t (delivers u ∷ rest) = Unasked t rest
Unasked t (moves_tip message ∷ rest) = Unasked t rest
Unasked t (moves_template u ∷ rest) = Unasked t rest

abbrev waits : ℕ → TdpHandle → Option ℕ
waits t tdp = Assoc.get t tdp.pending_requests

waits-register_other :
    (t u caller : ℕ) (tdp : TdpHandle)
    → u ≢ t
    → waits t (or_same tdp (register u caller tdp)) ≡ waits t tdp
unfolding register
waits-register_other t u caller tdp apart =
    elim (Bool-cases (is_some (Assoc.get u tdp.pending_requests))) [
      | inl taken ↦ rw taken
      | inr free ↦
          rw free
            (ground (arith, get-insert u t caller tdp.pending_requests, nat_eqb_iff u t, apart))
    ]

waits-register_same :
    (t u caller c : ℕ) (tdp : TdpHandle)
    → waits t tdp ≡ some c
    → waits t (or_same tdp (register u caller tdp)) ≡ some c
unfolding register
waits-register_same t u caller c tdp h = elim (Bool-cases (u == t)) [
  | inl same ↦ let e : u ≡ t = (nat_eqb_iff u t).0 same in rw (e, h) h
  | inr apart ↦
      waits-register_other t u caller tdp (λ e. absurd (ground (arith, nat_eqb_iff u t))) ∙ h
]

waits-run :
    (t c : ℕ) (operations : List Operation) (tdp : TdpHandle)
    → Undisturbed t operations
    → waits t tdp ≡ some c
    → waits t (run operations tdp) ≡ some c
unfolding run step forget deliver_response record_set_new_prev_hash record_new_template
waits-run t c [] tdp calm h = h
waits-run t c (registers u caller ∷ rest) tdp calm h =
    waits-run t c rest _ calm (waits-register_same t u caller c tdp h)
waits-run t c (forgets u ∷ rest) tdp calm h =
    waits-run t c rest (forget u tdp) calm.1
      (ground (arith, get-remove u t tdp.pending_requests, nat_eqb_iff u t, calm.0))
waits-run t c (delivers u ∷ rest) tdp calm h =
    waits-run t c rest (forget u tdp) calm.1
      (ground (arith, get-remove u t tdp.pending_requests, nat_eqb_iff u t, calm.0))
waits-run t c (moves_tip message ∷ rest) tdp calm h =
    waits-run t c rest (record_set_new_prev_hash message tdp) calm h
waits-run t c (moves_template u ∷ rest) tdp calm h =
    waits-run t c rest (record_new_template u tdp) calm h

-- While a call waits, the response for its template goes to it, whatever else happens, as long as
-- no response for that template was delivered and no call for it cleaned up; and until then no
-- other call for the template is let in.
deliver-register :
    (t c other : ℕ) (operations : List Operation) (tdp tdp' : TdpHandle)
    → register t c tdp ≡ next tdp'
    → Undisturbed t operations
    → ((deliver_response t (run operations tdp')).1 ≡ some c)
      × (register t other (run operations tdp') ≡ exit (duplicate_request t))
unfolding deliver_response register
deliver-register t c other operations tdp tdp' h calm = (there, ground (arith, there))
  where
    registered : waits t tdp' ≡ some c
    registered = elim (Bool-cases (is_some (Assoc.get t tdp.pending_requests))) [
      | inl taken ↦ absurd (ground (arith, taken, h))
      | inr free ↦
          let asked : TdpHandle = record tdp {
            pending_requests = Assoc.insert t c tdp.pending_requests;
          } in
          let went : ◌≡◌ {A = Flow TdpError TdpHandle} (next asked) (next tdp') =
            ground (arith, free, h) in
          rw (← next-injective went) (get-insert_self t c tdp.pending_requests)
    ]

    there : waits t (run operations tdp') ≡ some c
    there = waits-run t c operations tdp' calm registered

waits-run-none :
    (t : ℕ) (operations : List Operation) (tdp : TdpHandle)
    → Unasked t operations
    → waits t tdp ≡ none
    → waits t (run operations tdp) ≡ none
unfolding run step forget deliver_response record_set_new_prev_hash record_new_template
waits-run-none t [] tdp calm h = h
waits-run-none t (registers u caller ∷ rest) tdp calm h =
    waits-run-none t rest _ calm.1 (waits-register_other t u caller tdp calm.0 ∙ h)
waits-run-none t (forgets u ∷ rest) tdp calm h =
    waits-run-none t rest (forget u tdp) calm (ground (arith, get-remove u t tdp.pending_requests))
waits-run-none t (delivers u ∷ rest) tdp calm h =
    waits-run-none t rest (forget u tdp) calm (ground (arith, get-remove u t tdp.pending_requests))
waits-run-none t (moves_tip message ∷ rest) tdp calm h =
    waits-run-none t rest (record_set_new_prev_hash message tdp) calm h
waits-run-none t (moves_template u ∷ rest) tdp calm h =
    waits-run-none t rest (record_new_template u tdp) calm h

-- A response is delivered at most once: after a delivery for a template, a later one finds no
-- caller, unless a call for that template registered in between.
pub deliver-deliver :
    (t : ℕ) (operations : List Operation) (tdp : TdpHandle)
    → Unasked t operations
    → (deliver_response t (run operations (deliver_response t tdp).0)).1 ≡ none
unfolding deliver_response forget
deliver-deliver t operations tdp calm =
    waits-run-none t operations (forget t tdp) calm (get-remove_self t tdp.pending_requests)

decode_bodies_sound :
    (b : Bitcoin) (transaction_list : List Bytes) (txs : List b.Transaction)
    → decode_bodies b transaction_list ≡ next txs
    → map b.decode_transaction transaction_list ≡ map some txs
unfolding decode_bodies
decode_bodies_sound b [] txs h = ap (map some) (next-injective h)
decode_bodies_sound b (bytes ∷ rest) txs h =
    let (tx, decoded, h₁) =
      >>=-eq-next (or_exit (b.decode_transaction bytes) decode_failed) _ txs h in
    let (more, h₂, h₃) = >>=-eq-next (decode_bodies b rest) _ txs h₁ in
    rw (← next-injective h₃) (
      ap₂ ◌∷◌ (or_exit-eq-next (b.decode_transaction bytes) decode_failed tx decoded)
        (decode_bodies_sound b rest more h₂))

decode_bodies_complete :
    (b : Bitcoin) (transaction_list : List Bytes) (txs : List b.Transaction)
    → map b.decode_transaction transaction_list ≡ map some txs
    → decode_bodies b transaction_list ≡ next txs
unfolding decode_bodies
decode_bodies_complete b [] [] h = refl
decode_bodies_complete b [] (tx ∷ more) h = cc
decode_bodies_complete b (bytes ∷ rest) [] h = cc
decode_bodies_complete b (bytes ∷ rest) (tx ∷ more) h =
    let head : b.decode_transaction bytes ≡ some tx = cc in
    let tail : map b.decode_transaction rest ≡ map some more = cc in
    rw (head, decode_bodies_complete b rest more tail)

-- The bodies decode all or not at all, in order and number.
pub decode_bodies_iff :
    (b : Bitcoin) (transaction_list : List Bytes) (txs : List b.Transaction)
    → (decode_bodies b transaction_list ≡ next txs)
      ↔ (map b.decode_transaction transaction_list ≡ map some txs)
decode_bodies_iff b transaction_list txs =
    (decode_bodies_sound b transaction_list txs, decode_bodies_complete b transaction_list txs)
