-- ===== src/Tdp/Calls.antt =====
-- Calls of `request_tx_bodies` of tdp.rs in any order, with the responses that the demux delivers: one
-- step for each look at the map of pending requests or at a call's one-shot.
pub mod Live
use sv2_p2pool.Prelude.{ℕ, nat_eq, ◌==◌, ◌≡◌, if◌then◌else◌, List, [], Option, none, some}
use sv2_p2pool.Prelude.Assoc
use sv2_p2pool.Prelude.Flow.{Flow, next, exit}
use sv2_p2pool.Bitcoin.{Bitcoin}
use sv2_p2pool.Tdp.{
  TdpHandle, TxDataResult, TdpError, send_failed, demux_closed, timeout, new, register, forget,
  deliver_response, answered,
}

-- Before the call, steps 2 and 3 of it, the clean-up after a failure, and its return.
pub data Phase (b : Bitcoin) : Type 0 where
  fresh : Phase b
  sends waits : (template_id : ℕ) → Phase b
  cleans : (template_id : ℕ) → TdpError → Phase b
  finished : Flow TdpError (List b.Transaction) → Phase b

-- The one-shot of a call: its sender is in the map, has sent, or was dropped.
pub data OneShot : Type 0 where
  empty : OneShot
  full : TxDataResult → OneShot
  closed : OneShot

pub record Calls (b : Bitcoin) : Type 0 where
  pub tdp : TdpHandle
  pub phase : ℕ → Phase b
  pub one_shot : ℕ → OneShot

abbrev pub at {ℓ} : {A : Type ℓ} → ℕ → A → (ℕ → A) → ℕ → A
at c x f d = if c == d then x else f d

-- What happens to the sender that leaves the map, if one does.
abbrev pub leaves : Option ℕ → OneShot → (ℕ → OneShot) → ℕ → OneShot
leaves none state one_shot = one_shot
leaves (some c) state one_shot = at c state one_shot

module _ {b : Bitcoin} where
  abbrev pub idle : Calls b
  idle = record { tdp = new; phase = λ c. fresh; one_shot = λ c. empty }

  pub data Step : Calls b → Calls b → Type 0 where
    registers :
        {s : Calls b} (c t : ℕ) (tdp : TdpHandle)
        → s.phase c ≡ fresh
        → register t c s.tdp ≡ next tdp
        → Step s
            (record { tdp = tdp; phase = at c (sends t) s.phase; one_shot = at c empty s.one_shot })
    refused :
        {s : Calls b} (c t : ℕ) (e : TdpError)
        → s.phase c ≡ fresh
        → register t c s.tdp ≡ exit e
        → Step s (record s { phase = at c (finished (exit e)) s.phase })
    sent :
        {s : Calls b} (c t : ℕ)
        → s.phase c ≡ sends t
        → Step s (record s { phase = at c (waits t) s.phase })
    send_fails :
        {s : Calls b} (c t : ℕ)
        → s.phase c ≡ sends t
        → Step s (record s { phase = at c (cleans t send_failed) s.phase })
    delivers :
        {s : Calls b} (t : ℕ) (result : TxDataResult)
        → Step s (record s {
          tdp = (deliver_response t s.tdp).0;
          one_shot = leaves (deliver_response t s.tdp).1 (full result) s.one_shot;
        })
    receives :
        {s : Calls b} (c t : ℕ) (result : TxDataResult)
        → s.phase c ≡ waits t
        → s.one_shot c ≡ full result
        → Step s (record s { phase = at c (finished (answered b t result)) s.phase })
    finds_closed :
        {s : Calls b} (c t : ℕ)
        → s.phase c ≡ waits t
        → s.one_shot c ≡ closed
        → Step s (record s { phase = at c (cleans t demux_closed) s.phase })
    times_out :
        {s : Calls b} (c t : ℕ)
        → s.phase c ≡ waits t
        → s.one_shot c ≡ empty
        → Step s (record s { phase = at c (cleans t (timeout t)) s.phase })
    -- The clean-up drops whichever sender stands for the template.
    cleaned :
        {s : Calls b} (c t : ℕ) (e : TdpError)
        → s.phase c ≡ cleans t e
        → Step s (record {
          tdp = forget t s.tdp;
          phase = at c (finished (exit e)) s.phase;
          one_shot = leaves (Assoc.get t s.tdp.pending_requests) closed s.one_shot;
        })

  pub data Reach (s : Calls b) : Calls b → Type 0 where
    here : Reach s s
    later : {t u : Calls b} → Reach s t → Step t u → Reach s u
