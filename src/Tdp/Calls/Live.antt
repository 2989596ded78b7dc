-- ===== src/Tdp/Calls/Live.antt =====
-- The map of pending requests against the calls: no entry outlives its call, and whose it is.
use sv2_p2pool.Prelude.{ℕ, nat_eq, ◌≡◌, Option, some}
use sv2_p2pool.Prelude.Assoc
use sv2_p2pool.Bitcoin.{Bitcoin}
use sv2_p2pool.Tdp.Calls.{Phase, fresh, sends, waits, cleans, finished, empty, Calls}

module _ {b : Bitcoin} where
  -- A call that has registered for the template and has not returned.
  abbrev pub IsCalling : ℕ → Phase b → Type 0
  IsCalling t fresh = ⊥
  IsCalling t (sends u) = u ≡ t
  IsCalling t (waits u) = u ≡ t
  IsCalling t (cleans u e) = u ≡ t
  IsCalling t (finished result) = ⊥

  abbrev Owner : Calls b → ℕ → ℕ → Type 0
  Owner s t c = IsCalling t (s.phase c) × (s.one_shot c ≡ empty)

  -- Every entry of the map is of a call for its template that goes on, and whose one-shot still has
  -- its sender there.
  pub record IsLive (s : Calls b) : Type 0 where
    pub live :
        (t c : ℕ)
        → Assoc.get t s.tdp.pending_requests ≡ some c
        → IsCalling t (s.phase c) × (s.one_shot c ≡ empty)
