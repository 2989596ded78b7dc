-- ===== src/RecentSolutions/Credit.antt =====
-- Histories of calls: each credit is claimed at most once, in time, and for the block recorded last.
use sv2_p2pool.Prelude.{
  ℕ, ◌-◌, ◌≤◌, ◌≡◌, ◌≢◌, ◌∙◌, refl, subst, if◌then◌else◌, List, [], ◌∷◌, Option, none, some, leb,
  arith, bytes_eq, bytes_eqb, bytes_eqb_iff,
}
use sv2_p2pool.Prelude.Assoc
use sv2_p2pool.Prelude.Assoc.{
  IsMap, kept, insert-IsMap, remove-IsMap, retain-IsMap, get-retain-none, get-insert, get-remove,
  get-remove_self, get-retain,
}
use sv2_p2pool.Bitcoin.{Hash}
use sv2_p2pool.RecentSolutions.{Entry, RecentSolutions, new, recorded, claim, take, sweep}

pub data Call : Type 0 where
  records : Hash → Hash → Call
  takes : Hash → Call
  sweeps : Call

-- The buffer after a call at a moment, and what the call returned.
pub step : RecentSolutions → ℕ → Call → RecentSolutions × Option Hash
step buf now (records share block) = (recorded buf now share block, none)
step buf now (takes share) = take buf now share
step buf now sweeps = (sweep buf now, none)

-- The buffer after a history of calls, each with its moment.
pub run : RecentSolutions → List (ℕ × Call) → RecentSolutions
run buf [] = buf
run buf ((now, call) ∷ calls) = run (step buf now call).0 calls

-- The specification: the last record of a share that no `take` has claimed. It forgets sweeps.
pub credit : Hash → Option Entry → List (ℕ × Call) → Option Entry
credit share pending [] = pending
credit share pending ((now, records s block) ∷ calls) =
    credit share
      (if bytes_eqb s share
        then some (record { recorded_at = now; block_hash = block })
        else pending)
      calls
credit share pending ((now, takes s) ∷ calls) =
    credit share (if bytes_eqb s share then none else pending) calls
credit share pending ((now, sweeps) ∷ calls) = credit share pending calls

-- The moments of a history do not fall, from `start` up to `end`.
abbrev pub Ordered : ℕ → List (ℕ × Call) → ℕ → Type 0
Ordered start [] end = start ≤ end
Ordered start ((now, call) ∷ calls) end = (start ≤ now) × Ordered now calls end

-- From `start` on, the buffer's entry for the share is worth as much as the pending credit.
record Agrees (share : Hash) (start : ℕ) (buf : RecentSolutions) (pending : Option Entry)
    : Type 0 where
  is_map : IsMap buf.inner
  worth :
      (now : ℕ)
      → start ≤ now
      → claim buf.ttl now (Assoc.get share buf.inner) ≡ claim buf.ttl now pending

-- An entry that a sweep drops is worth nothing from then on.
claim-kept :
    (ttl swept now : ℕ) (o : Option Entry)
    → swept ≤ now
    → claim ttl now (kept (λ e. leb (swept - e.recorded_at) ttl) o) ≡ claim ttl now o
claim-kept ttl swept now none h = refl
claim-kept ttl swept now (some e) h = ground arith

module _ (share : Hash) (start : ℕ) (buf : RecentSolutions) (pending : Option Entry) where
  recorded-Agrees :
      (now : ℕ) (s block : Hash)
      → start ≤ now
      → Agrees share start buf pending
      → Agrees share now (recorded buf now s block) (
          if bytes_eqb s share
          then some (record { recorded_at = now; block_hash = block })
          else pending)
  unfolding recorded
  recorded-Agrees now s block h a = record {
    is_map = insert-IsMap s _ buf.inner a.is_map;
    worth = λ later le.
        rw (get-insert s share (record { recorded_at = now; block_hash = block }) buf.inner)
          (ground (arith, a.worth later));
  }

  take-Agrees :
      (now : ℕ) (s : Hash)
      → start ≤ now
      → Agrees share start buf pending
      → Agrees share now (take buf now s).0 (if bytes_eqb s share then none else pending)
  unfolding take
  take-Agrees now s h a = record {
    is_map = remove-IsMap s buf.inner a.is_map;
    worth = λ later le. rw (get-remove s share buf.inner) (ground (arith, a.worth later));
  }

  sweep-Agrees :
      (now : ℕ)
      → start ≤ now
      → Agrees share start buf pending
      → Agrees share now (sweep buf now) pending
  unfolding sweep
  sweep-Agrees now h a = record {
    is_map = retain-IsMap _ buf.inner a.is_map;
    worth = λ later le.
        rw (get-retain (λ _ e. leb (now - e.recorded_at) buf.ttl) share buf.inner a.is_map) (
          claim-kept buf.ttl now later (Assoc.get share buf.inner) le
          ∙ a.worth later (omega arith));
  }

run-Agrees :
    (share : Hash) (start end : ℕ) (buf : RecentSolutions) (pending : Option Entry)
    (calls : List (ℕ × Call))
    → Ordered start calls end
    → Agrees share start buf pending
    → Agrees share end (run buf calls) (credit share pending calls)
unfolding run step credit
run-Agrees share start end buf pending [] o a = record {
  is_map = a.is_map;
  worth = λ now le. a.worth now (omega arith);
}
run-Agrees share start end buf pending ((now, records s block) ∷ calls) o a =
    run-Agrees share now end _ _ calls o.1
      (recorded-Agrees share start buf pending now s block o.0 a)
run-Agrees share start end buf pending ((now, takes s) ∷ calls) o a =
    run-Agrees share now end _ _ calls o.1 (take-Agrees share start buf pending now s o.0 a)
run-Agrees share start end buf pending ((now, sweeps) ∷ calls) o a =
    run-Agrees share now end _ _ calls o.1 (sweep-Agrees share start buf pending now o.0 a)

new-Agrees : (share : Hash) (ttl start : ℕ) → Agrees share start (new ttl) none
unfolding new Assoc.get
new-Agrees share ttl start = record { is_map = tt; worth = λ _ _. refl }

ttl-run : (buf : RecentSolutions) (calls : List (ℕ × Call)) → (run buf calls).ttl ≡ buf.ttl
unfolding run step recorded take sweep
ttl-run buf [] = refl
ttl-run buf ((now, records s block) ∷ calls) = ttl-run (recorded buf now s block) calls
ttl-run buf ((now, takes s) ∷ calls) = ttl-run (take buf now s).0 calls
ttl-run buf ((now, sweeps) ∷ calls) = ttl-run (sweep buf now) calls

ttl-new : (ttl : ℕ) → (new ttl).ttl ≡ ttl
unfolding new
ttl-new ttl = refl

-- After any history of a new buffer whose moments do not fall, `take` returns the block recorded
-- last for the share and not yet taken, if it is at most `ttl` old, and `none` otherwise: sweeping
-- at any of these moments changes no answer.
pub take-run :
    (ttl now : ℕ) (share : Hash) (calls : List (ℕ × Call))
    → Ordered 0 calls now
    → (take (run (new ttl) calls) now share).1 ≡ claim ttl now (credit share none calls)
unfolding take
take-run ttl now share calls o =
    let a = run-Agrees share 0 now (new ttl) none calls o (new-Agrees share ttl 0) in
    let same : (run (new ttl) calls).ttl ≡ ttl = ttl-run (new ttl) calls ∙ ttl-new ttl in
    subst
      (λ t.
        claim (run (new ttl) calls).ttl now (Assoc.get share (run (new ttl) calls).inner)
        ≡ claim t now (credit share none calls))
      same (a.worth now (omega arith))

abbrev pub NoRecord : Hash → List (ℕ × Call) → Type 0
NoRecord share [] = Unit {0}
NoRecord share ((now, records s block) ∷ calls) = (s ≢ share) × NoRecord share calls
NoRecord share ((now, takes s) ∷ calls) = NoRecord share calls
NoRecord share ((now, sweeps) ∷ calls) = NoRecord share calls

-- While no `record` of the share follows, an absent credit stays absent.
get-run-none :
    (share : Hash) (buf : RecentSolutions) (calls : List (ℕ × Call))
    → NoRecord share calls
    → Assoc.get share buf.inner ≡ none
    → Assoc.get share (run buf calls).inner ≡ none
unfolding run step recorded take sweep
get-run-none share buf [] n h = h
get-run-none share buf ((now, records s block) ∷ calls) n h =
    get-run-none share (recorded buf now s block) calls n.1 (
      ground (
        arith,
        get-insert s share (record { recorded_at = now; block_hash = block }) buf.inner,
        bytes_eqb_iff s share,
        n.0,
      ))
get-run-none share buf ((now, takes s) ∷ calls) n h =
    get-run-none share (take buf now s).0 calls n (ground (arith, get-remove s share buf.inner))
get-run-none share buf ((now, sweeps) ∷ calls) n h =
    get-run-none share (sweep buf now) calls n (get-retain-none _ share buf.inner h)

-- A credit is claimed at most once: after `take` of a share every later `take` of it returns
-- `none`, whatever is called in between, as long as the share is not recorded again.
pub take-take :
    (buf : RecentSolutions) (now later : ℕ) (share : Hash) (calls : List (ℕ × Call))
    → NoRecord share calls
    → (take (run (take buf now share).0 calls) later share).1 ≡ none
take-take buf now later share calls n =
    let gone =
      get-run-none share (take buf now share).0 calls n
        (unfold take in get-remove_self share buf.inner) in
    unfold take in rw gone
