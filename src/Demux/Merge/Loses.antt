-- ===== src/Demux/Merge/Loses.antt =====
-- What the merge can lose.
use sv2_p2pool.Prelude.{◌≡◌, refl, sym, subst, false, List, [], ◌∷◌, ◌++◌, append_assoc}
use mathlib.Core.List.{append-nil}
use sv2_p2pool.Demux.Merge.{
  Source, cm, engine, exits, Merge, spawned, Reach, gives, closes, ends, here, then_step,
}

module _ {Message : Type 0} where
  -- The requests of the engine put in, and nothing else done.
  abbrev pub queued : List Message → List (Source × Message) → Merge Message
  queued requests given = record spawned {
    engine_input = record { waiting = requests; is_closed = false };
    given = given;
  }

  abbrev pub from_engine : List Message → List (Source × Message)
  from_engine [] = []
  from_engine (m ∷ rest) = (engine, m) ∷ from_engine rest

  queued-reached :
      (later before : List Message) (given : List (Source × Message))
      → Reach spawned (queued before given)
      → Reach spawned (queued (before ++ later) (given ++ from_engine later))
  queued-reached [] before given r =
      subst (λ w. Reach spawned (queued w (given ++ []))) (sym (append-nil before))
        (subst (λ g. Reach spawned (queued before g)) (sym (append-nil given)) r)
  queued-reached (m ∷ later) before given r =
      subst (λ w. Reach spawned (queued w (given ++ from_engine (m ∷ later))))
        (append_assoc before (m ∷ []) later)
        (subst (λ g. Reach spawned (queued ((before ++ (m ∷ [])) ++ later) g))
          (append_assoc given ((engine, m) ∷ []) (from_engine later))
          (queued-reached later (before ++ (m ∷ [])) (given ++ ((engine, m) ∷ []))
            (then_step r (gives engine m refl))))

  -- The merge can lose any number of requests of the engine with its output open: when both inputs
  -- are closed and the end of the channel manager's is seen first, it exits with the engine's
  -- requests in their channel, though a receive would still give them.
  pub Reach-exits :
      (requests : List Message)
      → (s : Merge Message) × Reach spawned s
        × (s.task ≡ exits)
        × (s.output_is_closed ≡ false)
        × (s.sent ≡ [])
        × (s.engine_input.waiting ≡ requests)
  Reach-exits requests = (
    _,
    then_step
        (then_step (then_step (queued-reached requests [] [] here) (closes engine)) (closes cm))
        (ends cm refl refl refl),
    refl,
    refl,
    refl,
    refl,
  )
