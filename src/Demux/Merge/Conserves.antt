-- ===== src/Demux/Merge/Conserves.antt =====
-- What the merge keeps of its inputs, and what it loses.
use sv2_p2pool.Prelude.{
  ◌≡◌, refl, sym, ap, subst, ◌∙◌, Bool, true, false, List, [], ◌∷◌, ◌++◌, append_assoc,
}
use mathlib.Core.List.{append-nil}
use sv2_p2pool.Demux.Merge.{
  Source, cm, engine, Task, selects, drains, exits, Merge, spawned, input, with_input, take,
  try_send, after_end, Receives, Step, gives, closes, output_closes, forwards, ends, drained, Reach,
  here, then_step, other,
}

-- The messages of one source.
abbrev pub only {ℓ} : {Message : Type ℓ} → Source → List (Source × Message) → List Message
only source [] = []
only cm ((cm, m) ∷ rest) = m ∷ only cm rest
only cm ((engine, m) ∷ rest) = only cm rest
only engine ((cm, m) ∷ rest) = only engine rest
only engine ((engine, m) ∷ rest) = m ∷ only engine rest

module _ {Message : Type 0} where
  only-append :
      (source : Source) (xs ys : List (Source × Message))
      → only source (xs ++ ys) ≡ only source xs ++ only source ys
  only-append source [] ys = refl
  only-append cm ((cm, m) ∷ xs) ys = ap (◌∷◌ m) (only-append cm xs ys)
  only-append cm ((engine, m) ∷ xs) ys = only-append cm xs ys
  only-append engine ((cm, m) ∷ xs) ys = only-append engine xs ys
  only-append engine ((engine, m) ∷ xs) ys = ap (◌∷◌ m) (only-append engine xs ys)

  -- One more message of the source itself, or of the other one.
  only_same :
      (source : Source) (m : Message) (xs : List (Source × Message))
      → only source (xs ++ ((source, m) ∷ [])) ≡ only source xs ++ (m ∷ [])
  only_same cm m xs = only-append cm xs ((cm, m) ∷ [])
  only_same engine m xs = only-append engine xs ((engine, m) ∷ [])

  only-other :
      (source : Source) (m : Message) (xs : List (Source × Message))
      → only source (xs ++ ((other source, m) ∷ [])) ≡ only source xs
  only-other cm m xs = only-append cm xs ((engine, m) ∷ []) ∙ append-nil (only cm xs)
  only-other engine m xs = only-append engine xs ((cm, m) ∷ []) ∙ append-nil (only engine xs)

  -- The three places of a message: given and waiting, sent, dropped.
  given_waits :
      (source : Source) (m : Message) (given : List (Source × Message))
      (sent dropped waiting : List Message)
      → only source given ≡ sent ++ (dropped ++ waiting)
      → only source (given ++ ((source, m) ∷ [])) ≡ sent ++ (dropped ++ (waiting ++ (m ∷ [])))
  given_waits source m given sent dropped waiting e =
      only_same source m given
      ∙ (ap (λ x. x ++ (m ∷ [])) e
          ∙ (append_assoc sent (dropped ++ waiting) (m ∷ [])
              ∙ ap (λ x. sent ++ x) (append_assoc dropped waiting (m ∷ []))))

  sent_next :
      (source : Source) (m : Message) (sent dropped : List (Source × Message))
      (given rest : List Message)
      → dropped ≡ []
      → given ≡ only source sent ++ (only source dropped ++ (m ∷ rest))
      → given ≡ only source (sent ++ ((source, m) ∷ [])) ++ (only source dropped ++ rest)
  sent_next source m sent dropped given rest none_dropped e =
      e
      ∙ (ap (λ d. only source sent ++ (only source d ++ (m ∷ rest))) none_dropped
          ∙ (sym (append_assoc (only source sent) (m ∷ []) rest)
              ∙ (ap (λ x. x ++ rest) (sym (only_same source m sent))
                  ∙ ap (λ d. only source (sent ++ ((source, m) ∷ [])) ++ (only source d ++ rest))
                      (sym none_dropped))))

  dropped_next :
      (source : Source) (m : Message) (dropped : List (Source × Message))
      (given sent rest : List Message)
      → given ≡ sent ++ (only source dropped ++ (m ∷ rest))
      → given ≡ sent ++ (only source (dropped ++ ((source, m) ∷ [])) ++ rest)
  dropped_next source m dropped given sent rest e =
      e
      ∙ ap (λ x. sent ++ x)
          (sym (append_assoc (only source dropped) (m ∷ []) rest)
            ∙ ap (λ x. x ++ rest) (sym (only_same source m dropped)))

  -- What a source gave is what was sent for it, what was dropped, and what waits, in this order.
  abbrev pub Keeps : Source → Merge Message → Type 0
  Keeps source s =
      only source s.given
      ≡ only source s.sent ++ (only source s.dropped ++ (input source s).waiting)

  -- Only a task that exited has dropped a message.
  abbrev Clean : Task → List (Source × Message) → Type 0
  Clean exits dropped = Unit
  Clean selects dropped = dropped ≡ []
  Clean (drains source) dropped = dropped ≡ []

  pub record Conserved (s : Merge Message) : Type 0 where
    pub of_cm : Keeps cm s
    pub of_engine : Keeps engine s
    pub clean : Clean s.task s.dropped

  Receives-Clean :
      (task : Task) (source : Source) (dropped : List (Source × Message))
      → Receives task source
      → Clean task dropped
      → dropped ≡ []
  Receives-Clean selects source dropped receives clean = clean
  Receives-Clean (drains from) source dropped receives clean = clean
  Receives-Clean exits source dropped receives clean = absurd receives

  try_send-Conserved :
      (closed : Bool) {s : Merge Message} (source : Source) (m : Message) (rest : List Message)
      → s.dropped ≡ []
      → (input source s).waiting ≡ m ∷ rest
      → Conserved s
      → Conserved (try_send closed source m (with_input source (take rest (input source s)) s))
  try_send-Conserved true {s} cm m rest none_dropped e c = record {
    of_cm =
        dropped_next cm m s.dropped (only cm s.given) (only cm s.sent) rest
          (c.of_cm ∙ ap (λ w. only cm s.sent ++ (only cm s.dropped ++ w)) e);
    of_engine =
        c.of_engine
        ∙ ap (λ d. only engine s.sent ++ (d ++ s.engine_input.waiting))
            (sym (only-other engine m s.dropped));
    clean = tt;
  }
  try_send-Conserved true {s} engine m rest none_dropped e c = record {
    of_cm =
        c.of_cm
        ∙ ap (λ d. only cm s.sent ++ (d ++ s.cm_input.waiting)) (sym (only-other cm m s.dropped));
    of_engine =
        dropped_next engine m s.dropped (only engine s.given) (only engine s.sent) rest
          (c.of_engine ∙ ap (λ w. only engine s.sent ++ (only engine s.dropped ++ w)) e);
    clean = tt;
  }
  try_send-Conserved false {s} cm m rest none_dropped e c = record {
    of_cm =
        sent_next cm m s.sent s.dropped (only cm s.given) rest none_dropped
          (c.of_cm ∙ ap (λ w. only cm s.sent ++ (only cm s.dropped ++ w)) e);
    of_engine =
        c.of_engine
        ∙ ap (λ x. x ++ (only engine s.dropped ++ s.engine_input.waiting))
            (sym (only-other engine m s.sent));
    clean = c.clean;
  }
  try_send-Conserved false {s} engine m rest none_dropped e c = record {
    of_cm =
        c.of_cm
        ∙ ap (λ x. x ++ (only cm s.dropped ++ s.cm_input.waiting)) (sym (only-other cm m s.sent));
    of_engine =
        sent_next engine m s.sent s.dropped (only engine s.given) rest none_dropped
          (c.of_engine ∙ ap (λ w. only engine s.sent ++ (only engine s.dropped ++ w)) e);
    clean = c.clean;
  }

  after_end-Clean :
      (source : Source) (closed : Bool) (dropped : List (Source × Message))
      → dropped ≡ []
      → Clean (after_end source closed) dropped
  after_end-Clean source true dropped e = tt
  after_end-Clean source false dropped e = e

  Step-Conserved : {s t : Merge Message} → Step s t → Conserved s → Conserved t
  Step-Conserved (gives {s} cm m is_open) c = record {
    of_cm =
        given_waits cm m s.given (only cm s.sent) (only cm s.dropped) s.cm_input.waiting c.of_cm;
    of_engine = only-other engine m s.given ∙ c.of_engine;
    clean = c.clean;
  }
  Step-Conserved (gives {s} engine m is_open) c = record {
    of_cm = only-other cm m s.given ∙ c.of_cm;
    of_engine =
        given_waits engine m s.given (only engine s.sent) (only engine s.dropped)
          s.engine_input.waiting c.of_engine;
    clean = c.clean;
  }
  Step-Conserved (closes cm) c = record {
    of_cm = c.of_cm;
    of_engine = c.of_engine;
    clean = c.clean;
  }
  Step-Conserved (closes engine) c = record {
    of_cm = c.of_cm;
    of_engine = c.of_engine;
    clean = c.clean;
  }
  Step-Conserved output_closes c = record {
    of_cm = c.of_cm;
    of_engine = c.of_engine;
    clean = c.clean;
  }
  Step-Conserved (forwards {s} source m rest receives e) c =
      try_send-Conserved s.output_is_closed source m rest
        (Receives-Clean s.task source s.dropped receives c.clean) e c
  Step-Conserved (ends {s} source selecting empty closed) c = record {
    of_cm = c.of_cm;
    of_engine = c.of_engine;
    clean =
        after_end-Clean source (input (other source) s).is_closed s.dropped
          (subst (λ t. Clean t s.dropped) selecting c.clean);
  }
  Step-Conserved (drained {s} source draining empty closed) c = record {
    of_cm = c.of_cm;
    of_engine = c.of_engine;
    clean = tt;
  }

  -- In every state that the merge can come to, whatever is put in and closed meanwhile, the messages
  -- of each source are, in the order in which they were put in, first those that were sent, then the
  -- one, if any, that the task held when the output was closed, then those that still wait: none is
  -- lost otherwise, doubled or reordered.
  pub Reach-Conserved : {s : Merge Message} → Reach spawned s → Conserved s
  Reach-Conserved here = record { of_cm = refl; of_engine = refl; clean = refl }
  Reach-Conserved (then_step r step) = Step-Conserved step (Reach-Conserved r)
