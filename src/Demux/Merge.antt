-- ===== src/Demux/Merge.antt =====
-- `spawn_cm_and_engine_to_tp_merge`: the channel manager's messages and the engine's requests, merged
-- onto the Template Provider's channel.
pub mod Conserves
pub mod Loses
use sv2_p2pool.Prelude.{◌≡◌, Bool, true, false, List, [], ◌∷◌, ◌++◌}

-- An unbounded channel: what waits, oldest first, and whether it is closed. A receive takes what
-- waits also after the close, and fails when nothing waits then.
pub record Channel (Message : Type 0) : Type 0 where
  pub waiting : List Message
  pub is_closed : Bool

pub data Source : Type 0 where
  cm engine : Source

-- The select loop, the inner loop that drains one input after the other ended, and the end.
pub data Task : Type 0 where
  selects : Task
  drains : Source → Task
  exits : Task

-- `given` is what was put into the inputs, `sent` what went out, `dropped` what the task held when
-- the output was found closed, each oldest first.
pub record Merge (Message : Type 0) : Type 0 where
  pub cm_input : Channel Message
  pub engine_input : Channel Message
  pub output_is_closed : Bool
  pub task : Task
  pub given : List (Source × Message)
  pub sent : List (Source × Message)
  pub dropped : List (Source × Message)

abbrev pub other : Source → Source
other cm = engine
other engine = cm

-- An input ended: the task exits if the other one is closed, and drains it otherwise.
abbrev pub after_end : Source → Bool → Task
after_end source true = exits
after_end source false = drains (other source)

-- Which inputs a task receives from.
abbrev pub Receives : Task → Source → Type 0
Receives selects source = Unit
Receives (drains from) source = from ≡ source
Receives exits source = ⊥

module _ {Message : Type 0} where
  abbrev pub open_channel : Channel Message
  open_channel = record { waiting = []; is_closed = false }

  abbrev pub spawned : Merge Message
  spawned = record {
    cm_input = open_channel;
    engine_input = open_channel;
    output_is_closed = false;
    task = selects;
    given = [];
    sent = [];
    dropped = [];
  }

  abbrev pub input : Source → Merge Message → Channel Message
  input cm s = s.cm_input
  input engine s = s.engine_input

  abbrev pub with_input : Source → Channel Message → Merge Message → Merge Message
  with_input cm c s = record s { cm_input = c }
  with_input engine c s = record s { engine_input = c }

  abbrev pub push : Message → Channel Message → Channel Message
  push m c = record c { waiting = c.waiting ++ m ∷ [] }

  abbrev pub close : Channel Message → Channel Message
  close c = record c { is_closed = true }

  abbrev pub take : List Message → Channel Message → Channel Message
  take rest c = record c { waiting = rest }

  -- The task goes on where it was after a send; a send that fails ends it.
  abbrev pub sends : Source → Message → Merge Message → Merge Message
  sends source m s = record s { sent = s.sent ++ (source, m) ∷ [] }

  abbrev pub fails : Source → Message → Merge Message → Merge Message
  fails source m s = record s { task = exits; dropped = s.dropped ++ (source, m) ∷ [] }

  abbrev pub try_send : (output_is_closed : Bool) → Source → Message → Merge Message → Merge Message
  try_send true = fails
  try_send false = sends

  -- The senders' side may act at any time, on channels that are open; the rest is the task's.
  pub data Step : Merge Message → Merge Message → Type 0 where
    gives :
        {s : Merge Message} (source : Source) (m : Message)
        → (input source s).is_closed ≡ false
        → Step s (
            with_input source
              (push m (input source s))
              (record s { given = s.given ++ ((source, m) ∷ []) }))
    closes :
        {s : Merge Message} (source : Source)
        → Step s (with_input source (close (input source s)) s)
    output_closes : {s : Merge Message} → Step s (record s { output_is_closed = true })
    forwards :
        {s : Merge Message} (source : Source) (m : Message) (rest : List Message)
        → Receives s.task source
        → (input source s).waiting ≡ m ∷ rest
        → Step s (
            try_send s.output_is_closed source m (with_input source (take rest (input source s)) s))
    ends :
        {s : Merge Message} (source : Source)
        → s.task ≡ selects
        → (input source s).waiting ≡ []
        → (input source s).is_closed ≡ true
        → Step s (record s { task = after_end source (input (other source) s).is_closed })
    drained :
        {s : Merge Message} (source : Source)
        → s.task ≡ drains source
        → (input source s).waiting ≡ []
        → (input source s).is_closed ≡ true
        → Step s (record s { task = exits })

  pub data Reach (s : Merge Message) : Merge Message → Type 0 where
    here : Reach s s
    then_step : {t u : Merge Message} → Reach s t → Step t u → Reach s u
