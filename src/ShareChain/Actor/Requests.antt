-- ===== src/ShareChain/Actor/Requests.antt =====
-- The actor's request loop: a bounded queue, and one spawned task for each request taken from it.
use sv2_p2pool.Prelude.{
  ℕ, suc, ◌+◌, ◌*◌, ◌<◌, ◌≡◌, refl, ap, ◌∙◌, subst, sym, arith, List, [], ◌∷◌, ◌++◌, map, length,
  length-append,
}
use sv2_p2pool.Prelude.Flow.{Flow}
use mathlib.Core.List.{Perm, perm_middle, append-nil}
use mathlib.Core.List.Perm
use sv2_p2pool.Ipc.Wire.{Lists, ShareChain}
use sv2_p2pool.Ipc.{IpcClientError}
use sv2_p2pool.ShareChain.Actor.{IpcRequest, Answer, serve}

-- `IpcChain::REQUEST_CHANNEL_CAPACITY`
abbrev pub request_channel_capacity : ℕ
request_channel_capacity = 256

-- A request with the number of its reply channel.
abbrev pub Asked : Type 0
Asked = ℕ × IpcRequest

pub record Reply : Type 0 where
  pub asked : Asked
  pub result : Flow IpcClientError (Answer (asked.1))

pub record Mailbox : Type 0 where
  pub queue : List Asked
  pub in_flight : List Asked
  pub replies : List Reply

abbrev pub reply_to : {lists : Lists} → ShareChain lists → Asked → Reply
reply_to client asked = record { asked = asked; result = serve client asked.1 }

abbrev pub nothing : Mailbox
nothing = record { queue = []; in_flight = []; replies = [] }

abbrev pub send : Asked → Mailbox → Mailbox
send asked s = record s { queue = s.queue ++ asked ∷ [] }

-- The requests of a mailbox, answered or not.
abbrev pub requests : Mailbox → List Asked
requests s = s.in_flight ++ (map (λ reply. reply.asked) s.replies ++ s.queue)

-- The daemon as it is when the reply of each number, from 0, is made: what it answers may change.
module _ (lists : Lists) (daemon : ℕ → ShareChain lists) where
  -- The loop takes a request and spawns its task; any task may end next, with what the daemon answers
  -- then.
  pub data Step : Mailbox → Mailbox → Type 0 where
    spawn :
        {s : Mailbox} (asked : Asked) (rest : List Asked)
        → s.queue ≡ asked ∷ rest
        → Step s (record s { queue = rest; in_flight = asked ∷ s.in_flight })
    reply :
        {s : Mailbox} (asked : Asked) (before later : List Asked)
        → s.in_flight ≡ before ++ asked ∷ later
        → Step s (record s {
          in_flight = before ++ later;
          replies = reply_to (daemon (length s.replies)) asked ∷ s.replies;
        })

  -- What was sent, newest first, and the mailbox then.
  pub data Reach : List Asked → Mailbox → Type 0 where
    here : Reach [] nothing
    sends :
        {sent : List Asked} {s : Mailbox} (asked : Asked)
        → Reach sent s
        → length s.queue < request_channel_capacity
        → Reach (asked ∷ sent) (send asked s)
    works : {sent : List Asked} {s t : Mailbox} → Reach sent s → Step s t → Reach sent t

  -- Steps of the actor alone.
  pub data Works (s : Mailbox) : Mailbox → Type 0 where
    idle : Works s s
    after : {t u : Mailbox} → Works s t → Step t u → Works s u

  -- Each reply is what the daemon, as it was then, answers to the request of the reply.
  abbrev pub Answers : List Reply → Type 0
  Answers [] = Unit
  Answers (r ∷ older) = (r.result ≡ serve (daemon (length older)) (r.asked.1)) × Answers older

  pub record IsSound (sent : List Asked) (s : Mailbox) : Type 0 where
    pub conserved : Perm sent (requests s)
    pub answers : Answers s.replies

  requests-spawn :
      (asked : Asked) (flight replied rest : List Asked)
      → Perm (flight ++ (replied ++ (asked ∷ rest))) (asked ∷ (flight ++ (replied ++ rest)))
  requests-spawn asked flight replied rest =
      Perm.trans (Perm.append_left flight (perm_middle replied rest))
        (perm_middle flight (replied ++ rest))

  requests-reply :
      (asked : Asked) (before later replied queue : List Asked)
      → Perm
          ((before ++ (asked ∷ later)) ++ (replied ++ queue))
          ((before ++ later) ++ (asked ∷ (replied ++ queue)))
  requests-reply asked before later replied queue =
      Perm.trans (Perm.append_right (replied ++ queue) (perm_middle before later))
        (Perm.symm (perm_middle (before ++ later) (replied ++ queue)))

  requests-send :
      (asked : Asked) (flight replied queue : List Asked)
      → Perm
          (asked ∷ (flight ++ (replied ++ queue)))
          (flight ++ (replied ++ (queue ++ (asked ∷ []))))
  requests-send asked flight replied queue = Perm.symm (
      Perm.trans (Perm.append_left flight (Perm.append_left replied (perm_middle queue []))) (
        Perm.trans (requests-spawn asked flight replied (queue ++ [])) (
          subst
            (λ q.
              Perm (asked ∷ (flight ++ (replied ++ q))) (asked ∷ (flight ++ (replied ++ queue))))
            (sym (append-nil queue)) (Perm.refl _))))

  Step-IsSound : {sent : List Asked} {s t : Mailbox} → Step s t → IsSound sent s → IsSound sent t
  Step-IsSound {sent} (spawn {s} asked rest e) sound = record {
    conserved =
        Perm.trans
          (subst (λ q. Perm sent (s.in_flight ++ (map (λ r. r.asked) s.replies ++ q))) e
            sound.conserved)
          (requests-spawn asked s.in_flight (map (λ r. r.asked) s.replies) rest);
    answers = sound.answers;
  }
  Step-IsSound {sent} (reply {s} asked before later e) sound = record {
    conserved =
        Perm.trans
          (subst (λ f. Perm sent (f ++ (map (λ r. r.asked) s.replies ++ s.queue))) e
            sound.conserved)
          (requests-reply asked before later (map (λ r. r.asked) s.replies) s.queue);
    answers = (refl, sound.answers);
  }

  -- Whatever is sent and however the actor and the daemon's answers take turns: each request that was
  -- sent is exactly once in the queue, in flight or replied to, and every reply is what the daemon, as
  -- it was when the reply was made, answers to the request of that reply.
  pub Reach-IsSound : {sent : List Asked} {s : Mailbox} → Reach sent s → IsSound sent s
  Reach-IsSound here = record { conserved = Perm.refl []; answers = tt }
  Reach-IsSound (sends {sent} {s} asked r room) =
      let sound = Reach-IsSound r in
      record {
        conserved =
            Perm.trans (Perm.cons asked sound.conserved)
              (requests-send asked s.in_flight (map (λ r. r.asked) s.replies) s.queue);
        answers = sound.answers;
      }
  Reach-IsSound (works r step) = Step-IsSound step (Reach-IsSound r)

  -- How many turns the actor took.
  abbrev pub turns : {s t : Mailbox} → Works s t → ℕ
  turns idle = 0
  turns (after before step) = suc (turns before)

  -- The turns that a mailbox needs: one to spawn and one to reply.
  abbrev pub due : Mailbox → ℕ
  due s = 2 * length s.queue + length s.in_flight

  Step-due : {s t : Mailbox} → Step s t → suc (due t) ≡ due s
  Step-due (spawn {s} asked rest e) = omega (arith, ap length e)
  Step-due (reply {s} asked before later e) =
      omega (arith, ap length e, length-append before later, length-append before (asked ∷ later))

  Works-due : {s t : Mailbox} (work : Works s t) → turns work + due t ≡ due s
  Works-due idle = omega arith
  Works-due (after before step) = omega (arith, Works-due before, Step-due step)

  Works-IsSound : {sent : List Asked} {s t : Mailbox} → IsSound sent s → Works s t → IsSound sent t
  Works-IsSound sound idle = sound
  Works-IsSound sound (after before step) = Step-IsSound step (Works-IsSound sound before)

  -- A mailbox in which the actor has no turn has every request replied to.
  stuck_empty : (t : Mailbox) → ((u : Mailbox) → ¬ Step t u) → (t.queue ≡ []) × (t.in_flight ≡ [])
  stuck_empty t stuck = (no_queue t.queue refl, no_flight t.in_flight refl)
    where
      no_queue : (queue : List Asked) → t.queue ≡ queue → t.queue ≡ []
      no_queue [] e = e
      no_queue (asked ∷ rest) e = absurd (stuck _ (spawn asked rest e))

      no_flight : (flight : List Asked) → t.in_flight ≡ flight → t.in_flight ≡ []
      no_flight [] e = e
      no_flight (asked ∷ rest) e = absurd (stuck _ (reply asked [] rest e))

  -- From a mailbox that can arise, the actor alone, in front of a daemon that answers, cannot go on
  -- for ever and stops only when it has answered: a request in the queue is worth two turns and one
  -- in flight one, the turns it took and those still due are together those due at first, and where
  -- it has no turn left, every request that was sent has had exactly one reply, the daemon's answer
  -- to it.
  pub Reach-answered :
      (sent : List Asked) (s t : Mailbox)
      → Reach sent s
      → (work : Works s t)
      → (turns work + due t ≡ due s)
        × (((u : Mailbox) → ¬ Step t u)
            → Perm sent (map (λ r. r.asked) t.replies) × Answers t.replies)
  Reach-answered sent s t r work = (Works-due work, all)
    where
      all :
          ((u : Mailbox) → ¬ Step t u)
          → Perm sent (map (λ r. r.asked) t.replies) × Answers t.replies
      all stuck =
          let (no_queue, no_flight) = stuck_empty t stuck in
          let sound = Works-IsSound (Reach-IsSound r) work in
          (
            subst (Perm sent)
                (ap (λ f. f ++ (map (λ r. r.asked) t.replies ++ t.queue)) no_flight
                  ∙ ap (λ q. map (λ r. r.asked) t.replies ++ q) no_queue
                  ∙ append-nil (map (λ r. r.asked) t.replies))
                sound.conserved,
            sound.answers,
          )
