-- ===== src/ShareChain/Watchdog.antt =====
-- crates/sv2-p2pool-pool/src/share_chain.rs and pool.rs: the end of the actor's thread, the watch
-- channel that tells of it, and the pool's watcher that cancels the pool. tokio's watch channel is a
-- parameter.
use sv2_p2pool.Prelude.{ℕ, suc, ◌≡◌, ◌≢◌, refl, sym, ap, ◌∙◌, ◌↔◌, Bool, true, false}

-- `watch::channel(false)`, `send(true)`, `subscribe`, the drop of a receiver, `*borrow()`, and how
-- many receivers there are.
pub record Watch (Channel : Type 0) : Type 0 where
  pub new : Channel
  pub send_true : Channel → Channel
  pub subscribe : Channel → Channel
  pub drop_receiver : Channel → Channel
  pub borrow : Channel → Bool
  pub receivers : Channel → ℕ

-- Where the start of the pool is: in `connect`, which holds a receiver of its own, after it, with the
-- receiver of `shutdown_signal`, or at the watcher's end.
pub data Start : Type 0 where
  connecting connected subscribed cancelled : Start

-- The watchdog waits for the thread, or has sent, which is remembered with the start's place then.
pub data Watchdog : Type 0 where
  joins : Watchdog
  flipped : Start → Watchdog

pub record Signal (Channel : Type 0) : Type 0 where
  pub channel : Channel
  pub start : Start
  pub watchdog : Watchdog

-- A turn of the watcher's loop. The chain's reader keeps a sender, so `changed` only waits.
abbrev pub after_look : Bool → Start
after_look true = cancelled
after_look false = subscribed

module _ {Channel : Type 0} (watch : Watch Channel) where
  abbrev pub connects : Signal Channel
  connects = record { channel = watch.new; start = connecting; watchdog = joins }

  pub data Step : Signal Channel → Signal Channel → Type 0 where
    -- `connect` returns, and drops its receiver
    returns :
        {s : Signal Channel}
        → s.start ≡ connecting
        → Step s (record s { start = connected; channel = watch.drop_receiver s.channel })
    subscribes :
        {s : Signal Channel}
        → s.start ≡ connected
        → Step s (record s { start = subscribed; channel = watch.subscribe s.channel })
    looks :
        {s : Signal Channel}
        → s.start ≡ subscribed
        → Step s (record s { start = after_look (watch.borrow s.channel) })
    -- the actor's thread has ended
    sends :
        {s : Signal Channel}
        → s.watchdog ≡ joins
        → Step s (record s { watchdog = flipped s.start; channel = watch.send_true s.channel })

  pub data Reach : Signal Channel → Type 0 where
    at_start : Reach connects
    then_step : {s t : Signal Channel} → Reach s → Step s t → Reach t

  -- What tokio documents: a send without a receiver fails and leaves the value.
  pub record IsWatch : Type 0 where
    pub new_value : watch.borrow watch.new ≡ false
    pub new_receivers : watch.receivers watch.new ≡ 1
    pub send_lost :
        (c : Channel) → watch.receivers c ≡ 0 → watch.borrow (watch.send_true c) ≡ watch.borrow c
    pub send_seen :
        (c : Channel) (n : ℕ) → watch.receivers c ≡ suc n → watch.borrow (watch.send_true c) ≡ true
    pub send_receivers : (c : Channel) → watch.receivers (watch.send_true c) ≡ watch.receivers c
    pub subscribe_value : (c : Channel) → watch.borrow (watch.subscribe c) ≡ watch.borrow c
    pub subscribe_receivers :
        (c : Channel) → watch.receivers (watch.subscribe c) ≡ suc (watch.receivers c)
    pub drop_value : (c : Channel) → watch.borrow (watch.drop_receiver c) ≡ watch.borrow c
    pub drop_receivers :
        (c : Channel) (n : ℕ)
        → watch.receivers c ≡ suc n
        → watch.receivers (watch.drop_receiver c) ≡ n

  abbrev held : Start → ℕ
  held connecting = 1
  held connected = 0
  held subscribed = 1
  held cancelled = 1

  abbrev shown : Watchdog → Bool
  shown joins = false
  shown (flipped connecting) = true
  shown (flipped connected) = false
  shown (flipped subscribed) = true
  shown (flipped cancelled) = true

  record Inv (s : Signal Channel) : Type 0 where
    holds : watch.receivers s.channel ≡ held s.start
    shows : watch.borrow s.channel ≡ shown s.watchdog

  send-shown :
      IsWatch
      → (c : Channel) (at : Start) → watch.receivers c ≡ held at
      → watch.borrow c ≡ false
      → watch.borrow (watch.send_true c) ≡ shown (flipped at)
  send-shown law c connecting n v = law.send_seen c 0 n
  send-shown law c connected n v = law.send_lost c n ∙ v
  send-shown law c subscribed n v = law.send_seen c 0 n
  send-shown law c cancelled n v = law.send_seen c 0 n

  after_look-held : (b : Bool) → held (after_look b) ≡ 1
  after_look-held true = refl
  after_look-held false = refl

  after_look-true : (b : Bool) → after_look b ≡ cancelled → b ≡ true
  after_look-true true h = refl
  after_look-true false h = cc

  Step-Inv : IsWatch → {s t : Signal Channel} → Step s t → Inv s → Inv t
  Step-Inv law {s} (returns at) inv = record {
    holds = law.drop_receivers s.channel 0 (inv.holds ∙ ap held at);
    shows = law.drop_value s.channel ∙ inv.shows;
  }
  Step-Inv law {s} (subscribes at) inv = record {
    holds = law.subscribe_receivers s.channel ∙ ap suc (inv.holds ∙ ap held at);
    shows = law.subscribe_value s.channel ∙ inv.shows;
  }
  Step-Inv law {s} (looks at) inv = record {
    holds = inv.holds ∙ ap held at ∙ sym (after_look-held (watch.borrow s.channel));
    shows = inv.shows;
  }
  Step-Inv law {s} (sends at) inv = record {
    holds = law.send_receivers s.channel ∙ inv.holds;
    shows = send-shown law s.channel s.start inv.holds (inv.shows ∙ ap shown at);
  }

  Reach-Inv : IsWatch → {s : Signal Channel} → Reach s → Inv s
  Reach-Inv law at_start = record { holds = law.new_receivers; shows = law.new_value }
  Reach-Inv law (then_step r step) = Step-Inv law step (Reach-Inv law r)

  abbrev pub Cancels : Signal Channel → Type 0
  Cancels s = (t : Signal Channel) × Step s t × (t.start ≡ cancelled)

  Step-shown :
      {s t : Signal Channel}
      → Step s t
      → t.start ≡ cancelled
      → s.start ≡ subscribed
      → watch.borrow s.channel ≡ true
  Step-shown {s} (returns at) done here = cc
  Step-shown {s} (subscribes at) done here = cc
  Step-shown {s} (looks at) done here = after_look-true (watch.borrow s.channel) done
  Step-shown {s} (sends at) done here = cc

  shown-connected : (at : Start) → (shown (flipped at) ≡ true) ↔ (at ≢ connected)
  shown-connected connecting = (λ h. cc, λ h. refl)
  shown-connected connected = (λ h. cc, λ h. absurd (h refl))
  shown-connected subscribed = (λ h. cc, λ h. refl)
  shown-connected cancelled = (λ h. cc, λ h. refl)

  -- When the actor's thread has ended, the pool's watcher can cancel the pool if and only if the end
  -- was not sent between the return of `connect` and the call of `shutdown_signal`.
  pub Cancels-iff :
      IsWatch
      → (s : Signal Channel) (at : Start) → Reach s
      → s.start ≡ subscribed
      → s.watchdog ≡ flipped at
      → Cancels s ↔ (at ≢ connected)
  Cancels-iff law s at r waits ended =
      let shows = (Reach-Inv law r).shows ∙ ap shown ended in
      (
        λ (t, step, done). (shown-connected at).0 (sym shows ∙ Step-shown step done waits),
        λ in_time. (_, looks waits, ap after_look (shows ∙ (shown-connected at).1 in_time)),
      )
