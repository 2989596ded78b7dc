-- ===== src/Tests/Signals.antt =====
-- The actor's end, sent before and after the pool has a receiver.
use sv2_p2pool.Prelude.{ℕ, zero, suc, ◌-◌, ◌≡◌, ◌≢◌, refl, ◌↔◌, arith, Bool, true, false}
use sv2_p2pool.ShareChain.Watchdog.{
  Watch, Signal, connected, subscribed, flipped, returns, subscribes, sends, Reach, at_start,
  then_step, IsWatch, Cancels, Cancels-iff,
}

-- A channel is its value and how many receive.
abbrev sent : Bool → ℕ → Bool
sent value zero = value
sent value (suc n) = true

abbrev toy : Watch (Bool × ℕ)
toy = record {
  new = (false, 1);
  send_true = λ c. (sent c.0 c.1, c.1);
  subscribe = λ c. (c.0, suc c.1);
  drop_receiver = λ c. (c.0, c.1 - 1);
  borrow = λ c. c.0;
  receivers = λ c. c.1;
}

sent_lost : (value : Bool) (n : ℕ) → n ≡ 0 → sent value n ≡ value
sent_lost value zero h = refl
sent_lost value (suc n) h = absurd (omega arith)

sent_seen : (value : Bool) (m n : ℕ) → m ≡ suc n → sent value m ≡ true
sent_seen value zero n h = absurd (omega arith)
sent_seen value (suc m) n h = refl

toy-IsWatch : IsWatch toy
toy-IsWatch = record {
  new_value = refl;
  new_receivers = refl;
  send_lost = λ c. sent_lost c.0 c.1;
  send_seen = λ c. sent_seen c.0 c.1;
  send_receivers = λ c. refl;
  subscribe_value = λ c. refl;
  subscribe_receivers = λ c. refl;
  drop_value = λ c. refl;
  drop_receivers = λ c n h. omega arith;
}

-- The thread ends when `connect` has returned and no receiver is there yet.
abbrev lost : Signal (Bool × ℕ)
lost = record { channel = (false, 1); start = subscribed; watchdog = flipped connected }

lost-reached : Reach toy lost
lost-reached =
    then_step (then_step (then_step at_start (returns refl)) (sends refl)) (subscribes refl)

Cancels-iff_example : Cancels toy lost ↔ (connected ≢ connected)
Cancels-iff_example = Cancels-iff toy toy-IsWatch lost connected lost-reached refl refl

-- It ends later.
abbrev seen : Signal (Bool × ℕ)
seen = record { channel = (true, 1); start = subscribed; watchdog = flipped subscribed }

seen-reached : Reach toy seen
seen-reached =
    then_step (then_step (then_step at_start (returns refl)) (subscribes refl)) (sends refl)
