-- ===== src/ShareChain/Actor/Pushes.antt =====
-- Pushed tips and height fetches in any order, on the actor's thread.
use sv2_p2pool.Prelude.{
  ℕ, zero, suc, ◌≡◌, refl, sym, ap, ◌∙◌, inl, inr, arith, Bool, true, false, ◌||◌, Bytes, List, [],
  ◌∷◌, Option, some, length, nat_eqb, if◌then◌else◌, Bool-cases,
}
use sv2_p2pool.Bitcoin.{Hash}
use sv2_p2pool.Ipc.Wire.{Lists, ShareChain}
use sv2_p2pool.Ipc
use sv2_p2pool.ShareChain.Snapshot.{AtomicTipSnapshot, load_tip, load_height, store_tip}
use sv2_p2pool.ShareChain.Actor.{
  Pushed, fetch_for, try_send, tip_callback, fetch_height, map_height,
}
use sv2_p2pool.ShareChain.Actor.Start.{
  answered, or_before, capture_height-load_tip, capture_height-load_height,
}

-- What happens on the thread; a fetch meets the daemon as it is then.
pub data Event (lists : Lists) : Type 0 where
  pushed : Bytes → Event lists
  fetched : ShareChain lists → Event lists

abbrev pub is_hash : Bytes → Bool
is_hash bytes = nat_eqb (length bytes) 32

-- `onto xs ys`: the elements of `xs` on `ys`, the last on top.
abbrev pub onto : List Hash → List Hash → List Hash
onto [] ys = ys
onto (x ∷ xs) ys = onto xs (x ∷ ys)

-- The last of the hashes, or what was before.
abbrev pub newest : List Hash → Option Hash → Option Hash
newest [] before = before
newest (h ∷ later) before = newest later (some h)

-- Whether a trigger waits.
abbrev pub waits : ℕ → Bool
waits zero = false
waits (suc n) = true

waits-try_send : (n : ℕ) → waits (try_send n) ≡ true
waits-try_send zero = refl
waits-try_send (suc n) = ground arith

or_true : (b : Bool) → (b || true) ≡ true
or_true true = refl
or_true false = refl

or_false : (b : Bool) → (b || false) ≡ b
or_false true = refl
or_false false = refl

-- The callback on a hash.
abbrev accepted : Hash → Pushed → Pushed
accepted bytes s = record {
  snapshot = store_tip bytes s.snapshot;
  broadcasts = bytes ∷ s.broadcasts;
  height_triggers = try_send s.height_triggers;
}

tip_callback-accepted :
    (bytes : Bytes) (s : Pushed) → is_hash bytes ≡ true → tip_callback bytes s ≡ accepted bytes s
unfolding tip_callback
tip_callback-accepted bytes s hash = rw hash refl

tip_callback_ignores :
    (bytes : Bytes) (s : Pushed) → is_hash bytes ≡ false → tip_callback bytes s ≡ s
unfolding tip_callback
tip_callback_ignores bytes s bad = rw bad refl

store_tip-load_tip : (h : Hash) (s : AtomicTipSnapshot) → load_tip (store_tip h s) ≡ some h
unfolding store_tip load_tip
store_tip-load_tip h s = refl

module _ {lists : Lists} where
  -- Oldest first.
  abbrev pub run : List (Event lists) → Pushed → Pushed
  run [] s = s
  run (pushed bytes ∷ events) s = run events (tip_callback bytes s)
  run (fetched client ∷ events) s = run events (fetch_height client s)

  -- The pushes that are hashes, oldest first.
  pub pushes : List (Event lists) → List Hash
  pushes [] = []
  pushes (pushed bytes ∷ events) =
      let rest = pushes events in if is_hash bytes then bytes ∷ rest else rest
  pushes (fetched client ∷ events) = pushes events

  -- Whether a hash was pushed since the last fetch.
  pub owed : List (Event lists) → Bool → Bool
  owed [] before = before
  owed (pushed bytes ∷ events) before = owed events (before || is_hash bytes)
  owed (fetched client ∷ events) before = owed events false

  fetch_for-keeps :
      (waiting : ℕ) (client : ShareChain lists) (s : Pushed)
      → (load_tip (fetch_for waiting client s).snapshot ≡ load_tip s.snapshot)
        × ((fetch_for waiting client s).broadcasts ≡ s.broadcasts)
  fetch_for-keeps zero client s = (refl, refl)
  fetch_for-keeps (suc more) client s =
      (capture_height-load_tip (Ipc.get_tip_height client) s.snapshot, refl)

  fetch_height-keeps :
      (client : ShareChain lists) (s : Pushed)
      → (load_tip (fetch_height client s).snapshot ≡ load_tip s.snapshot)
        × ((fetch_height client s).broadcasts ≡ s.broadcasts)
  unfolding fetch_height
  fetch_height-keeps client s = fetch_for-keeps s.height_triggers client s

  -- Whatever was pushed and fetched, the actor has broadcast exactly the pushes of 32 bytes, in
  -- order, and the snapshot's tip is the last of them, or what it was where there was none.
  pub run-broadcasts :
      (events : List (Event lists)) (s : Pushed)
      → ((run events s).broadcasts ≡ onto (pushes events) s.broadcasts)
        × (load_tip (run events s).snapshot ≡ newest (pushes events) (load_tip s.snapshot))
  unfolding pushes
  run-broadcasts [] s = (refl, refl)
  run-broadcasts (pushed bytes ∷ events) s = elim (Bool-cases (is_hash bytes)) [
    | inl hash ↦ rw hash (
        let (broadcasts, tip) = run-broadcasts events (accepted bytes s) in
        let e = tip_callback-accepted bytes s hash in
        (
          ap (λ t. (run events t).broadcasts) e ∙ broadcasts,
          ap (λ t. load_tip (run events t).snapshot) e
              ∙ (tip ∙ ap (newest (pushes events)) (store_tip-load_tip bytes s.snapshot)),
        ))
    | inr bad ↦ rw bad (
        let (broadcasts, tip) = run-broadcasts events s in
        let e = tip_callback_ignores bytes s bad in
        (
          ap (λ t. (run events t).broadcasts) e ∙ broadcasts,
          ap (λ t. load_tip (run events t).snapshot) e ∙ tip,
        ))
  ]
  run-broadcasts (fetched client ∷ events) s =
      let (broadcasts, tip) = run-broadcasts events (fetch_height client s) in
      let (same_tip, same) = fetch_height-keeps client s in
      (broadcasts ∙ ap (onto (pushes events)) same, tip ∙ ap (newest (pushes events)) same_tip)

  waits-fetch :
      (n : ℕ) (client : ShareChain lists) (s : Pushed)
      → s.height_triggers ≡ n
      → waits (fetch_for n client s).height_triggers ≡ false
  waits-fetch zero client s e = rw e refl
  waits-fetch (suc n) client s e = refl

  -- A trigger waits exactly when a hash was pushed since the last fetch, however many were pushed
  -- against the trigger's 8 places.
  waits-owed :
      (events : List (Event lists)) (s : Pushed)
      → waits (run events s).height_triggers ≡ owed events (waits s.height_triggers)
  unfolding owed fetch_height
  waits-owed [] s = refl
  waits-owed (pushed bytes ∷ events) s = elim (Bool-cases (is_hash bytes)) [
    | inl hash ↦ rw hash (
        ap (λ t. waits (run events t).height_triggers) (tip_callback-accepted bytes s hash)
        ∙ (waits-owed events (accepted bytes s)
            ∙ ap (owed events)
                (waits-try_send s.height_triggers ∙ sym (or_true (waits s.height_triggers)))))
    | inr bad ↦ rw bad (
        ap (λ t. waits (run events t).height_triggers) (tip_callback_ignores bytes s bad)
        ∙ (waits-owed events s ∙ ap (owed events) (sym (or_false (waits s.height_triggers)))))
  ]
  waits-owed (fetched client ∷ events) s =
      waits-owed events (fetch_for s.height_triggers client s)
      ∙ ap (owed events) (waits-fetch s.height_triggers client s refl)

  -- The height after a fetch that finds a trigger, or none.
  fetch_for-load_height :
      (n : ℕ) (client : ShareChain lists) (s : Pushed)
      → load_height (fetch_for n client s).snapshot ≡ (
          if waits n
          then or_before (answered map_height (Ipc.get_tip_height client)) (load_height s.snapshot)
          else load_height s.snapshot)
  fetch_for-load_height zero client s = refl
  fetch_for-load_height (suc n) client s =
      capture_height-load_height (Ipc.get_tip_height client) s.snapshot

  -- After any pushes and fetches, the next fetch asks the daemon exactly when a hash was pushed since
  -- the fetch before, and the snapshot's height is then what the daemon gives, or, where it gives
  -- none, what it was. Pushes that find the trigger's 8 places full lose no refresh.
  pub fetch_height-load_height :
      (events : List (Event lists)) (client : ShareChain lists) (s : Pushed)
      → load_height (fetch_height client (run events s)).snapshot ≡ (
          if owed events (waits s.height_triggers)
          then or_before
              (answered map_height (Ipc.get_tip_height client))
              (load_height (run events s).snapshot)
          else load_height (run events s).snapshot)
  unfolding fetch_height
  fetch_height-load_height events client s =
      fetch_for-load_height (run events s).height_triggers client (run events s)
      ∙ rw (waits-owed events s) refl
