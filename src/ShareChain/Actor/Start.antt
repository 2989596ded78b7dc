-- ===== src/ShareChain/Actor/Start.antt =====
-- When `IpcChain::connect` succeeds, and what the snapshot holds then.
use sv2_p2pool.Prelude.{◌≡◌, refl, ◌∙◌, ◌↔◌, Bool, true, String, Option, none, some}
use sv2_p2pool.Prelude.Flow.{Flow, next, exit, panic, ◌>>◌}
use sv2_p2pool.Bitcoin.{Network}
use sv2_p2pool.Ipc.Wire.{Lists, ShareChain}
use sv2_p2pool.Ipc.{
  IpcClientError, capnp, ChainTipResult, tip, tip_uninitialised, TipHeightResult, height,
  height_uninitialised,
}
use sv2_p2pool.Ipc
use sv2_p2pool.ShareChain.Snapshot.{
  AtomicTipSnapshot, empty, store_tip, store_height, load_tip, load_height,
}
use sv2_p2pool.ShareChain.Actor.{
  Call, network_call, tip_call, height_call, after_network, actor_main, Threads, check_spawn,
  actor_thread_main, wait_init, connect, capture_tip, capture_height, map_tip, map_height,
}

-- What an `IpcChain` comes from: threads and a runtime without an error, a connection, and a daemon
-- that tells its network.
pub record Connects {lists : Lists} (threads : Threads)
    (connected : Flow IpcClientError (Call → ShareChain lists)) (network : Network) : Type 0 where
  pub threads_run :
      (threads.actor_spawn ≡ none)
      × (threads.watchdog_spawn ≡ none)
      × (threads.runtime ≡ none)
      × (threads.wait_panicked ≡ none)
  pub daemon : Call → ShareChain lists
  pub is_connected : connected ≡ next daemon
  pub tells_network : Ipc.get_network (daemon network_call) ≡ next network

module _ {lists : Lists} (threads : Threads)
    (connected : Flow IpcClientError (Call → ShareChain lists)) (network : Network) where
  connect_sound : connect threads connected ≡ next network → Connects threads connected network
  unfolding connect actor_thread_main actor_main
  connect_sound h =
      go threads.actor_spawn threads.watchdog_spawn threads.runtime threads.wait_panicked connected
        refl refl refl refl refl h
    where
      told :
          (daemon : Call → ShareChain lists) (r : Flow IpcClientError Network)
          → wait_init none (after_network daemon true r).init ≡ next network
          → r ≡ next network
      told daemon (next n) h = h
      told daemon (exit e) h = cc
      told daemon panic h = cc

      go :
          (a w r p : Option String) (c : Flow IpcClientError (Call → ShareChain lists))
          → threads.actor_spawn ≡ a
          → threads.watchdog_spawn ≡ w
          → threads.runtime ≡ r
          → threads.wait_panicked ≡ p
          → connected ≡ c
          → (do
            check_spawn "spawn IpcChain actor thread: " a
            check_spawn "spawn IpcChain watchdog thread: " w
            wait_init p (actor_thread_main r c).init)
            ≡ next network
          → Connects threads connected network
      go none none none none (next daemon) ea ew er ep ec h = record {
        threads_run = (ea, ew, er, ep);
        daemon = daemon;
        is_connected = ec;
        tells_network = told daemon (Ipc.get_network (daemon network_call)) h;
      }
      go none none none none (exit e) ea ew er ep ec h = cc
      go none none none none panic ea ew er ep ec h = cc
      go none none none (some p) c ea ew er ep ec h = cc
      go none none (some r) none c ea ew er ep ec h = cc
      go none none (some r) (some p) c ea ew er ep ec h = cc
      go none (some w) r p c ea ew er ep ec h = cc
      go (some a) w r p c ea ew er ep ec h = cc

  connect_complete : Connects threads connected network → connect threads connected ≡ next network
  unfolding connect actor_thread_main actor_main
  connect_complete c =
      rw
        (
          c.threads_run.0, c.threads_run.1, c.threads_run.2, c.threads_run.3, c.is_connected,
          c.tells_network,
        )
        refl

  -- `IpcChain::connect` succeeds, with a network, exactly when both threads and the runtime start,
  -- the wait for the actor is not cut short, the socket connects, and the daemon tells that network.
  -- A tip or a height that cannot be read, and a subscription that fails, do not stop it.
  pub connect_iff : (connect threads connected ≡ next network) ↔ Connects threads connected network
  connect_iff = (connect_sound, connect_complete)

-- The newer of two values, if there is one.
abbrev pub or_before {ℓ} : {A : Type ℓ} → Option A → Option A → Option A
or_before none before = before
or_before (some a) before = some a

or_before-none {ℓ} : {A : Type ℓ} (o : Option A) → or_before o none ≡ o
or_before-none none = refl
or_before-none (some a) = refl

-- An answer that carries a value, if it is one.
abbrev pub answered {ℓ κ} :
    {A : Type ℓ} {B : Type κ} → (A → Option B) → Flow IpcClientError A → Option B
answered f (next a) = f a
answered f (exit e) = none
answered f panic = none

pub capture_height-load_tip :
    (r : Flow IpcClientError TipHeightResult) (s : AtomicTipSnapshot)
    → load_tip (capture_height r s) ≡ load_tip s
unfolding load_tip store_height
capture_height-load_tip (next (height h)) s = refl
capture_height-load_tip (next height_uninitialised) s = refl
capture_height-load_tip (exit e) s = refl
capture_height-load_tip panic s = refl

capture_tip-load_tip :
    (r : Flow IpcClientError ChainTipResult)
    → (load_tip (capture_tip r empty) ≡ answered map_tip r)
      × (load_height (capture_tip r empty) ≡ none)
unfolding load_tip load_height store_tip
capture_tip-load_tip (next (tip t)) = (refl, refl)
capture_tip-load_tip (next tip_uninitialised) = (refl, refl)
capture_tip-load_tip (exit e) = (refl, refl)
capture_tip-load_tip panic = (refl, refl)

-- A height that was fetched replaces the one before, and an answer without one changes nothing.
pub capture_height-load_height :
    (r : Flow IpcClientError TipHeightResult) (s : AtomicTipSnapshot)
    → load_height (capture_height r s) ≡ or_before (answered map_height r) (load_height s)
unfolding load_height store_height
capture_height-load_height (next (height h)) s = refl
capture_height-load_height (next height_uninitialised) s = refl
capture_height-load_height (exit e) s = refl
capture_height-load_height panic s = refl

-- Once the daemon has told its network, the snapshot at the end of the start holds exactly the tip
-- and the height that the daemon gave when it was asked, and nothing where it gave none or an error.
pub actor_main-load_tip :
    {lists : Lists} (daemon : Call → ShareChain lists) (caller_waits : Bool) (network : Network)
    → Ipc.get_network (daemon network_call) ≡ next network
    → (load_tip (actor_main (next daemon) caller_waits).snapshot
        ≡ answered map_tip (Ipc.get_chain_tip (daemon tip_call)))
      × (load_height (actor_main (next daemon) caller_waits).snapshot
          ≡ answered map_height (Ipc.get_tip_height (daemon height_call)))
unfolding actor_main
actor_main-load_tip daemon caller_waits network told = rw told (
  capture_height-load_tip asked before ∙ (capture_tip-load_tip tip_reply).0,
  capture_height-load_height asked before
      ∙ (rw (capture_tip-load_tip tip_reply).1 (or_before-none (answered map_height asked))),
)
  where
    tip_reply : Flow IpcClientError ChainTipResult
    tip_reply = Ipc.get_chain_tip (daemon tip_call)

    asked : Flow IpcClientError TipHeightResult
    asked = Ipc.get_tip_height (daemon height_call)

    before : AtomicTipSnapshot
    before = capture_tip tip_reply empty
