-- ===== src/Tests/Pushes.antt =====
-- Pushed tips, the height, the watcher's polls, and a load between two stores.
use sv2_p2pool.Prelude.{ℕ, ◌≡◌, refl, true, List, [], ◌∷◌, none, some, if◌then◌else◌, bytes_eq}
use sv2_p2pool.Ipc.{
  found, missing_transactions, validate_template, get_share_header, get_network, received,
}
use sv2_p2pool.ShareChain.Snapshot
use sv2_p2pool.ShareChain.Actor.{Pushed, fetch_height, map_height}
use sv2_p2pool.ShareChain.Actor.Start.{answered, or_before}
use sv2_p2pool.ShareChain.Snapshot.{load_tip, load_height}
use sv2_p2pool.ShareChain.Snapshot.Interleaving.{
  System, wrote, done, initial, Reach, here, after, write, flag, check, read, Loaded, Reach-Loaded,
}
use sv2_p2pool.ShareChain.Actor.Pushes.{
  Event, pushed, fetched, run, owed, waits, fetch_height-load_height,
}
use sv2_p2pool.ReorgDetector.{broadcasts}
use sv2_p2pool.ReorgDetector.Edges.{tips, changes}
use sv2_p2pool.Pool.Reorgs.{last_of_each, polls, pushed_in, broadcasts-polls}
use sv2_p2pool.Ipc
use sv2_p2pool.Tests.{hash_of}
use sv2_p2pool.Tests.Chain.{lists, client}

-- Two pushes and a bad one on the actor's thread.
abbrev before : Pushed
before = record { snapshot = Snapshot.empty; broadcasts = []; height_triggers = 0 }

abbrev first_period : List (Event lists)
first_period = pushed (hash_of 1) ∷ pushed (7 ∷ []) ∷ pushed (hash_of 2) ∷ []

fetch_height-load_height_example :
    load_height (fetch_height client (run first_period before)).snapshot ≡ (
      if owed first_period (waits 0)
      then or_before
          (answered map_height (Ipc.get_tip_height client))
          (load_height (run first_period before).snapshot)
      else load_height (run first_period before).snapshot)
fetch_height-load_height_example = fetch_height-load_height first_period client before

abbrev periods : List (List (Event lists))
periods = first_period ∷ (fetched client ∷ []) ∷ (pushed (hash_of 3) ∷ []) ∷ []

broadcasts-polls_example :
    broadcasts none (polls periods before)
    ≡ changes (tips (last_of_each (pushed_in periods) (load_tip before.snapshot)))
broadcasts-polls_example = broadcasts-polls periods before

-- A load that looks at the flag of the second store and reads after its value was written.
abbrev interleaved : System ℕ
interleaved = record {
  cell = record { set = true; value = 5 };
  writer = wrote 5;
  loader = done (some 5);
  written = 5 ∷ 4 ∷ [];
  completed = 4 ∷ [];
  at_flag = 4 ∷ [];
}

interleaved-reached : Reach (initial 0) interleaved
interleaved-reached =
    after (after (after (after (after here (write 4 refl)) (flag 4 refl)) check) (write 5 refl))
      (read refl)

Reach-Loaded_example : Loaded {A = ℕ} (done (some 5)) (5 ∷ 4 ∷ []) (4 ∷ [])
Reach-Loaded_example = Reach-Loaded 0 interleaved interleaved-reached
