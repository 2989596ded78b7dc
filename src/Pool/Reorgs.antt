-- ===== src/Pool/Reorgs.antt =====
-- From the daemon's pushes to the reorg broadcast of a pool over IPC: the pushes reach the snapshot,
-- the reorg watcher polls it, and broadcasts what changed.
use sv2_p2pool.Prelude.{◌≡◌, refl, ap, ap₂, ◌∙◌, List, [], ◌∷◌, Option, none}
use sv2_p2pool.Bitcoin.{Hash}
use sv2_p2pool.Ipc.Wire.{Lists}
use sv2_p2pool.ReorgDetector.{broadcasts}
use sv2_p2pool.ReorgDetector.Edges.{tips, changes, broadcasts-eq-changes}
use sv2_p2pool.ShareChain.Snapshot.{load_tip}
use sv2_p2pool.ShareChain.Actor.{Pushed}
use sv2_p2pool.ShareChain.Actor.Pushes.{Event, run, pushes, newest, run-broadcasts}

-- The last hash of each period, or that of the period before.
pub last_of_each : List (List Hash) → Option Hash → List (Option Hash)
last_of_each [] before = []
last_of_each (period ∷ periods) before =
    newest period before ∷ last_of_each periods (newest period before)

module _ {lists : Lists} where
  -- What the watcher's polls see, one after each period of the actor's thread.
  pub polls : List (List (Event lists)) → Pushed → List (Option Hash)
  polls [] s = []
  polls (period ∷ periods) s = load_tip (run period s).snapshot ∷ polls periods (run period s)

  -- The hashes pushed in each period.
  pub pushed_in : List (List (Event lists)) → List (List Hash)
  pushed_in [] = []
  pushed_in (period ∷ periods) = pushes period ∷ pushed_in periods

  polls-last_of_each :
      (periods : List (List (Event lists))) (s : Pushed)
      → polls periods s ≡ last_of_each (pushed_in periods) (load_tip s.snapshot)
  unfolding polls last_of_each pushed_in
  polls-last_of_each [] s = refl
  polls-last_of_each (period ∷ periods) s =
      let tip = (run-broadcasts period s).1 in
      ap₂ (λ t rest. t ∷ rest) tip
        (polls-last_of_each periods (run period s) ∙ ap (last_of_each (pushed_in periods)) tip)

  -- Over IPC, whatever is pushed and fetched between the watcher's polls, it broadcasts exactly the
  -- changes in the sequence of the last hash pushed in each period: of several tips that are pushed
  -- between two polls only the last can be seen, and a tip that comes back in between is not.
  pub broadcasts-polls :
      (periods : List (List (Event lists))) (s : Pushed)
      → broadcasts none (polls periods s)
        ≡ changes (tips (last_of_each (pushed_in periods) (load_tip s.snapshot)))
  broadcasts-polls periods s =
      broadcasts-eq-changes (polls periods s)
      ∙ ap (λ answers. changes (tips answers)) (polls-last_of_each periods s)
