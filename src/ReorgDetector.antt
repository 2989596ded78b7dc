-- ===== src/ReorgDetector.antt =====
-- crates/sv2-p2pool-engine/src/reorg_detector.rs: polls of the share-chain tip, and the tips that are
-- broadcast. `tip_source` is a closure, so a run is over the list of its answers, one a tick.
pub mod Edges
use sv2_p2pool.Prelude.{◌==◌, bytes_eq, if◌then◌else◌, List, [], ◌∷◌, Option, none, some}
use sv2_p2pool.Bitcoin.{Hash}

-- The new `last_tip`, and what was sent.
pub poll_once : Option Hash → Option Hash → Option Hash × Option Hash
poll_once none last_tip = (last_tip, none)
poll_once (some tip) none = (some tip, none)
poll_once (some tip) (some prev) = if tip == prev then (some prev, none) else (some tip, some tip)

-- What was sent goes to the end of the channel; `broadcasts` are the tips sent, oldest first.
abbrev pub sent : Option Hash → List Hash → List Hash
sent none rest = rest
sent (some tip) rest = tip ∷ rest

-- The loop of `run`, from a last tip over the answers of `tip_source`.
pub broadcasts : Option Hash → List (Option Hash) → List Hash
broadcasts last_tip [] = []
broadcasts last_tip (current ∷ polls) =
    let (tip, message) = poll_once current last_tip in sent message (broadcasts tip polls)
