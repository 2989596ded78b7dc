-- ===== src/Engine.antt =====
-- crates/sv2-p2pool-engine/src/lib.rs and engine_impl.rs: the state of `P2poolV2Engine`, the world
-- that answers its calls, and what the handlers share. Each handler is a module below.
pub mod Declare
pub mod Custom
pub mod Push
pub mod Allocate
pub mod Reorg
pub mod Invariant
pub mod Events
use sv2_p2pool.Prelude.{
  ℕ, Bool, true, false, Bytes, String, List, [], ◌∷◌, Option, none, some, bytes_eq, nat_eq, nat_eqb,
  ◌&&◌, ◌||◌, not, if◌then◌else◌,
}
use sv2_p2pool.Prelude.Assoc
use sv2_p2pool.Prelude.Assoc.{Assoc}
use sv2_p2pool.Bitcoin.{Hash, Bitcoin, Block}
pub use sv2_p2pool.Ipc.{ShareHeaderLookup, found, not_found, genesis}
use sv2_p2pool.Jobs.{DeclaredJobCache}
use sv2_p2pool.RecentSolutions
use sv2_p2pool.RecentSolutions.{RecentSolutions}
use sv2_p2pool.Metrics.{EngineMetrics}
use sv2_p2pool.Tdp.{TdpHandle}

-- `handles` says whether the chain reader and bitcoind are wired; what they answer is in `World`.
-- Scripts are their bytes, user identifiers their code points.
pub record Engine : Type 0 where
  pub declared_jobs : DeclaredJobCache
  pub allocated_tokens : Assoc ℕ ℕ
  pub token_payout : Assoc ℕ Bytes
  pub user_identifier_index : Assoc Bytes ℕ
  pub recent_solutions : RecentSolutions
  pub handles : Bool
  pub tdp : Option TdpHandle
  pub metrics : Option EngineMetrics

-- Seconds.
abbrev pub default_recent_solutions_ttl : ℕ
default_recent_solutions_ttl = 30

unfoldable pub new : Engine
new = record {
  declared_jobs = [];
  allocated_tokens = [];
  token_payout = [];
  user_identifier_index = [];
  recent_solutions = RecentSolutions.new default_recent_solutions_ttl;
  handles = false;
  tdp = none;
  metrics = none;
}

pub data ProposalOutcome : Type 0 where
  accepted duplicate : ProposalOutcome
  rejected : ProposalOutcome

-- Where a handler lets others run: at an `await`, or between two looks at a shared map.
pub data Await : Type 0 where
  tip_read bodies_fetch proposal_check cache_look header_walk : Await

-- What the engine calls and does not own. `none` is `Err(_)`. `meanwhile` is what other tasks
-- did to the engine's shared state while a handler waited: anything at all.
-- Between two looks at the payout maps, which are two shared maps: after the guard of an allocation,
-- between the inserts of a binding, and between the removals of an eviction.
pub data PayoutPoint : Type 0 where
  guarded inserted removed : PayoutPoint

pub record World (b : Bitcoin) : Type 0 where
  pub now : ℕ
  pub chain_tip : Option (Option Hash)
  pub share_header : Hash → Option ShareHeaderLookup
  pub tx_bodies : ℕ → Option (List b.Transaction)
  pub proposal : Block b → Option ProposalOutcome
  pub submit_reply : Block b → Option String
  -- `str::nfkc`, of the `unicode_normalization` crate
  pub nfkc : Bytes → Bytes
  -- the test hook of `resolve_payout_script`; `none` in production, where no selector is wired
  pub payout_resolver : Option (Bytes → Option Bytes)
  pub meanwhile : Await → Engine → Engine
  -- what other handlers do in between
  pub between : PayoutPoint → Engine → Engine

-- `if let Some(m) = self.metrics() { .. }`
abbrev pub bump : (EngineMetrics → EngineMetrics) → Engine → Engine
bump f s = record s { metrics = counted s.metrics }
  where
    counted : Option EngineMetrics → Option EngineMetrics
    counted none = none
    counted (some m) = some (f m)

abbrev pub lookup_payout_script : ℕ → Engine → Option Bytes
lookup_payout_script token s = Assoc.get token s.token_payout
