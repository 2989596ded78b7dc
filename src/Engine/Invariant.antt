-- ===== src/Engine/Invariant.antt =====
-- The engine's invariant, and that every handler keeps it. A handler relies on it at its awaits:
-- what ran meanwhile kept it too, being other handlers.
pub mod Kept
pub mod Consumed
pub mod Tasks
pub mod Tokens
use sv2_p2pool.Prelude.{
  ℕ, suc, ◌≡◌, refl, Bool, true, false, Bytes, List, [], ◌∷◌, Option, none, some, length, nat_eq,
  bytes_eq,
}
use sv2_p2pool.Prelude.Assoc
use sv2_p2pool.Prelude.Assoc.{IsMap, Values}
use sv2_p2pool.Prelude.Flow.{Flow, next}
use sv2_p2pool.Bitcoin.{Hash, Bitcoin}
use sv2_p2pool.Jobs.{DeclaredJob, DeclaredJobCache}
use sv2_p2pool.Coinbase.{reconstruct_coinbase}
use sv2_p2pool.Engine.{Engine, World, Await, guarded, inserted, removed}

module _ (b : Bitcoin) where
  -- A job that was accepted: validated, with its txids and token, and with a coinbase that can be
  -- rebuilt and has one input.
  pub record IsDeclared (job : DeclaredJob) : Type 0 where
    pub is_validated : job.validated ≡ true
    pub txids : List Hash
    pub has_txids : job.txid_list ≡ some txids
    pub token : ℕ
    pub has_token : job.allocated_token ≡ some token
    pub coinbase_tx : b.Transaction
    pub rebuilds :
        reconstruct_coinbase b job.coinbase_tx_prefix job.coinbase_tx_suffix ≡ next coinbase_tx
    pub one_input : length (b.input coinbase_tx) ≡ 1

  -- Every user in the inverse index is bound to a token that has a payout script.
  abbrev pub IsLive : Engine → Type 0
  IsLive s =
      (user : Bytes) (token : ℕ)
      → Assoc.get user s.user_identifier_index ≡ some token
      → (script : Bytes) × (Assoc.get token s.token_payout ≡ some script)

  pub record Inv (s : Engine) : Type 0 where
    pub cache_map : IsMap s.declared_jobs
    pub declared : Values IsDeclared s.declared_jobs
    pub index_map : IsMap s.user_identifier_index
    pub live : IsLive s

  -- What others do meanwhile keeps the invariant.
  pub record Relies (w : World b) : Type 0 where
    pub keeps : (at : Await) (s : Engine) → Inv s → Inv (w.meanwhile at s)

  -- The payout maps are written by one handler at a time: nothing runs between the two writes of a
  -- binding or of an eviction, and what runs after an allocation's guard keeps the invariant.
  pub record Alone (w : World b) : Type 0 where
    pub keeps : (s : Engine) → Inv s → Inv (w.between guarded s)
    pub binds : (s : Engine) → w.between inserted s ≡ s
    pub evicts : (s : Engine) → w.between removed s ≡ s
