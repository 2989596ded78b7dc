-- ===== src/RecentSolutions.antt =====
-- crates/sv2-p2pool-engine/src/recent_solutions.rs: block-finder credits that wait for their share.
-- Time is the moment of each call, in the unit of the TTL; `elapsed` saturates at 0 as `-` does.
pub mod Credit
use sv2_p2pool.Prelude.{
  ℕ, ◌-◌, leb, ltb, bytes_eq, if◌then◌else◌, Bool, Option, none, some, List, [], ◌∷◌, length,
}
use sv2_p2pool.Prelude.Assoc
use sv2_p2pool.Prelude.Assoc.{Assoc}
use sv2_p2pool.Bitcoin.{Hash}

-- `(Instant, BlockHash)`
pub record Entry : Type 0 where
  pub recorded_at : ℕ
  pub block_hash : Hash

pub record RecentSolutions : Type 0 where
  pub inner : Assoc Hash Entry
  pub ttl : ℕ

abbrev elapsed : ℕ → Entry → ℕ
elapsed now entry = now - entry.recorded_at

unfoldable pub new : ℕ → RecentSolutions
new ttl = record { inner = []; ttl = ttl }

unfoldable pub recorded : RecentSolutions → ℕ → Hash → Hash → RecentSolutions
recorded buf now share_hash block_hash = record buf {
  inner = Assoc.insert share_hash (record { recorded_at = now; block_hash = block_hash }) buf.inner;
}

-- The credit that an entry still gives: none once it is older than the TTL.
abbrev pub claim : ℕ → ℕ → Option Entry → Option Hash
claim ttl now none = none
claim ttl now (some entry) = if ltb ttl (elapsed now entry) then none else some entry.block_hash

unfoldable pub take : RecentSolutions → ℕ → Hash → RecentSolutions × Option Hash
take buf now share_hash = (
  record buf { inner = Assoc.remove share_hash buf.inner },
  claim buf.ttl now (Assoc.get share_hash buf.inner),
)

unfoldable pub sweep : RecentSolutions → ℕ → RecentSolutions
sweep buf now = record buf {
  inner = Assoc.retain (λ _ entry. leb (elapsed now entry) buf.ttl) buf.inner;
}

unfoldable pub len : RecentSolutions → ℕ
len buf = length buf.inner

unfoldable pub is_empty : RecentSolutions → Bool
unfolding len
is_empty buf = leb (len buf) 0
