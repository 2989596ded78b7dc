-- ===== src/Jobs.antt =====
-- crates/sv2-p2pool-engine/src/lib.rs: `DeclaredJob`, `TipMetadata` and `DeclaredJobCache`.
pub mod Find
use sv2_p2pool.Prelude.{
  ℕ, ◌-◌, Bytes, ◌==◌, nat_eq, bytes_eq, Bool, ◌&&◌, if◌then◌else◌, List, [], ◌∷◌, Option, none,
  some, length,
}
use sv2_p2pool.Prelude.Assoc
use sv2_p2pool.Prelude.Assoc.{Assoc}
use sv2_p2pool.Bitcoin.{Hash, all_zeros}

pub record TipMetadata : Type 0 where
  pub prev_hash : Hash
  pub nbits : ℕ
  pub min_ntime : ℕ

abbrev pub default_tip : TipMetadata
default_tip = record { prev_hash = all_zeros; nbits = 0; min_ntime = 0 }

pub record DeclaredJob : Type 0 where
  pub version : ℕ
  pub coinbase_tx_prefix : Bytes
  pub coinbase_tx_suffix : Bytes
  pub wtxid_list : List Hash
  pub txid_list : Option (List Hash)
  pub tip : TipMetadata
  pub template_id : Option ℕ
  pub share_chain_tip : Option Hash
  pub validated : Bool
  pub allocated_token : Option ℕ

-- The cache, by request id.
abbrev pub DeclaredJobCache : Type 0
DeclaredJobCache = Assoc ℕ DeclaredJob

-- The three fields that a `PushSolution` shares with its job.
abbrev pub solves : Hash → ℕ → ℕ → DeclaredJob → Bool
solves prev_hash nbits version job =
    job.tip.prev_hash == prev_hash && (job.tip.nbits == nbits && job.version == version)

unfoldable pub find_by_solution : Hash → ℕ → ℕ → DeclaredJobCache → Option ℕ
find_by_solution prev_hash nbits version [] = none
find_by_solution prev_hash nbits version ((key, job) ∷ rest) =
    if solves prev_hash nbits version job
    then some key
    else find_by_solution prev_hash nbits version rest

-- The cache after `invalidate_all`, and the number of entries dropped.
unfoldable pub invalidate_all : DeclaredJobCache → DeclaredJobCache × ℕ
invalidate_all cache = ([], length cache)

-- The cache after `retain`, and the number of entries for which the predicate was false.
unfoldable pub retain : (DeclaredJob → Bool) → DeclaredJobCache → DeclaredJobCache × ℕ
retain predicate cache =
    let kept = Assoc.retain (λ _ job. predicate job) cache in (kept, length cache - length kept)
