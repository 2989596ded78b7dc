-- ===== src/Engine/Declare/Fails.antt =====
-- Steps of `handle_declare_mining_job` that never end with a given result.
use sv2_p2pool.Prelude.{
  ◌≡◌, ◌≢◌, refl, Bool, true, false, Bytes, List, [], ◌∷◌, Option, none, some, nat_eq,
}
use sv2_p2pool.Prelude.Flow.{
  Flow, next, exit, panic, or_exit, or_panic, require, map_exit, traverse, ◌>>=◌, exit-injective,
}
use sv2_p2pool.Bitcoin.{Hash, to_hash}

-- Steps that never exit with a given result.
module _ {ℓ} {A : Type ℓ} {R : Type 0} {r : R} where
  pub >>=_fails {κ} :
      {B : Type κ} (m : Flow R B) (f : B → Flow R A)
      → m ≢ exit r
      → ((x : B) → m ≡ next x → f x ≢ exit r)
      → (m >>= f) ≢ exit r
  >>=_fails (next x) f m_fails f_fails h = f_fails x refl h
  >>=_fails (exit r') f m_fails f_fails h = m_fails cc
  >>=_fails panic f m_fails f_fails h = cc

  pub or_exit_fails : {r' : R} (o : Option A) → r' ≢ r → or_exit o r' ≢ exit r
  or_exit_fails none apart h = apart (exit-injective h)
  or_exit_fails (some x) apart h = cc

  pub map_exit_fails {κ} :
      {S : Type κ} {f : S → R} (m : Flow S A) → ((x : S) → f x ≢ r) → map_exit f m ≢ exit r
  map_exit_fails (next x) apart h = cc
  map_exit_fails (exit x) apart h = apart x (exit-injective h)
  map_exit_fails panic apart h = cc

pub require_fails : {R : Type 0} {r r' : R} (c : Bool) → r' ≢ r → require c r' ≢ exit r
require_fails true apart h = cc
require_fails false apart h = apart (exit-injective h)

pub hashes_fail :
    {R : Type 0} {r : R} (xs : List Bytes)
    → ◌≢◌ {A = Flow R (List Hash)} (traverse (λ u256. or_panic (to_hash u256)) xs) (exit r)
unfolding traverse
hashes_fail [] = λ h. cc
hashes_fail {R} (x ∷ xs) =
    >>=_fails {R = R} (or_panic (to_hash x)) _ (or_panic_fails (to_hash x)) (λ y _.
      >>=_fails (traverse (λ u256. or_panic (to_hash u256)) xs) _ (hashes_fail xs) (λ ys _ h. cc))
  where
    or_panic_fails : (o : Option Hash) {r : R} → ◌≢◌ {A = Flow R Hash} (or_panic o) (exit r)
    or_panic_fails none h = cc
    or_panic_fails (some y) h = cc
