-- ===== src/Prelude/Flow.antt =====
-- Fallible code. `next` is `Ok` or the normal end of a step, `exit` is `Err`, `?` or an early
-- `return`, and `panic` is a failed `expect`, an index out of range or a capacity overflow.
-- `Action` adds a state: what was written before an exit or a panic stays written.
use mathlib.Core.Path.{◌≡◌, refl, ap}
use mathlib.Core.Logic.{◌≢◌}
use mathlib.Core.Bool.{Bool, true, false}
use mathlib.Core.Option.{Option, none, some}
use mathlib.Core.List.{List, [], ◌∷◌}

pub data Flow {ℓ κ} (R : Type κ) (A : Type ℓ) : Type (ℓ ⊔ κ) where
  next : A → Flow R A
  exit : R → Flow R A
  panic : Flow R A

module _ {ℓ κ} {R : Type κ} {A : Type ℓ} where
  -- `o.ok_or(r)?`
  abbrev pub or_exit : Option A → R → Flow R A
  or_exit none r = exit r
  or_exit (some a) r = next a

  -- `o.expect(..)`
  abbrev pub or_panic : Option A → Flow R A
  or_panic none = panic
  or_panic (some a) = next a

-- `if !b { return r; }`
abbrev pub require {κ} : {R : Type κ} → Bool → R → Flow R (Unit {0})
require true r = next tt
require false r = exit r

-- `.map_err(f)?`
abbrev pub map_exit {ℓ κ μ} : {A : Type ℓ} {R : Type κ} {S : Type μ} → (R → S) → Flow R A → Flow S A
map_exit f (next a) = next a
map_exit f (exit r) = exit (f r)
map_exit f panic = panic

infixl 5 ◌>>=◌ ◌>>◌
abbrev pub ◌>>=◌ {ℓ κ μ} :
    {R : Type κ} {A : Type ℓ} {B : Type μ} → Flow R A → (A → Flow R B) → Flow R B
next a >>= f = f a
exit r >>= f = exit r
panic >>= f = panic

abbrev pub ◌>>◌ {κ μ} : {R : Type κ} {B : Type μ} → Flow R (Unit {0}) → Flow R B → Flow R B
m >> k = m >>= λ _. k

-- `iter().map(f).collect()` where `f` may fail.
unfoldable pub traverse {ℓ κ μ} :
    {R : Type κ} {A : Type ℓ} {B : Type μ} → (A → Flow R B) → List A → Flow R (List B)
traverse f [] = next []
traverse f (x ∷ xs) = do y ← f x; ys ← traverse f xs; next (y ∷ ys)

-- What a step gave, when it gave something.
pub >>=-eq-next {ℓ κ μ} :
    {R : Type κ} {A : Type ℓ} {B : Type μ} (m : Flow R A) (f : A → Flow R B) (b : B)
    → (m >>= f) ≡ next b
    → (a : A) × (m ≡ next a) × (f a ≡ next b)
>>=-eq-next (next a) f b h = (a, refl, h)
>>=-eq-next (exit r) f b h = cc
>>=-eq-next panic f b h = cc

-- A sequence does not panic when its steps do not.
pub >>=_returns {ℓ κ μ} :
    {R : Type κ} {A : Type ℓ} {B : Type μ} (m : Flow R A) (f : A → Flow R B)
    → m ≢ panic
    → ((a : A) → m ≡ next a → f a ≢ panic)
    → (m >>= f) ≢ panic
>>=_returns (next a) f m_returns f_returns h = f_returns a refl h
>>=_returns (exit r) f m_returns f_returns h = cc
>>=_returns panic f m_returns f_returns h = m_returns refl

pub require_returns {κ} : {R : Type κ} (b : Bool) (r : R) → require b r ≢ panic
require_returns true r h = cc
require_returns false r h = cc

module _ {ℓ κ} {R : Type κ} {A : Type ℓ} where
  pub or_exit_returns : (o : Option A) (r : R) → or_exit o r ≢ panic
  or_exit_returns none r h = cc
  or_exit_returns (some a) r h = cc

  abbrev value_or : A → Flow R A → A
  value_or d (next a) = a
  value_or d (exit r) = d
  value_or d panic = d

  pub next-injective : {a a' : A} → ◌≡◌ {A = Flow R A} (next a) (next a') → a ≡ a'
  next-injective {a} h = ap (value_or a) h

  abbrev exit_or : R → Flow R A → R
  exit_or d (next a) = d
  exit_or d (exit r) = r
  exit_or d panic = d

  pub exit-injective : {r r' : R} → ◌≡◌ {A = Flow R A} (exit r) (exit r') → r ≡ r'
  exit-injective {r} h = ap (exit_or r) h

  pub or_exit-eq-next : (o : Option A) (r : R) (a : A) → or_exit o r ≡ next a → o ≡ some a
  or_exit-eq-next none r a h = cc
  or_exit-eq-next (some x) r a h = cc

  pub or_panic-eq-next :
      (o : Option A) (a : A) → ◌≡◌ {A = Flow R A} (or_panic o) (next a) → o ≡ some a
  or_panic-eq-next none a h = cc
  or_panic-eq-next (some x) a h = cc

pub map_exit-eq-next {ℓ κ μ} :
    {A : Type ℓ} {R : Type κ} {S : Type μ} (f : R → S) (m : Flow R A) (a : A)
    → map_exit f m ≡ next a
    → m ≡ next a
map_exit-eq-next f (next x) a h = cc
map_exit-eq-next f (exit r) a h = cc
map_exit-eq-next f panic a h = cc

pub require-eq-next {κ} : {R : Type κ} (b : Bool) (r : R) → require b r ≡ next tt → b ≡ true
require-eq-next true r h = refl
require-eq-next false r h = cc

-- `.map(f)` on the normal result.
abbrev pub map_next {ℓ κ μ} : {R : Type κ} {A : Type ℓ} {B : Type μ} → (A → B) → Flow R A → Flow R B
map_next f (next a) = next (f a)
map_next f (exit r) = exit r
map_next f panic = panic
