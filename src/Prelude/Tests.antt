-- ===== src/Prelude/Tests.antt =====
-- Boolean tests on numbers, byte strings and texts, the conditional, and case splits on values.
use Prim.Native.Nat.{ℕ, compare, Ordering}
use Prim.Native.String.{String}
use mathlib.Core.Path.{◌≡◌, refl}
use mathlib.Core.Logic.{◌↔◌, ◌⊎◌, inl, inr}
use mathlib.Core.Bool.{Bool, true, false, ◌&&◌}
use mathlib.Core.Option.{Option, none, some}
use mathlib.Core.List.{List, [], ◌∷◌}
use native.Mathlib.Omega.{arith}
use text.Mathlib.Text.{◌==◌ as str_eq}
use text.Mathlib.TextEquality.{eq_iff}

abbrev pub ltb : ℕ → ℕ → Bool
ltb a b = elim (compare a b) [ Ordering.lt ↦ true | _ ↦ false ]

abbrev pub leb : ℕ → ℕ → Bool
leb a b = elim (compare a b) [ Ordering.gt ↦ false | _ ↦ true ]

abbrev pub nat_eqb : ℕ → ℕ → Bool
nat_eqb a b = elim (compare a b) [ Ordering.eq ↦ true | _ ↦ false ]

infix 1 if◌then◌else◌
abbrev pub if◌then◌else◌ {ℓ} : {A : Type ℓ} → Bool → A → A → A
if true then x else y = x
if false then x else y = y

pub nat_eqb_iff : (a b : ℕ) → (nat_eqb a b ≡ true) ↔ (a ≡ b)
nat_eqb_iff a b = ground arith

-- Byte strings, `[u8]`: equality and `starts_with`.
abbrev pub Bytes : Type 0
Bytes = List ℕ

unfoldable pub bytes_eqb : Bytes → Bytes → Bool
bytes_eqb [] [] = true
bytes_eqb [] (y ∷ ys) = false
bytes_eqb (x ∷ xs) [] = false
bytes_eqb (x ∷ xs) (y ∷ ys) = nat_eqb x y && bytes_eqb xs ys

pub bytes_eqb_sound : (xs ys : Bytes) → bytes_eqb xs ys ≡ true → xs ≡ ys
unfolding bytes_eqb
bytes_eqb_sound [] [] h = refl
bytes_eqb_sound [] (y ∷ ys) h = cc
bytes_eqb_sound (x ∷ xs) [] h = cc
bytes_eqb_sound (x ∷ xs) (y ∷ ys) h = ground (arith, bytes_eqb_sound xs ys)

pub bytes_eqb_refl : (xs : Bytes) → bytes_eqb xs xs ≡ true
unfolding bytes_eqb
bytes_eqb_refl [] = refl
bytes_eqb_refl (x ∷ xs) = ground (arith, bytes_eqb_refl xs)

pub bytes_eqb_iff : (xs ys : Bytes) → (bytes_eqb xs ys ≡ true) ↔ (xs ≡ ys)
bytes_eqb_iff xs ys = (bytes_eqb_sound xs ys, λ e. rw e (bytes_eqb_refl ys))

-- What the source derives as `Eq` for the keys of its maps.
pub record KeyEq {κ} (K : Type κ) : Type κ where
  pub equals : K → K → Bool
  pub equals_iff : (x y : K) → (equals x y ≡ true) ↔ (x ≡ y)

infix 50 ◌==◌
abbrev pub ◌==◌ {κ} : {K : Type κ} ⦃keys : KeyEq K⦄ → K → K → Bool
◌==◌ ⦃keys⦄ x y = keys.equals x y

instance abbrev pub bytes_eq : KeyEq Bytes
bytes_eq = record { equals = bytes_eqb; equals_iff = bytes_eqb_iff }

instance abbrev pub text_eq : KeyEq String
text_eq = record { equals = str_eq; equals_iff = eq_iff }

instance abbrev pub nat_eq : KeyEq ℕ
nat_eq = record { equals = nat_eqb; equals_iff = nat_eqb_iff }

-- Splits that keep the equation.
pub Bool-cases : (b : Bool) → (b ≡ true) ⊎ (b ≡ false)
Bool-cases true = inl refl
Bool-cases false = inr refl

pub Option-cases {ℓ} : {A : Type ℓ} (o : Option A) → (o ≡ none) ⊎ ((a : A) × (o ≡ some a))
Option-cases none = inl refl
Option-cases (some a) = inr (a, refl)

abbrev pub is_some {ℓ} : {A : Type ℓ} → Option A → Bool
is_some none = false
is_some (some a) = true
