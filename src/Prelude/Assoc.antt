-- ===== src/Prelude/Assoc.antt =====
-- `DashMap` and `HashMap` as association lists with one entry for a key. The order of the entries
-- stands for the order in which the source's maps iterate, which they leave open.
use mathlib.Core.Path.{◌≡◌, refl, sym, subst, ◌∙◌}
use mathlib.Core.Logic.{◌≢◌, ◌↔◌, inl, inr}
use mathlib.Core.Bool.{Bool, true}
use mathlib.Core.Option.{Option, none, some, some-injective}
use mathlib.Core.List.{List, [], ◌∷◌}
use native.Mathlib.Omega.{arith}
use sv2_p2pool.Prelude.Tests.{KeyEq, Bool-cases, ◌==◌, if◌then◌else◌}

abbrev pub Assoc {ℓ κ} : Type ℓ → Type κ → Type (ℓ ⊔ κ)
Assoc K V = List (K × V)

-- What is left of a looked-up value when only those that `p` accepts are kept.
abbrev pub kept {κ} : {V : Type κ} → (V → Bool) → Option V → Option V
kept p none = none
kept p (some v) = if p v then some v else none

pub kept_iff {κ} :
    {V : Type κ} (p : V → Bool) (o : Option V) (v : V)
    → (kept p o ≡ some v) ↔ ((o ≡ some v) × (p v ≡ true))
kept_iff p none v = (λ h. cc, λ h. cc h.0)
kept_iff p (some x) v = (λ h. (ground arith, ground arith), λ h. ground arith)

module _ {ℓ κ} {K : Type ℓ} ⦃keys : KeyEq K⦄ {V : Type κ} where
  unfoldable pub get : K → Assoc K V → Option V
  get k [] = none
  get k ((j, v) ∷ m) = if j == k then some v else get k m

  unfoldable pub remove : K → Assoc K V → Assoc K V
  remove k [] = []
  remove k ((j, v) ∷ m) = let rest = remove k m in if j == k then rest else (j, v) ∷ rest

  unfoldable pub insert : K → V → Assoc K V → Assoc K V
  insert k v m = (k, v) ∷ remove k m

  -- `retain(|k, v| p(k, v))`
  unfoldable pub retain : (K → V → Bool) → Assoc K V → Assoc K V
  retain p [] = []
  retain p ((j, v) ∷ m) = let rest = retain p m in if p j v then (j, v) ∷ rest else rest

  -- The empty map has no entry.
  pub get-nothing : (k : K) (v : V) → get k [] ≢ some v
  unfolding get
  get-nothing k v h = cc

  pub get-remove :
      (k j : K) (m : Assoc K V) → get j (remove k m) ≡ (if k == j then none else get j m)
  unfolding get remove
  get-remove k j [] = ground arith
  get-remove k j ((i, v) ∷ m) =
      ground
        (arith, get-remove k j m, keys.equals_iff i k, keys.equals_iff i j, keys.equals_iff k j)

  pub get-insert :
      (k j : K) (v : V) (m : Assoc K V)
      → get j (insert k v m) ≡ (if k == j then some v else get j m)
  unfolding get insert
  get-insert k j v m = ground (arith, get-remove k j m)

  pub get-insert_self : (k : K) (v : V) (m : Assoc K V) → get k (insert k v m) ≡ some v
  get-insert_self k v m = ground (arith, get-insert k k v m, keys.equals_iff k k)

  pub get-remove_self : (k : K) (m : Assoc K V) → get k (remove k m) ≡ none
  get-remove_self k m = ground (arith, get-remove k k m, keys.equals_iff k k)

  -- Removing a key that is not there changes nothing.
  pub remove_missing : (k : K) (m : Assoc K V) → get k m ≡ none → remove k m ≡ m
  unfolding get remove
  remove_missing k [] h = refl
  remove_missing k ((j, v) ∷ m) h = ground (arith, remove_missing k m)

  -- No key stands twice.
  abbrev pub IsMap : Assoc K V → Type κ
  IsMap [] = Unit {κ}
  IsMap ((k, v) ∷ m) = (get k m ≡ none) × IsMap m

  pub get-retain-none :
      (p : K → V → Bool) (k : K) (m : Assoc K V) → get k m ≡ none → get k (retain p m) ≡ none
  unfolding get retain
  get-retain-none p k [] h = refl
  get-retain-none p k ((j, v) ∷ m) h = ground (arith, get-retain-none p k m)

  -- On a map, an entry is kept exactly when the predicate holds of it.
  pub get-retain :
      (p : K → V → Bool) (k : K) (m : Assoc K V)
      → IsMap m
      → get k (retain p m) ≡ kept (p k) (get k m)
  unfolding get retain
  get-retain p k [] h = refl
  get-retain p k ((j, v) ∷ m) h =
      ground (arith, keys.equals_iff j k, get-retain p k m h.1, get-retain-none p k m)

  pub remove-IsMap : (k : K) (m : Assoc K V) → IsMap m → IsMap (remove k m)
  unfolding remove
  remove-IsMap k [] h = tt
  remove-IsMap k ((j, v) ∷ m) h = ground (arith, remove-IsMap k m h.1, get-remove k j m)

  pub insert-IsMap : (k : K) (v : V) (m : Assoc K V) → IsMap m → IsMap (insert k v m)
  unfolding insert
  insert-IsMap k v m h = (get-remove_self k m, remove-IsMap k m h)

  pub retain-IsMap : (p : K → V → Bool) (m : Assoc K V) → IsMap m → IsMap (retain p m)
  unfolding retain
  retain-IsMap p [] h = tt
  retain-IsMap p ((j, v) ∷ m) h = ground (arith, retain-IsMap p m h.1, get-retain-none p j m)

pub ruleset assoc_laws = (get-remove, get-insert)

-- Every value of a map has a property.
module _ {ℓ κ μ} {K : Type ℓ} ⦃keys : KeyEq K⦄ {V : Type κ} (P : V → Type μ) where
  abbrev pub Values : Assoc K V → Type (ℓ ⊔ κ ⊔ μ)
  Values m = (k : K) (v : V) → get k m ≡ some v → P v

  pub insert-Values : (k : K) (v : V) (m : Assoc K V) → P v → Values m → Values (insert k v m)
  insert-Values k v m p all j x h = elim (Bool-cases (k == j)) [
    | inl hit ↦ subst P (some-injective v x (ground (arith, get-insert k j v m))) p
    | inr miss ↦ all j x (ground (arith, get-insert k j v m))
  ]

  pub remove-Values : (k : K) (m : Assoc K V) → Values m → Values (remove k m)
  remove-Values k m all j x h = all j x (ground (arith, get-remove k j m))

  pub retain-Values : (p : K → V → Bool) (m : Assoc K V) → IsMap m → Values m → Values (retain p m)
  retain-Values p m is_map all j x h =
      all j x ((kept_iff (p j) (get j m) x).0 (sym (get-retain p j m is_map) ∙ h)).0

  pub empty-Values : Values []
  unfolding get
  empty-Values k v h = cc
