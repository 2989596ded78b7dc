-- ===== src/Engine/Reorg/Ancestry.antt =====
-- The ancestry walk against the relation of ancestors.
use sv2_p2pool.Prelude.{
  ℕ, zero, suc, ◌≡◌, ◌≢◌, refl, ◌↔◌, ◌⊎◌, inl, inr, true, bytes_eq, bytes_eqb_iff, List, [], ◌∷◌,
  Option, none, some, arith, nat_eq,
}
use sv2_p2pool.Bitcoin.{Hash, Bitcoin}
use sv2_p2pool.Engine.{World, ShareHeaderLookup, found, not_found, genesis}
use sv2_p2pool.Engine.Reorg.{contains, walk}

module _ {b : Bitcoin} (w : World b) where
  -- `a` is reached from `h` by at most `hops` steps to the previous share.
  pub data IsAncestor : ℕ → Hash → Hash → Type 0 where
    self : {hops : ℕ} {h a : Hash} → h ≡ a → IsAncestor hops h a
    parent :
        {hops : ℕ} {h p a : Hash}
        → w.share_header h ≡ some (found (some p))
        → IsAncestor hops p a
        → IsAncestor (suc hops) h a

  -- One hop of the walk: to the previous share, to the end of the chain, or into a failure.
  data Hop (cursor : Hash) : Type 0 where
    moves :
        (prev : Hash)
        → w.share_header cursor ≡ some (found (some prev))
        → ((hops : ℕ) (acc : List Hash)
            → walk b w (suc hops) cursor acc ≡ walk b w hops prev (prev ∷ acc))
        → Hop cursor
    ends :
        ((prev : Hash) → w.share_header cursor ≢ some (found (some prev)))
        → ((hops : ℕ) (acc : List Hash) → walk b w (suc hops) cursor acc ≡ some acc)
        → Hop cursor
    fails : ((hops : ℕ) (acc : List Hash) → walk b w (suc hops) cursor acc ≡ none) → Hop cursor

  Hop-at : (cursor : Hash) (o : Option ShareHeaderLookup) → w.share_header cursor ≡ o → Hop cursor
  unfolding walk
  Hop-at cursor none e = fails (λ hops acc. rw (e, walk))
  Hop-at cursor (some (found (some prev))) e = moves prev e (λ hops acc. rw (e, walk))
  Hop-at cursor (some (found none)) e = ends (λ prev h. cc) (λ hops acc. rw (e, walk))
  Hop-at cursor (some genesis) e = ends (λ prev h. cc) (λ hops acc. rw (e, walk))
  Hop-at cursor (some not_found) e = fails (λ hops acc. rw (e, walk))

  hop : (cursor : Hash) → Hop cursor
  hop cursor = Hop-at cursor (w.share_header cursor) refl

  contains-cons_self : (x : Hash) (xs : List Hash) → contains x (x ∷ xs) ≡ true
  unfolding contains
  contains-cons_self x xs = ground (arith, bytes_eqb_iff x x)

  contains-cons : (a x : Hash) (xs : List Hash) → contains a xs ≡ true → contains a (x ∷ xs) ≡ true
  unfolding contains
  contains-cons a x xs h = ground arith

  contains-uncons :
      (a x : Hash) (xs : List Hash) → contains a (x ∷ xs) ≡ true → (x ≡ a) ⊎ (contains a xs ≡ true)
  unfolding contains
  contains-uncons a x xs h = ground (arith, bytes_eqb_iff x a)

  walk-zero : (cursor : Hash) (acc : List Hash) → walk b w zero cursor acc ≡ some acc
  unfolding walk
  walk-zero cursor acc = refl

  walk-keeps :
      (hops : ℕ) (cursor a : Hash) (acc ancestors : List Hash)
      → walk b w hops cursor acc ≡ some ancestors
      → contains a acc ≡ true
      → contains a ancestors ≡ true
  walk-keeps zero cursor a acc ancestors e h = ground (arith, walk-zero cursor acc)
  walk-keeps (suc hops) cursor a acc ancestors e h =
      go (hop cursor) (λ prev. walk-keeps hops prev a (prev ∷ acc) ancestors)
    where
      go :
          Hop cursor
          → ((prev : Hash)
              → walk b w hops prev (prev ∷ acc) ≡ some ancestors
              → contains a (prev ∷ acc) ≡ true
              → contains a ancestors ≡ true)
          → contains a ancestors ≡ true
      go (moves prev _ step) ih =
          ih prev (ground (arith, step hops acc)) (contains-cons a prev acc h)
      go (ends _ step) ih = ground (arith, step hops acc)
      go (fails step) ih = ground (arith, step hops acc)

  -- Every ancestor within the depth is collected.
  walk-collects :
      (hops : ℕ) (cursor a : Hash) (acc ancestors : List Hash)
      → walk b w hops cursor acc ≡ some ancestors
      → contains cursor acc ≡ true
      → IsAncestor hops cursor a
      → contains a ancestors ≡ true
  walk-collects hops cursor a acc ancestors e c (self same) =
      walk-keeps hops cursor a acc ancestors e (ground (arith, c, same))
  walk-collects (suc hops) cursor a acc ancestors e c (parent {p = p} link above) =
      go (hop cursor) (λ prev e' same.
        walk-collects hops p a (p ∷ acc) ancestors (rw (← same) e') (contains-cons_self p acc)
          above)
    where
      go :
          Hop cursor
          → ((prev : Hash)
              → walk b w hops prev (prev ∷ acc) ≡ some ancestors
              → prev ≡ p
              → contains a ancestors ≡ true)
          → contains a ancestors ≡ true
      go (moves prev there step) ih =
          ih prev (ground (arith, step hops acc)) (ground (arith, there, link))
      go (ends nothing step) ih = absurd (nothing p link)
      go (fails step) ih = ground (arith, step hops acc)

  -- Nothing else is collected.
  walk-only :
      (hops : ℕ) (cursor a : Hash) (acc ancestors : List Hash)
      → walk b w hops cursor acc ≡ some ancestors
      → contains a ancestors ≡ true
      → (contains a acc ≡ true) ⊎ IsAncestor hops cursor a
  walk-only zero cursor a acc ancestors e h = inl (ground (arith, walk-zero cursor acc))
  walk-only (suc hops) cursor a acc ancestors e h =
      go (hop cursor) (λ prev. walk-only hops prev a (prev ∷ acc) ancestors)
    where
      go :
          Hop cursor
          → ((prev : Hash)
              → walk b w hops prev (prev ∷ acc) ≡ some ancestors
              → contains a ancestors ≡ true
              → (contains a (prev ∷ acc) ≡ true) ⊎ IsAncestor hops prev a)
          → (contains a acc ≡ true) ⊎ IsAncestor (suc hops) cursor a
      go (moves prev there step) ih = elim (ih prev (ground (arith, step hops acc)) h) [
        | inl member ↦ elim (contains-uncons a prev acc member) [
          | inl same ↦ inr (parent there (self same))
          | inr old ↦ inl old
        ]
        | inr above ↦ inr (parent there above)
      ]
      go (ends nothing step) ih = inl (ground (arith, step hops acc))
      go (fails step) ih = absurd (ground (arith, step hops acc))

  -- A completed walk from `new_tip` collects exactly its ancestors within the depth.
  pub walk_iff :
      (hops : ℕ) (new_tip a : Hash) (ancestors : List Hash)
      → walk b w hops new_tip (new_tip ∷ []) ≡ some ancestors
      → (contains a ancestors ≡ true) ↔ IsAncestor hops new_tip a
  walk_iff hops new_tip a ancestors e =
      (only, walk-collects hops new_tip a _ ancestors e (contains-cons_self new_tip []))
    where
      only : contains a ancestors ≡ true → IsAncestor hops new_tip a
      only h = elim (walk-only hops new_tip a (new_tip ∷ []) ancestors e h) [
        | inl member ↦ elim (contains-uncons a new_tip [] member) [
          | inl same ↦ self same
          | inr none_left ↦ absurd (unfold contains in ground (arith, none_left))
        ]
        | inr above ↦ above
      ]
