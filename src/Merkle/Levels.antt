-- ===== src/Merkle/Levels.antt =====
-- One level of the tree against its description by pairs: no index is out of range.
use sv2_p2pool.Prelude.{
  ℕ, zero, suc, ◌+◌, ◌-◌, ◌*◌, ◌/◌, ◌<◌, ◌≡◌, refl, ap, ap₂, ◌∙◌, fun_ext, min, List, [], ◌∷◌, map,
  length, range_from, arith,
}
use sv2_p2pool.Bitcoin.{Hash, Bitcoin, node}
use sv2_p2pool.Merkle.{pair_at, next_level}

module _ (b : Bitcoin) where
  -- Bitcoin's rule: neighbours are hashed in pairs, an odd last one with itself.
  unfoldable pub pair_up : List Hash → List Hash
  pair_up [] = []
  pair_up (x ∷ []) = node b x x ∷ []
  pair_up (x ∷ y ∷ rest) = node b x y ∷ pair_up rest

  pub length-pair_up : (xs : List Hash) → length (pair_up xs) ≡ (length xs + 1) / 2
  unfolding pair_up
  length-pair_up [] = omega arith
  length-pair_up (x ∷ []) = omega arith
  length-pair_up (x ∷ y ∷ rest) = omega (arith, length-pair_up rest)

  -- Past the first two hashes, an index of the next level is one less in the rest.
  pair_at-suc :
      (x y : Hash) (rest : List Hash) (i : ℕ)
      → 0 < length rest
      → pair_at b (x ∷ y ∷ rest) (suc i) ≡ pair_at b rest i
  unfolding pair_at
  pair_at-suc x y rest i h = rw (two, last) refl
    where
      two : 2 * suc i ≡ suc (suc (2 * i))
      two = omega arith

      last :
          min (suc (suc (2 * i)) + 1) (length (x ∷ y ∷ rest) - 1)
          ≡ suc (suc (min (2 * i + 1) (length rest - 1)))
      last = omega arith

  pair_at-zero : (x y : Hash) (rest : List Hash) → pair_at b (x ∷ y ∷ rest) 0 ≡ node b x y
  unfolding pair_at
  pair_at-zero x y rest = rw one refl
    where
      one : min (2 * 0 + 1) (length (x ∷ y ∷ rest) - 1) ≡ 1
      one = omega arith

  map-range_suc :
      (f : ℕ → Hash) (i n : ℕ)
      → map f (range_from (suc i) n) ≡ map (λ j. f (suc j)) (range_from i n)
  map-range_suc f i zero = refl
  map-range_suc f i (suc n) = ap (◌∷◌ (f (suc i))) (map-range_suc f (suc i) n)

  next_level-suc :
      (x y : Hash) (rest : List Hash)
      → 0 < length rest
      → next_level b (x ∷ y ∷ rest) ≡ node b x y ∷ next_level b rest
  unfolding next_level
  next_level-suc x y rest h = rw halves (
      ap₂ ◌∷◌ (pair_at-zero x y rest) (
        map-range_suc (pair_at b (x ∷ y ∷ rest)) 0 ((length rest + 1) / 2)
        ∙ ap (λ f. map f (range_from 0 ((length rest + 1) / 2)))
            (fun_ext (λ i. pair_at-suc x y rest i h))))
    where
      halves : (length (x ∷ y ∷ rest) + 1) / 2 ≡ suc ((length rest + 1) / 2)
      halves = omega arith

  -- A level as the loops compute it, by index, is the level by pairs.
  pub next_level-eq-pair_up : (xs : List Hash) → next_level b xs ≡ pair_up xs
  unfolding pair_up
  next_level-eq-pair_up [] = unfold next_level in refl
  next_level-eq-pair_up (x ∷ []) = unfold next_level in refl
  next_level-eq-pair_up (x ∷ y ∷ []) = unfold next_level in refl
  next_level-eq-pair_up (x ∷ y ∷ z ∷ rest) =
      next_level-suc x y (z ∷ rest) (omega arith)
      ∙ ap (◌∷◌ (node b x y)) (next_level-eq-pair_up (z ∷ rest))

  pub next_level-cons :
      (x y : Hash) (rest : List Hash) → next_level b (x ∷ y ∷ rest) ≡ node b x y ∷ pair_up rest
  unfolding pair_up
  next_level-cons x y rest = next_level-eq-pair_up (x ∷ y ∷ rest)

  pub pair_up-cons :
      (z : Hash) (rest : List Hash) → (q : Hash) × (qs : List Hash) × (pair_up (z ∷ rest) ≡ q ∷ qs)
  unfolding pair_up
  pair_up-cons z [] = (node b z z, [], refl)
  pair_up-cons z (w ∷ rest) = (node b z w, pair_up rest, refl)
