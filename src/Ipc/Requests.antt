-- ===== src/Ipc/Requests.antt =====
-- The lists of a request, filled item by item into capnp's builder.
use sv2_p2pool.Prelude.{
  ℕ, zero, suc, ◌+◌, ◌%◌, ◌^◌, ◌<◌, ◌≡◌, refl, sym, ap, ◌∙◌, arith, Bytes, List, [], ◌∷◌, ◌++◌,
  append_assoc, some, length, length-append, replicate,
}
use sv2_p2pool.Prelude.Flow.{next}
use sv2_p2pool.Ipc.Wire.{Lists}
use sv2_p2pool.Ipc.{set_items, build_list}

-- `xs[i] = x`
abbrev pub put {ℓ} : {A : Type ℓ} → ℕ → A → List A → List A
put i x [] = []
put zero x (y ∷ ys) = x ∷ ys
put (suc i) x (y ∷ ys) = y ∷ put i x ys

put-append {ℓ} :
    {A : Type ℓ} (x y : A) (done rest : List A)
    → put (length done) x (done ++ y ∷ rest) ≡ done ++ x ∷ rest
put-append x y [] rest = refl
put-append x y (d ∷ done) rest = ap (◌∷◌ d) (put-append x y done rest)

-- capnp's list builder: a new list has empty elements, and `set` replaces one that exists. A list
-- pointer counts its elements in 29 bits.
pub record IsLawful (lists : Lists) : Type 0 where
  pub init_items : (n : ℕ) → n < 2 ^ 29 → lists.items (lists.init n) ≡ replicate n []
  pub set_item :
      (i : ℕ) (x : Bytes) (b : lists.Builder)
      → i < length (lists.items b)
      → (b' : lists.Builder) × (lists.set i x b ≡ some b')
        × (lists.items b' ≡ put i x (lists.items b))

module _ {lists : Lists} (lawful : IsLawful lists) where
  set_items-fill :
      (i : ℕ) (xs done : List Bytes) (b : lists.Builder)
      → i ≡ length done
      → lists.items b ≡ done ++ replicate (length xs) []
      → i + length xs < 2 ^ 32
      → (b' : lists.Builder) × (set_items lists i xs b ≡ next b') × (lists.items b' ≡ done ++ xs)
  unfolding set_items
  set_items-fill i [] done b at e small = (b, refl, e)
  set_items-fill i (x ∷ xs) done b at e small =
      let (b1, set1, items1) = lawful.set_item i x b room in
      let (b2, filled, items2) =
        set_items-fill (suc i) xs (done ++ x ∷ []) b1 next_at (items1 ∙ refilled) (omega arith) in
      (b2, rw (in_bounds, set1) filled, items2 ∙ append_assoc done (x ∷ []) xs)
    where
      room : i < length (lists.items b)
      room = rw (e, length-append done (replicate (suc (length xs)) [])) (omega (arith, at))

      in_bounds : i % 2 ^ 32 ≡ i
      in_bounds = omega arith

      next_at : suc i ≡ length (done ++ x ∷ [])
      next_at = omega (arith, length-append done (x ∷ []))

      refilled : put i x (lists.items b) ≡ (done ++ x ∷ []) ++ replicate (length xs) []
      refilled =
          rw (e, at) (put-append x [] done (replicate (length xs) []))
          ∙ sym (append_assoc done (x ∷ []) (replicate (length xs) []))

  -- A list of fewer than `2 ^ 29` items goes into the request as it is.
  pub build_list-items :
      (xs : List Bytes)
      → length xs < 2 ^ 29
      → (b : lists.Builder) × (build_list lists xs ≡ next b) × (lists.items b ≡ xs)
  unfolding build_list
  build_list-items xs small = rw in_bounds (
      set_items-fill 0 xs [] (lists.init (length xs)) refl (lawful.init_items (length xs) small)
        (omega arith))
    where
      in_bounds : length xs % 2 ^ 32 ≡ length xs
      in_bounds = omega arith
