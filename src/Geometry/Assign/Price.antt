-- ===== src/Geometry/Assign/Price.antt =====
-- The price of an assignment of stops to segments: the sum of the distances that the dynamic
-- program of simulator_app/domain/progression/shapes.py minimises, in its order of additions.
use databus_sim.Prelude.{
  ℕ, zero, suc, ◌<◌, ◌≡◌, refl, subst, List, [], ◌∷◌, All, length, get_elem?, Option, none, some,
  arith, Option-cases, inl, inr,
}
use mathlib.Core.Option.{some-injective}
use databus_sim.Float.{Float, IsOrdered, ◌≼◌, lit}

module _ {F : Type 0} ⦃fl : Float F⦄ where
  -- The price `acc` of the stops so far, and the costs of the others on their segments: `none`
  -- where there is not one segment for each, or a segment has no cost.
  unfoldable pub price_from : F → List (List F) → List ℕ → Option F
  price_from acc [] [] = some acc
  price_from acc [] (j ∷ js) = none
  price_from acc (cost ∷ costs) [] = none
  price_from acc (cost ∷ costs) (j ∷ js) = elim (get_elem? cost j) [
    | none ↦ none
    | some c ↦ price_from (fl.add c acc) costs js
  ]

  unfoldable pub price : List F → List (List F) → List ℕ → Option F
  unfolding price_from
  price cost costs [] = none
  price cost costs (j ∷ js) = elim (get_elem? cost j) [
    | none ↦ none
    | some c ↦ price_from c costs js
  ]

  -- A cost is a number that is not negative.
  abbrev pub IsCost : F → Type 0
  IsCost c = lit 0 ≼ c

  pub All-get :
      (P : F → Type 0) (xs : List F) (i : ℕ) (x : F) → All P xs → get_elem? xs i ≡ some x → P x
  All-get P [] i x h e = cc
  All-get P (y ∷ xs) zero x h e = subst P (some-injective _ _ e) h.0
  All-get P (y ∷ xs) (suc i) x h e = All-get P xs i x h.1 e

pub lt_of_get_elem? {ℓ} :
    {A : Type ℓ} (xs : List A) (i : ℕ) (x : A) → get_elem? xs i ≡ some x → i < length xs
lt_of_get_elem? [] i x e = cc
lt_of_get_elem? (y ∷ xs) zero x e = omega arith
lt_of_get_elem? (y ∷ xs) (suc i) x e = let h = lt_of_get_elem? xs i x e in omega arith

module _ {F : Type 0} ⦃fl : Float F⦄ (laws : IsOrdered F) where
  pub number : (x : F) → IsCost x → x ≼ x
  number x h = (laws.refl_of_le _ x h).1

  pub IsCost-add : (c x : F) → IsCost c → IsCost x → IsCost (fl.add c x)
  IsCost-add c x hc hx = laws.le_trans _ c _ hc (laws.le-add c x hc hx)

  pub price_from-IsCost :
      (acc : F) (costs : List (List F)) (js : List ℕ) (p : F)
      → IsCost acc
      → All (All IsCost) costs
      → price_from acc costs js ≡ some p
      → IsCost p
  unfolding price_from
  price_from-IsCost acc [] [] p h hs e = subst IsCost (some-injective _ _ e) h
  price_from-IsCost acc [] (j ∷ js) p h hs e = cc
  price_from-IsCost acc (cost ∷ costs) [] p h hs e = cc
  price_from-IsCost acc (cost ∷ costs) (j ∷ js) p h hs e = elim (Option-cases (get_elem? cost j)) [
    | inl off ↦ let e' = rw (off, price_from) at e in cc
    | inr (c, on) ↦
        price_from-IsCost (fl.add c acc) costs js p
          (IsCost-add c acc (All-get IsCost cost j c hs.0 on) h) hs.1 (rw (on, price_from) at e)
  ]

  -- What starts cheaper ends no dearer.
  pub price_from_mono :
      (x y : F) (costs : List (List F)) (js : List ℕ) (p : F)
      → IsCost x
      → x ≼ y
      → All (All IsCost) costs
      → price_from y costs js ≡ some p
      → (q : F) × (price_from x costs js ≡ some q) × (q ≼ p)
  unfolding price_from
  price_from_mono x y [] [] p hx le hs e = (x, refl, subst (λ z. x ≼ z) (some-injective _ _ e) le)
  price_from_mono x y [] (j ∷ js) p hx le hs e = cc
  price_from_mono x y (cost ∷ costs) [] p hx le hs e = cc
  price_from_mono x y (cost ∷ costs) (j ∷ js) p hx le hs e =
      elim (Option-cases (get_elem? cost j)) [
        | inl off ↦ let e' = rw (off, price_from) at e in cc
        | inr (c, on) ↦
            let hc = All-get IsCost cost j c hs.0 on in
            rw (on, price_from)
              (price_from_mono (fl.add c x) (fl.add c y) costs js p (IsCost-add c x hc hx)
                (laws.add_mono c x y hc hx le) hs.1 (rw (on, price_from) at e))
      ]
