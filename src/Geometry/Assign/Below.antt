-- ===== src/Geometry/Assign/Below.antt =====
-- Lower bounds of the dynamic program of simulator_app/domain/progression/shapes.py.
use databus_sim.Prelude.{
  ℕ, zero, suc, ◌+◌, ◌≡◌, refl, sym, ◌∙◌, subst, List, [], ◌∷◌, All, length, get_elem?, some, arith,
  Bool-cases, Option-cases, inl, inr,
}
use mathlib.Core.Option.{some-injective}
use databus_sim.Float.{Float, IsOrdered, ◌≼◌}
use databus_sim.Float.Order.{le_of_not_lt}
use databus_sim.Geometry.Assign.{next_row, fill, arg_min}
use databus_sim.Geometry.Assign.Monotone.{IsMonotone, next_row-sizes}
use databus_sim.Geometry.Assign.Price.{lt_of_get_elem?, IsCost, price_from, All-get, number}
use databus_sim.Geometry.Assign.Row.{row-IsStep, row-IsCost}

module _ {F : Type 0} ⦃fl : Float F⦄ (laws : IsOrdered F) where
  -- No monotone assignment that continues a cheap entry ends below the last row.
  pub fill-below :
      (m : ℕ) (dp : List F) (back : List (List ℕ)) (costs : List (List F)) (i : ℕ) (d acc : F)
      (js : List ℕ) (p : F)
      → All IsCost dp
      → length dp ≡ m
      → All (λ cost. length cost ≡ m) costs
      → All (All IsCost) costs
      → get_elem? dp i ≡ some d
      → d ≼ acc
      → IsMonotone (i ∷ js)
      → price_from acc costs js ≡ some p
      → (l : ℕ) × (e : F) × (get_elem? (fill dp back costs).0 l ≡ some e) × (e ≼ p)
  unfolding fill price_from
  fill-below m dp back [] i d acc [] p hd size sizes hs at le up e =
      (i, d, at, subst (λ x. d ≼ x) (some-injective _ _ e) le)
  fill-below m dp back [] i d acc (j ∷ js) p hd size sizes hs at le up e = cc
  fill-below m dp back (cost ∷ costs) i d acc [] p hd size sizes hs at le up e = cc
  fill-below m dp back (cost ∷ costs) i d acc (j ∷ js) p hd size sizes hs at le up e =
      elim (Option-cases (get_elem? cost j)) [
        | inl off ↦ let e' = rw (off, price_from) at e in cc
        | inr (c, on) ↦
            let same : length dp ≡ length cost = let s = sizes.0 in omega arith in
            let r =
              row-IsStep laws dp cost j hd same
                (let h = lt_of_get_elem? cost j c on in omega arith) in
            let own : r.own ≡ c = some-injective _ _ (sym r.costs ∙ on) in
            let hc = All-get IsCost cost j c hs.0 on in
            let low = laws.le_trans _ d acc (r.below i d up.0 at) le in
            fill-below m (next_row fl.infinity 0 0 dp cost).0
              ((next_row fl.infinity 0 0 dp cost).1 ∷ back) costs j (fl.add r.own r.least)
              (fl.add c acc) js p (row-IsCost laws dp cost hd hs.0)
              ((next_row-sizes fl.infinity 0 0 dp cost same).0 ∙ sizes.0) sizes.1 hs.1 r.adds
              (rw own (laws.add_mono c r.least acc hc r.is_cost low)) up.1
              (rw (on, price_from) at e)
      ]

  pub arg_min-least :
      (full : List F) (best : F) (best_j j : ℕ) (dp : List F)
      → IsCost best
      → All IsCost dp
      → get_elem? full best_j ≡ some best
      → ((k : ℕ) (x : F) → get_elem? dp k ≡ some x → get_elem? full (j + k) ≡ some x)
      → (e : F) × (get_elem? full (arg_min best best_j j dp) ≡ some e)
        × (e ≼ best)
        × ((k : ℕ) (x : F) → get_elem? dp k ≡ some x → e ≼ x)
  unfolding arg_min
  arg_min-least full best best_j j [] hb hs there at =
      (best, there, number laws best hb, λ k x g. cc)
  arg_min-least full best best_j j (d ∷ dp) hb hs there at =
      let here : get_elem? full j ≡ some d =
        subst (λ n. get_elem? full n ≡ some d) (omega arith) (at 0 d refl) in
      let at' : (k : ℕ) (x : F) → get_elem? dp k ≡ some x → get_elem? full (suc j + k) ≡ some x =
        λ k x g. subst (λ n. get_elem? full n ≡ some x) (omega arith) (at (suc k) x g) in
      elim (Bool-cases (fl.lt d best)) [
        | inl better ↦
            let (e, found, le, below) = arg_min-least full d j (suc j) dp hs.0 hs.1 here at' in
            (
              e,
              rw better found,
              laws.le_trans _ _ _ le (laws.le_of_lt d best better),
              elim [
                | zero ↦ λ x g. subst (λ y. e ≼ y) (some-injective _ _ g) le
                | suc k ↦ λ x g. below k x g
              ],
            )
        | inr worse ↦
            let (e, found, le, below) =
              arg_min-least full best best_j (suc j) dp hb hs.1 there at' in
            let over = le_of_not_lt laws d best (number laws d hs.0) (number laws best hb) worse in
            (
              e,
              rw worse found,
              le,
              elim [
                | zero ↦
                    λ x g. subst (λ y. e ≼ y) (some-injective _ _ g) (laws.le_trans _ _ _ le over)
                | suc k ↦ λ x g. below k x g
              ],
            )
      ]
