-- ===== src/Geometry/Assign/Cheapest.antt =====
-- The assignment that `assign_stops_monotonic` of simulator_app/domain/progression/shapes.py
-- chooses, against all others.
use databus_sim.Prelude.{
  ℕ, suc, ◌≡◌, refl, sym, subst, List, [], ◌∷◌, All, length, get_elem?, some, arith, Option-cases,
  inl, inr,
}
use databus_sim.Float.{Float, IsOrdered, ◌≼◌}
use databus_sim.Effect.{ok}
use databus_sim.Geometry.Assign.{choose_segments}
use databus_sim.Geometry.Assign.Monotone.{IsMonotone, choose_segments-IsMonotone}
use databus_sim.Geometry.Assign.Price.{lt_of_get_elem?, IsCost, price, All-get, number}
use databus_sim.Geometry.Assign.Below.{fill-below}
use databus_sim.Geometry.Assign.Trace.{start-Attains, fill-Attains, backtrack_best-Attains}

module _ {F : Type 0} ⦃fl : Float F⦄ (laws : IsOrdered F) where
  -- Given the float laws: if every stop has for each segment a cost that is a number and not
  -- negative, then the dynamic program raises nothing and its segments, one for each stop, do not
  -- go down from stop to stop, and have a total cost that is no higher than that of any segments
  -- that do not go down.
  pub choose_segments-IsCheapest :
      (cost : List F) (costs : List (List F)) (other : List ℕ) (p : F)
      → All (λ c. length c ≡ length cost) costs
      → All IsCost cost
      → All (All IsCost) costs
      → IsMonotone other
      → price cost costs other ≡ some p
      → (js : List ℕ) × (best : F) × (choose_segments cost costs ≡ ok js)
        × (length js ≡ suc (length costs))
        × IsMonotone js
        × (price cost costs js ≡ some best)
        × (best ≼ p)
  unfolding choose_segments price
  choose_segments-IsCheapest cost costs [] p sizes hc hs up e = cc
  choose_segments-IsCheapest cost costs (i ∷ other) p sizes hc hs up e =
      elim (Option-cases (get_elem? cost i)) [
        | inl off ↦ let e' = rw (off, price) at e in cc
        | inr (d, on) ↦
            let (ks, returned, mono, count) =
              choose_segments-IsMonotone cost costs
                (let h = lt_of_get_elem? cost i d on in omega arith) sizes in
            let (l, least, at, le) =
              fill-below laws (length cost) cost [] costs i d d other p hc refl sizes hs on
                (number laws d (All-get IsCost cost i d hc on)) up (rw (on, price) at e) in
            let (reached, numbers) =
              fill-Attains laws (length cost) cost costs cost [] costs hc refl sizes hs
                (start-Attains laws cost costs hc hs) in
            let (js, q, traced, priced, le') =
              backtrack_best-Attains laws cost costs _ _ l least numbers reached at in
            let same : js ≡ ks = cc in
            (
              js,
              q,
              traced,
              rw same count,
              subst IsMonotone (sym same) mono,
              priced,
              laws.le_trans _ _ _ le' le,
            )
      ]
