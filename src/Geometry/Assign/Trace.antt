-- ===== src/Geometry/Assign/Trace.antt =====
-- What the back pointers of the dynamic program of simulator_app/domain/progression/shapes.py
-- lead to.
use databus_sim.Prelude.{
  ℕ, zero, suc, ◌+◌, ◌≡◌, refl, sym, ◌∙◌, subst, List, [], ◌∷◌, All, length, get_elem?, some, arith,
}
use mathlib.Core.Option.{some-injective}
use databus_sim.Float.{Float, IsOrdered, ◌≼◌}
use databus_sim.Effect.{ok}
use databus_sim.Geometry.Assign.{next_row, fill, backtrack, backtrack_best}
use databus_sim.Geometry.Assign.Monotone.{next_row-sizes}
use databus_sim.Geometry.Assign.Price.{
  lt_of_get_elem?, IsCost, IsCost-add, price, price_from, All-get, number, price_from-IsCost,
  price_from_mono,
}
use databus_sim.Geometry.Assign.Row.{row-IsStep, row-IsCost}
use databus_sim.Geometry.Assign.Below.{arg_min-least}

module _ {F : Type 0} ⦃fl : Float F⦄ (laws : IsOrdered F) where
  -- From each entry of `dp`, `back` leads to an assignment that is no dearer with any
  -- continuation.
  abbrev pub Attains :
      (first : List F) (all : List (List F)) (dp : List F) (back : List (List ℕ))
      (costs : List (List F))
      → Type 0
  Attains first all dp back costs =
      (j : ℕ) (d : F) (segments : List ℕ) (p : F)
      → get_elem? dp j ≡ some d
      → price_from d costs segments ≡ some p
      → (js : List ℕ) × (q : F) × (backtrack back j segments ≡ ok js)
        × (price first all js ≡ some q)
        × (q ≼ p)

  pub start-Attains :
      (first : List F) (all : List (List F))
      → All IsCost first
      → All (All IsCost) all
      → Attains first all first [] all
  unfolding backtrack price
  start-Attains first all hf hs j d segments p at e = (
    j ∷ segments,
    p,
    refl,
    rw (at, price) e,
    number laws p (price_from-IsCost laws d all segments p (All-get IsCost first j d hf at) hs e),
  )

  row-Attains :
      (first : List F) (all : List (List F)) (dp : List F) (back : List (List ℕ)) (cost : List F)
      (costs : List (List F))
      → All IsCost dp
      → length dp ≡ length cost
      → All IsCost cost
      → All (All IsCost) costs
      → Attains first all dp back (cost ∷ costs)
      → Attains first all
          (next_row fl.infinity 0 0 dp cost).0
          ((next_row fl.infinity 0 0 dp cost).1 ∷ back)
          costs
  unfolding backtrack price_from
  row-Attains first all dp back cost costs hd same hc hs h j d segments p at e =
      let sizes = next_row-sizes fl.infinity 0 0 dp cost same in
      let low = lt_of_get_elem? (next_row fl.infinity 0 0 dp cost).0 j d at in
      let r = row-IsStep laws dp cost j hd same (omega (arith, sizes.0)) in
      let same_d : d ≡ fl.add r.own r.least = some-injective _ _ (sym at ∙ r.adds) in
      let own = All-get IsCost cost j r.own hc r.costs in
      let source = All-get IsCost dp r.arg r.source hd r.there in
      let (q, e', le) =
        price_from_mono laws (fl.add r.own r.source) (fl.add r.own r.least) costs segments p
          (IsCost-add laws r.own r.source own source)
          (laws.add_mono r.own r.source r.least own source r.reached) hs
          (subst (λ x. price_from x costs segments ≡ some p) same_d e) in
      let (js, q', traced, priced, le') =
        h r.arg r.source (j ∷ segments) q r.there (rw (r.costs, price_from) e') in
      (js, q', rw (r.points) traced, priced, laws.le_trans _ _ _ le' le)

  pub fill-Attains :
      (m : ℕ) (first : List F) (all : List (List F)) (dp : List F) (back : List (List ℕ))
      (costs : List (List F))
      → All IsCost dp
      → length dp ≡ m
      → All (λ cost. length cost ≡ m) costs
      → All (All IsCost) costs
      → Attains first all dp back costs
      → Attains first all (fill dp back costs).0 (fill dp back costs).1 []
        × All IsCost (fill dp back costs).0
  unfolding fill
  fill-Attains m first all dp back [] hd size sizes hs h = (h, hd)
  fill-Attains m first all dp back (cost ∷ costs) hd size sizes hs h =
      let same : length dp ≡ length cost = let s = sizes.0 in omega arith in
      fill-Attains m first all (next_row fl.infinity 0 0 dp cost).0
        ((next_row fl.infinity 0 0 dp cost).1 ∷ back) costs (row-IsCost laws dp cost hd hs.0)
        ((next_row-sizes fl.infinity 0 0 dp cost same).0 ∙ sizes.0) sizes.1 hs.1
        (row-Attains first all dp back cost costs hd same hs.0 hs.1 h)

  -- The entry that the search for the last segment takes is the least.
  pub backtrack_best-Attains :
      (first : List F) (all : List (List F)) (dp : List F) (back : List (List ℕ)) (l : ℕ) (e : F)
      → All IsCost dp
      → Attains first all dp back []
      → get_elem? dp l ≡ some e
      → (js : List ℕ) × (q : F) × (backtrack_best dp back ≡ ok js)
        × (price first all js ≡ some q)
        × (q ≼ e)
  unfolding backtrack_best price_from
  backtrack_best-Attains first all [] back l e hd h at = cc
  backtrack_best-Attains first all (d ∷ dp) back l e hd h at =
      let (least, found, le, below) = arg_min-least laws (d ∷ dp) d 0 1 dp hd.0 hd.1 refl (λ k x g.
        let next : suc k ≡ 1 + k = omega arith in
        subst (λ n. get_elem? (d ∷ dp) n ≡ some x) next g) in
      let (js, q, traced, priced, le') = h _ least [] least found refl in
      (js, q, traced, priced, laws.le_trans _ _ _ le' (least_of_all least le below l at))
    where
      least_of_all :
          (least : F)
          → least ≼ d
          → ((k : ℕ) (x : F) → get_elem? dp k ≡ some x → least ≼ x)
          → (l : ℕ) → get_elem? (d ∷ dp) l ≡ some e
          → least ≼ e
      least_of_all least le below zero g = subst (λ y. least ≼ y) (some-injective _ _ g) le
      least_of_all least le below (suc k) g = below k e g
