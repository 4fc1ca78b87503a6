-- ===== src/Geometry/Assign/Placed.antt =====
-- Where `assign_stops_monotonic` of simulator_app/domain/progression/shapes.py puts the stops,
-- from their projections on the segments.
use databus_sim.Prelude.{
  ℕ, zero, suc, ◌<◌, ◌≡◌, refl, sym, subst, List, [], ◌∷◌, All, map, length, get_elem?, length-map,
  some, arith, Option-cases, inl, inr,
}
use databus_sim.Float.{Float, IsOrdered, ◌≼◌}
use databus_sim.Effect.{ok}
use databus_sim.Kinematics.Search.{get_elem?-of_lt}
use databus_sim.Geometry.Assign.{choose_segments, fill, read_off, assign_rows, clamp_all}
use databus_sim.Geometry.Assign.Monotone.{fill-IsBack}
use databus_sim.Geometry.Assign.Price.{IsCost, price, price_from}
use databus_sim.Geometry.Assign.Trace.{start-Attains, fill-Attains, backtrack_best-Attains}
use databus_sim.Geometry.Assign.Clamp.{IsRising, IsAhead, clamp_all-IsRising}

module _ {F : Type 0} ⦃fl : Float F⦄ where
  -- The distance of a projection along the shape, and from it.
  abbrev pub costs_of : List (F × F) → List F
  costs_of ps = map (λ p. p.1) ps

  -- The projections of a stop on `m` segments: their distances along the shape are numbers, and
  -- those from it are no less than 0.
  pub record IsProjected (m : ℕ) (ps : List (F × F)) : Type 0 where
    pub size : length ps ≡ m
    pub numbers : All (λ (p : F × F). p.0 ≼ p.0) ps
    pub costs : All IsCost (costs_of ps)

  get_elem?-costs_of :
      (ps : List (F × F)) (j : ℕ) (c : F)
      → get_elem? (costs_of ps) j ≡ some c
      → All (λ (p : F × F). p.0 ≼ p.0) ps
      → (p : F × F) × (get_elem? ps j ≡ some p) × (p.0 ≼ p.0)
  get_elem?-costs_of [] j c e h = cc
  get_elem?-costs_of (p ∷ ps) zero c e h = (p, refl, h.0)
  get_elem?-costs_of (p ∷ ps) (suc j) c e h = get_elem?-costs_of ps j c e h.1

  module _ (m : ℕ) where
    read_off-priced :
        (acc : F) (pss : List (List (F × F))) (js : List ℕ) (q : F)
        → All (IsProjected m) pss
        → price_from acc (map costs_of pss) js ≡ some q
        → (raw : List F) × (read_off pss js ≡ ok raw)
          × All (λ x. x ≼ x) raw
          × (length raw ≡ length pss)
    unfolding price_from read_off
    read_off-priced acc [] [] q h e = ([], refl, tt, refl)
    read_off-priced acc [] (j ∷ js) q h e = cc
    read_off-priced acc (ps ∷ pss) [] q h e = cc
    read_off-priced acc (ps ∷ pss) (j ∷ js) q h e =
        elim (Option-cases (get_elem? (costs_of ps) j)) [
          | inl off ↦ let e' = rw (off, price_from) at e in cc
          | inr (c, on) ↦
              let (p, found, number) = get_elem?-costs_of ps j c on h.0.numbers in
              let (raw, read, numbers, size) =
                read_off-priced (fl.add c acc) pss js q h.1 (rw (on, price_from) at e) in
              (p.0 ∷ raw, rw (found, read), (number, numbers), omega arith)
        ]

    read_off-price :
        (ps : List (F × F)) (pss : List (List (F × F))) (js : List ℕ) (q : F)
        → IsProjected m ps
        → All (IsProjected m) pss
        → price (costs_of ps) (map costs_of pss) js ≡ some q
        → (raw : List F) × (read_off (ps ∷ pss) js ≡ ok raw)
          × All (λ x. x ≼ x) raw
          × (length raw ≡ suc (length pss))
    unfolding price read_off
    read_off-price ps pss [] q h hs e = cc
    read_off-price ps pss (j ∷ js) q h hs e = elim (Option-cases (get_elem? (costs_of ps) j)) [
      | inl off ↦ let e' = rw (off, price) at e in cc
      | inr (c, on) ↦
          let (p, found, number) = get_elem?-costs_of ps j c on h.numbers in
          let (raw, read, numbers, size) = read_off-priced c pss js q hs (rw (on, price) at e) in
          (p.0 ∷ raw, rw (found, read), (number, numbers), omega arith)
    ]

    all_costs :
        (pss : List (List (F × F)))
        → All (IsProjected m) pss
        → All (All IsCost) (map costs_of pss)
          × All (λ (cost : List F). length cost ≡ m) (map costs_of pss)
    all_costs [] h = (tt, tt)
    all_costs (ps ∷ pss) h =
        let (costs, sizes) = all_costs pss h.1 in
        let size = h.0.size in
        ((h.0.costs, costs), (omega (arith, length-map ps (λ (p : F × F). p.1)), sizes))

module _ {F : Type 0} ⦃fl : Float F⦄ (laws : IsOrdered F) where
  choose_segments-priced :
      (cost : List F) (costs : List (List F))
      → 0 < length cost
      → All (λ c. length c ≡ length cost) costs
      → All IsCost cost
      → All (All IsCost) costs
      → (js : List ℕ) × (q : F) × (choose_segments cost costs ≡ ok js)
        × (price cost costs js ≡ some q)
  unfolding choose_segments
  choose_segments-priced cost costs some_segment sizes hc hs =
      let (size, backs, count) = fill-IsBack (length cost) cost [] costs refl tt sizes in
      let (least, at) = get_elem?-of_lt (fill cost [] costs).0 0 (omega arith) in
      let (reached, numbers) =
        fill-Attains laws (length cost) cost costs cost [] costs hc refl sizes hs
          (start-Attains laws cost costs hc hs) in
      let (js, q, traced, priced, le) =
        backtrack_best-Attains laws cost costs _ _ 0 least numbers reached at in
      (js, q, traced, priced)

  -- Given the float laws: when each stop has a projection on each of the segments, of which there
  -- is at least one, with a distance along the shape that is a number and a distance from it that
  -- is no less than 0, then the assignment raises nothing. The stops stand where the chosen
  -- segments have their projections, but for those that would stand behind the stop before, which
  -- are moved ahead to it: the distances never fall from stop to stop, no stop is moved back, and
  -- there are as many as stops.
  pub assign_rows-IsRising :
      (m : ℕ) (ps : List (F × F)) (pss : List (List (F × F)))
      → 0 < m
      → IsProjected m ps
      → All (IsProjected m) pss
      → (js : List ℕ) × (raw : List F) × (choose_segments (costs_of ps) (map costs_of pss) ≡ ok js)
        × (read_off (ps ∷ pss) js ≡ ok raw)
        × (assign_rows (ps ∷ pss) ≡ ok (clamp_all raw))
        × IsRising (clamp_all raw)
        × IsAhead raw (clamp_all raw)
        × (length raw ≡ suc (length pss))
  unfolding assign_rows price
  assign_rows-IsRising m ps pss some_segment h hs =
      let size : length (costs_of ps) ≡ m =
        let s = h.size in omega (arith, length-map ps (λ (p : F × F). p.1)) in
      let (costs, sizes) = all_costs m pss hs in
      let (js, q, chosen, priced) =
        choose_segments-priced (costs_of ps) (map costs_of pss) (omega arith)
          (subst (λ n. All (λ (c : List F). length c ≡ n) (map costs_of pss)) (sym size) sizes)
          h.costs costs in
      let (raw, read, numbers, count) = read_off-price m ps pss js q h hs priced in
      let (rising, ahead) = clamp_all-IsRising laws raw numbers in
      (js, raw, chosen, read, rw (chosen, read), rising, ahead, count)
