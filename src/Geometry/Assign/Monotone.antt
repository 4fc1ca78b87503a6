-- ===== src/Geometry/Assign/Monotone.antt =====
-- The order of the segments that `assign_stops_monotonic` chooses.
use databus_sim.Prelude.{
  ℕ, zero, suc, ◌+◌, ◌≤◌, ◌<◌, ◌≡◌, refl, List, [], ◌∷◌, All, length, get_elem?, some, arith,
  Bool-cases, inl, inr, if◌then◌else◌,
}
use databus_sim.Float.{Float}
use databus_sim.Effect.{ok}
use databus_sim.Kinematics.Search.{get_elem?-of_lt}
use databus_sim.Geometry.Assign.{
  next_row, fill, arg_min, backtrack, backtrack_best, choose_segments,
}

-- A row of `back` for m segments: no entry points ahead.
pub record IsBack (m : ℕ) (row : List ℕ) : Type 0 where
  pub size : length row ≡ m
  pub behind : (i b : ℕ) → get_elem? row i ≡ some b → b ≤ i

-- From one stop to the next the segment does not go down.
abbrev pub IsMonotone : List ℕ → Type 0
IsMonotone [] = Unit
IsMonotone (i ∷ []) = Unit
IsMonotone (i ∷ j ∷ js) = (i ≤ j) × IsMonotone (j ∷ js)

backtrack-IsMonotone :
    (m : ℕ) (back : List (List ℕ)) (j : ℕ) (segments : List ℕ)
    → All (IsBack m) back
    → j < m
    → IsMonotone (j ∷ segments)
    → (js : List ℕ) × (backtrack back j segments ≡ ok js)
      × IsMonotone js
      × (length js ≡ length back + suc (length segments))
unfolding backtrack
backtrack-IsMonotone m [] j segments h low up = (j ∷ segments, refl, up, omega arith)
backtrack-IsMonotone m (row ∷ back) j segments h low up =
    let (i, found) = get_elem?-of_lt row j (let e = h.0.size in omega arith) in
    let le : i ≤ j = h.0.behind j i found in
    let (js, e, mono, size) =
      backtrack-IsMonotone m back i (j ∷ segments) h.1 (omega arith) (le, up) in
    (js, rw found e, mono, omega arith)

module _ {F : Type 0} ⦃fl : Float F⦄ where
  pub next_row-sizes :
      (mn : F) (arg j : ℕ) (prev cost : List F)
      → length prev ≡ length cost
      → (length (next_row mn arg j prev cost).0 ≡ length cost)
        × (length (next_row mn arg j prev cost).1 ≡ length cost)
  unfolding next_row
  next_row-sizes mn arg j [] [] e = (refl, refl)
  next_row-sizes mn arg j [] (c ∷ cost) e = absurd (omega arith)
  next_row-sizes mn arg j (d ∷ prev) [] e = absurd (omega arith)
  next_row-sizes mn arg j (d ∷ prev) (c ∷ cost) e =
      let sizes =
        next_row-sizes (if fl.lt d mn then d else mn) (if fl.lt d mn then j else arg) (suc j) prev
          cost (omega arith) in
      (omega (arith, sizes.0), omega (arith, sizes.1))

  next_row-behind :
      (mn : F) (arg j : ℕ) (prev cost : List F) (i b : ℕ)
      → arg ≤ j
      → get_elem? (next_row mn arg j prev cost).1 i ≡ some b
      → b ≤ j + i
  unfolding next_row
  next_row-behind mn arg j [] cost i b le h = cc
  next_row-behind mn arg j (d ∷ prev) [] i b le h = cc
  next_row-behind mn arg j (d ∷ prev) (c ∷ cost) zero b le h = ground arith
  next_row-behind mn arg j (d ∷ prev) (c ∷ cost) (suc i) b le h = elim (Bool-cases (fl.lt d mn)) [
    | inl better ↦
        let g = rw better at h in
        let p = next_row-behind d j (suc j) prev cost i b (omega arith) g in omega arith
    | inr worse ↦
        let g = rw worse at h in
        let p = next_row-behind mn arg (suc j) prev cost i b (omega arith) g in omega arith
  ]

  pub fill-IsBack :
      (m : ℕ) (dp : List F) (back : List (List ℕ)) (costs : List (List F))
      → length dp ≡ m
      → All (IsBack m) back
      → All (λ cost. length cost ≡ m) costs
      → (length (fill dp back costs).0 ≡ m)
        × All (IsBack m) (fill dp back costs).1
        × (length (fill dp back costs).1 ≡ length costs + length back)
  unfolding fill
  fill-IsBack m dp back [] e h hs = (e, h, omega arith)
  fill-IsBack m dp back (cost ∷ costs) e h hs =
      let sizes = next_row-sizes fl.infinity 0 0 dp cost (let c = hs.0 in omega arith) in
      let row : IsBack m (next_row fl.infinity 0 0 dp cost).1 = record {
        size = let c = hs.0 in omega (arith, sizes.1);
        behind = λ i b found.
            let p = next_row-behind fl.infinity 0 0 dp cost i b (omega arith) found in omega arith;
      } in
      let (e', h', size) =
        fill-IsBack m (next_row fl.infinity 0 0 dp cost).0
          ((next_row fl.infinity 0 0 dp cost).1 ∷ back) costs
          (let c = hs.0 in omega (arith, sizes.0)) (row, h) hs.1 in
      (e', h', omega arith)

  arg_min-lt :
      (best : F) (best_j j : ℕ) (dp : List F)
      → best_j < j
      → arg_min best best_j j dp < j + length dp
  unfolding arg_min
  arg_min-lt best best_j j [] h = omega arith
  arg_min-lt best best_j j (d ∷ dp) h = elim (Bool-cases (fl.lt d best)) [
    | inl better ↦ rw better (let p = arg_min-lt d j (suc j) dp (omega arith) in omega arith)
    | inr worse ↦ rw worse (let p = arg_min-lt best best_j (suc j) dp (omega arith) in omega arith)
  ]

  backtrack_best-IsMonotone :
      (m : ℕ) (dp : List F) (back : List (List ℕ)) (n : ℕ)
      → 0 < m
      → length dp ≡ m
      → All (IsBack m) back
      → length back ≡ n
      → (js : List ℕ) × (backtrack_best dp back ≡ ok js) × IsMonotone js × (length js ≡ suc n)
  unfolding backtrack_best
  backtrack_best-IsMonotone m [] back n low e h size = absurd (omega arith)
  backtrack_best-IsMonotone m (d ∷ ds) back n low e h size =
      let last = arg_min-lt d 0 1 ds (omega arith) in
      let (js, r, mono, count) =
        backtrack-IsMonotone m back (arg_min d 0 1 ds) [] h (omega arith) tt in
      (js, r, mono, omega arith)

  -- If every stop has a cost for each of the segments, and there is one, the dynamic program
  -- raises nothing, gives a segment for every stop, and the segments do not go down from stop to
  -- stop.
  pub choose_segments-IsMonotone :
      (cost : List F) (costs : List (List F))
      → 0 < length cost
      → All (λ c. length c ≡ length cost) costs
      → (js : List ℕ) × (choose_segments cost costs ≡ ok js)
        × IsMonotone js
        × (length js ≡ suc (length costs))
  unfolding choose_segments
  choose_segments-IsMonotone cost costs some_segment sizes =
      let (e, h, size) = fill-IsBack (length cost) cost [] costs refl tt sizes in
      backtrack_best-IsMonotone (length cost) (fill cost [] costs).0 (fill cost [] costs).1
        (length costs) some_segment e h (omega arith)
