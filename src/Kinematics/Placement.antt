-- ===== src/Kinematics/Placement.antt =====
-- The segment that `interpolate` (simulator_app/domain/kinematics.py) uses.
use Prim.Native.Nat.{max}
use databus_sim.Prelude.{
  ℕ, zero, suc, ◌-◌, ◌≤◌, ◌<◌, ◌≡◌, refl, false, some, List, [], ◌∷◌, arith, get_elem?, length,
}
use databus_sim.Float.{Float, IsOrdered, ◌≼◌, lit}
use databus_sim.Float.Order.{clamp_bounds, le_of_not_lt}
use databus_sim.Effect.{ok}
use databus_sim.Kinematics.{Point, Shape, bisect, last_of, clamp_km, interpolate, on_segment}
use databus_sim.Kinematics.Search.{IsSorted, Bracket, IsFirst, get_elem?-of_lt, bisect_lem}

last_of-get_elem? {ℓ} :
    {A : Type ℓ} (xs : List A)
    → 0 < length xs
    → (e : A) × (last_of xs ≡ some e) × (get_elem? xs (length xs - 1) ≡ some e)
unfolding last_of
last_of-get_elem? [] h = elim h [ ]
last_of-get_elem? (x ∷ []) h = (x, refl, refl)
last_of-get_elem? (x ∷ y ∷ xs) h =
    let (e, last, here) = last_of-get_elem? (y ∷ xs) (omega arith) in
    let before : length (x ∷ y ∷ xs) - 1 ≡ suc (length (y ∷ xs) - 1) = omega arith in
    (e, last, rw before here)

module _ {F : Type 0} ⦃fl : Float F⦄ where
  -- The vehicle is placed on the segment from `a` to `b`, whose ends enclose its distance.
  pub record Located (shape : Shape F) (progress_m : F) : Type 0 where
    pub index : ℕ
    pub a : Point F
    pub b : Point F
    pub end : Point F
    pub starts : get_elem? shape.points index ≡ some a
    pub stops : get_elem? shape.points (suc index) ≡ some b
    pub ends : last_of shape.points ≡ some end
    pub result : interpolate shape progress_m ≡ on_segment a b (clamp_km progress_m end)
    pub from : a.dist_km ≼ clamp_km progress_m end
    pub to : clamp_km progress_m end ≼ b.dist_km

  -- A shape as the shapes file has it: at least two points, and distances that start at 0.
  pub record IsRoute (shape : Shape F) : Type 0 where
    pub sorted : IsSorted shape.points
    pub long : 2 ≤ length shape.points
    pub origin :
        (p : Point F)
        → get_elem? shape.points 0 ≡ some p
        → (lit 0 ≼ p.dist_km) × (p.dist_km ≼ lit 0)

  module _ (laws : IsOrdered F) where
    -- `interpolate` reads the segment that ends at point `suc j`, where `j` is 0 or `i - 1`.
    interpolate_at :
        (shape : Shape F) (progress_m : F) (end a b : Point F) (i j : ℕ)
        → last_of shape.points ≡ some end
        → bisect
            (length shape.points)
            shape.points
            (clamp_km progress_m end)
            0
            (length shape.points - 1)
          ≡ ok i
        → max 1 i ≡ suc j
        → get_elem? shape.points j ≡ some a
        → get_elem? shape.points (suc j) ≡ some b
        → interpolate shape progress_m ≡ on_segment a b (clamp_km progress_m end)
    unfolding interpolate
    interpolate_at shape progress_m end a b i j last found e ha hb =
        let e' : max 1 i - 1 ≡ j = omega arith in rw (last, found, e', e, ha, hb)

    module _ (shape : Shape F) (progress_m : F) (route : IsRoute shape) (end p0 p1 : Point F)
        (last : last_of shape.points ≡ some end)
        (final : get_elem? shape.points (length shape.points - 1) ≡ some end)
        (first : get_elem? shape.points 0 ≡ some p0)
        (second : get_elem? shape.points 1 ≡ some p1) where
      abbrev km : F
      km = clamp_km progress_m end

      km_bounds : (lit 0 ≼ km) × (fl.lt end.dist_km km ≡ false)
      km_bounds = clamp_bounds laws (lit 0) end.dist_km (fl.div progress_m (lit 1000)) (
          laws.le_trans _ _ _ (route.origin p0 first).0
            (route.sorted 0 (length shape.points - 1) p0 end first final (omega arith)))

      start-Bracket : Bracket shape.points km 0 (length shape.points - 1)
      start-Bracket = record {
        ordered = omega arith;
        inside = let h = route.long in omega arith;
        behind = λ j q found h. absurd (omega arith);
        reached = λ q found. let e : q ≡ end = cc in rw e km_bounds.1;
      }

      km-le : (b : Point F) → b.dist_km ≼ b.dist_km → fl.lt b.dist_km km ≡ false → km ≼ b.dist_km
      km-le b hb h =
          let (_, number) = laws.refl_of_le _ _ km_bounds.0 in
          le_of_not_lt laws b.dist_km km hb number h

      place :
          (i : ℕ)
          → bisect (length shape.points) shape.points km 0 (length shape.points - 1) ≡ ok i
          → IsFirst shape.points km i
          → Located shape progress_m
      place zero found at = record {
        index = 0;
        a = p0;
        b = p1;
        end = end;
        starts = first;
        stops = second;
        ends = last;
        result = interpolate_at shape progress_m end p0 p1 0 0 last found refl first second;
        from = laws.le_trans _ _ _ (route.origin p0 first).1 km_bounds.0;
        to =
            laws.le_trans _ _ _
              (km-le p0 (route.sorted 0 0 p0 p0 first first (omega arith)) (at.reached p0 first))
              (route.sorted 0 1 p0 p1 first second (omega arith));
      }
      place (suc j) found at =
          let inside : suc j < length shape.points = at.inside in
          let (a, ha) = get_elem?-of_lt shape.points j (omega arith) in
          let (b, hb) = get_elem?-of_lt shape.points (suc j) inside in
          record {
            index = j;
            a = a;
            b = b;
            end = end;
            starts = ha;
            stops = hb;
            ends = last;
            result =
                interpolate_at shape progress_m end a b (suc j) j last found (omega arith) ha hb;
            from = laws.le_of_lt a.dist_km km (at.behind j a ha (omega arith));
            to = km-le b (route.sorted (suc j) (suc j) b b hb hb (omega arith)) (at.reached b hb);
          }

      locate : Located shape progress_m
      locate =
          let (i, found, at) =
            bisect_lem laws shape.points km route.sorted (length shape.points) 0
              (length shape.points - 1) (omega arith) start-Bracket in
          place i found at

    -- Given the float laws, on a shape with at least two points whose distances start at 0 and
    -- never fall, `interpolate` comes to what the bearing and the place on one segment come to,
    -- whose end points enclose the clamped distance: it raises nothing itself, and an exception
    -- of the bearing's math functions passes through.
    pub interpolate-Located :
        (shape : Shape F) (progress_m : F) → IsRoute shape → Located shape progress_m
    interpolate-Located shape progress_m route =
        let long : 2 ≤ length shape.points = route.long in
        let (end, last, final) = last_of-get_elem? shape.points (omega arith) in
        let (p0, first) = get_elem?-of_lt shape.points 0 (omega arith) in
        let (p1, second) = get_elem?-of_lt shape.points 1 (omega arith) in
        locate shape progress_m route end p0 p1 last final first second
