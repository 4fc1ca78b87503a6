-- ===== src/Runtime/Tick/Serves.antt =====
-- The vehicles that the ticks of simulator_app/runtime.py can serve: `step_vehicle` and
-- `build_vehicle_payloads` on shapes as the shapes file should have them.
use databus_sim.Prelude.{
  ℕ, suc, All, refl, ◌∙◌, [], ◌∷◌, get_elem?, if◌then◌else◌, String, ◌≡◌, Option, none, some, List,
  arith, inl, inr, str_eq, Bool-cases, Option-cases,
}
use databus_sim.Prelude.Int.{ℤ}
use databus_sim.Float.{Float, IsOrdered, lit, ◌≼◌}
use databus_sim.Dict.{Dict, get}
use databus_sim.Effect.{ok}
use databus_sim.Fleet.{Vehicle, Kin}
use databus_sim.Kinematics.{
  Shape, Stop, Draws, get_shape, init_kin, total_dist_m, clamp_km, on_segment, Point, bearing_deg,
  haversine_m, place_on, nearest_from, nearest_stop, interpolate,
}
use databus_sim.Kinematics.Placement.{IsRoute, interpolate-Located}
use databus_sim.Kinematics.Step.{step_vehicle, advance, cruise, next_speed, with_kin}
use databus_sim.Kinematics.Payload.{Payloads, payloads_at, build_vehicle_payloads}
use databus_sim.Runtime.Tick.{Settings, Network, Chance, sample}

module _ {F : Type 0} ⦃fl : Float F⦄ where
  -- The math functions are defined where a vehicle on the shape meets them: for the bearing of
  -- each segment, and for the distance of each stop from each place between the ends of the
  -- segment.
  pub record IsCharted (stops : List (Stop F)) (shape : Shape F) : Type 0 where
    pub bearing :
        (i : ℕ) (a b : Point F)
        → get_elem? shape.points i ≡ some a
        → get_elem? shape.points (suc i) ≡ some b
        → (brg : F) × (bearing_deg a.lat a.lon b.lat b.lon ≡ ok brg)
    pub distances :
        (i : ℕ) (a b : Point F) (km : F)
        → get_elem? shape.points i ≡ some a
        → get_elem? shape.points (suc i) ≡ some b
        → a.dist_km ≼ km
        → km ≼ b.dist_km
        → All
            (λ s.
              let (lat, lon) = place_on a b km in
              (d : F) × (haversine_m lat lon s.lat s.lon ≡ ok d))
            stops

  -- The shape is in the file, is a route and lies where the math functions are defined.
  pub record IsServable (stops : List (Stop F)) (shapes : Dict (Shape F)) (shape_id : String)
      : Type 0 where
    pub shape : Shape F
    pub found : get shapes shape_id ≡ some shape
    pub route : IsRoute shape
    pub charted : IsCharted stops shape

  -- The default shape of the vehicle, and that of its run, if it has one.
  pub record IsServed (stops : List (Stop F)) (shapes : Dict (Shape F)) (v : Vehicle F)
      : Type 0 where
    pub default : IsServable stops shapes v.default_shape_id
    pub bound :
        (shape_id : String) → v.bound_shape_id ≡ some shape_id → IsServable stops shapes shape_id

  -- The shape that a tick looks up is a route.
  known_shape :
      (stops : List (Stop F)) (shapes : Dict (Shape F)) (v : Vehicle F)
      → IsServed stops shapes v
      → (shape : Shape F) × (get_shape v shapes ≡ ok shape) × IsRoute shape × IsCharted stops shape
  unfolding get_shape
  known_shape stops shapes v h =
      let d = h.default in
      let here = d.found in
      elim (Option-cases v.bound_shape_id) [
        | inl free ↦ (d.shape, ground arith, d.route, d.charted)
        | inr (sid, bound) ↦ elim (Bool-cases (str_eq sid "")) [
          | inl empty ↦ (d.shape, ground arith, d.route, d.charted)
          | inr named ↦
              let b = h.bound sid bound in
              let there = b.found in (b.shape, ground arith, b.route, b.charted)
        ]
      ]

  nearest_from-returns :
      (stops : List (Stop F)) (lat lon : F) (best : Option (Stop F)) (best_d : F)
      → All (λ s. (d : F) × (haversine_m lat lon s.lat s.lon ≡ ok d)) stops
      → (n : Option (Stop F) × F) × (nearest_from stops lat lon best best_d ≡ ok n)
  unfolding nearest_from
  nearest_from-returns [] lat lon best best_d h = ((best, best_d), refl)
  nearest_from-returns (s ∷ stops) lat lon best best_d ((d, measured), h) =
      let closer = fl.lt d best_d in
      let (n, found) =
        nearest_from-returns stops lat lon (if closer then some s else best)
          (if closer then d else best_d) h in
      (n, rw (measured, nearest_from) found)

  module _ (laws : IsOrdered F) (stops : List (Stop F)) (shape : Shape F) (route : IsRoute shape)
      (charted : IsCharted stops shape) where
    interpolate-returns :
        (progress_m : F)
        → (at : F × F × F) × (interpolate shape progress_m ≡ ok at)
          × ((n : Option (Stop F) × F) × (nearest_stop stops at.0 at.1 ≡ ok n))
    unfolding on_segment nearest_stop
    interpolate-returns progress_m =
        let here = interpolate-Located laws shape progress_m route in
        let km = clamp_km progress_m here.end in
        let (brg, turned) = charted.bearing here.index here.a here.b here.starts here.stops in
        let (lat, lon) = place_on here.a here.b (clamp_km progress_m here.end) in
        (
          (lat, lon, brg),
          here.result ∙ rw (turned, on_segment),
          nearest_from-returns stops lat lon none fl.infinity (
              charted.distances here.index here.a here.b km here.starts here.stops here.from
                here.to),
        )

    cruise-returns :
        (r : Draws F) (v : Vehicle F) (k : Kin F) → (cruise shape stops r v k).0 ≡ ok tt
    unfolding cruise
    cruise-returns r v k =
        let (at, placed, (n, measured)) = interpolate-returns v.progress_m in
        rw (placed, measured, cruise)

    advance-returns :
        (dt : F) (idle_s : ℤ) (r : Draws F) (v : Vehicle F) (k : Kin F)
        → (advance dt shape stops idle_s r v k).0 ≡ ok tt
    unfolding advance
    advance-returns dt idle_s r v k =
        let at = interpolate-Located laws shape v.progress_m route in
        let k' : Kin F = record k { speed = next_speed v k r } in
        let v' : Vehicle F = record (with_kin v k') {
          progress_m = fl.add v.progress_m (fl.mul (next_speed v k r) dt);
        } in
        let measured : total_dist_m shape ≡ ok (fl.mul at.end.dist_km (lit 1000)) =
          unfold total_dist_m in rw at.ends in
        elim (Bool-cases (fl.le (fl.mul at.end.dist_km (lit 1000)) v'.progress_m)) [
          | inl arrived ↦ rw (measured, arrived, advance)
          | inr under ↦ rw (measured, under, advance) (cruise-returns r v' k')
        ]

    step_vehicle-returns :
        (dt : F) (idle_s : ℤ) (r : Draws F) (v : Vehicle F)
        → (step_vehicle dt shape stops idle_s r v).0 ≡ ok tt
    unfolding step_vehicle
    step_vehicle-returns dt idle_s r v =
        ground (arith, advance-returns dt idle_s r v (init_kin r v.kin))

    build-returns :
        (r : Draws F) (now : ℤ) (v : Vehicle F)
        → (p : Option (Payloads F)) × ((build_vehicle_payloads shape r now v).0 ≡ ok p)
    unfolding build_vehicle_payloads payloads_at
    build-returns r now v =
        let (at, placed, _) = interpolate-returns v.progress_m in
        elim (Bool-cases v.transmitting) [
          | inl sending ↦ (
            some (payloads_at v (init_kin r v.kin) now at),
            rw (sending, placed, build_vehicle_payloads),
          )
          | inr silent ↦ (none, rw (silent, build_vehicle_payloads))
        ]

  -- Given the float laws, the part of a tick that computes raises nothing for a vehicle that is
  -- served.
  pub sample-returns :
      (laws : IsOrdered F) (c : Settings F) (net : Network F) (chance : Chance F) (v : Vehicle F)
      → IsServed net.stops net.shapes v
      → (p : Option (Payloads F)) × ((sample c net chance v).0 ≡ ok p)
  unfolding sample
  sample-returns laws c net chance v h =
      let (shape, known, route, charted) = known_shape net.stops net.shapes v h in
      let step =
        step_vehicle-returns laws net.stops shape route charted c.interval c.idle_s chance.draws
          v in
      let (p, built) =
        build-returns laws net.stops shape route charted chance.draws chance.now
          (step_vehicle c.interval shape net.stops c.idle_s chance.draws v).1 in
      (p, rw (known, step, sample) built)
