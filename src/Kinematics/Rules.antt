-- ===== src/Kinematics/Rules.antt =====
-- What a tick of `step_vehicle` does to the flags and the scratch space of a vehicle.
use databus_sim.Prelude.{
  ◌≡◌, refl, Bool, true, false, Option, none, some, List, arith, inl, inr, ◌⊎◌, Option-cases,
  Bool-cases, if◌then◌else◌,
}
use mathlib.Core.Option
use databus_sim.Prelude.Int.{ℤ, pos, ◌+ℤ◌, ◌≤ℤ◌, ltb_ℤ}
use databus_sim.Float.{Float, IsOrdered, ◌≼◌, lit, fmax, feq}
use databus_sim.Effect.{ok, Result-cases}
use databus_sim.Fleet.{Vehicle, Kin}
use databus_sim.Kinematics.{
  Shape, Stop, Draws, total_dist_m, interpolate, nearest_stop, init_kin, min_speed, max_speed,
}
use databus_sim.Kinematics.Step.{
  step_vehicle, next_speed, advance, count_down, cruise, enter_stop, clamp_int, with_kin,
}
use databus_sim.Kinematics.Motion.{drift_band}

-- max(0, min(100, x)) lies in 0..100.
clamp_int_bounds :
    (x : ℤ) → (pos 0 ≤ℤ clamp_int (pos 0) (pos 100) x) × (clamp_int (pos 0) (pos 100) x ≤ℤ pos 100)
clamp_int_bounds x = ground arith

module _ {F : Type 0} ⦃fl : Float F⦄ where
  -- The scratch values that passengers and dwelling depend on are in range.
  pub record InRange (k : Kin F) : Type 0 where
    pub not_negative : pos 0 ≤ℤ k.occupancy_pct
    pub not_over : k.occupancy_pct ≤ℤ pos 100
    pub slow : min_speed ≼ k.speed
    pub fast : k.speed ≼ max_speed

  module _ (dt : F) (shape : Shape F) (stops : List (Stop F)) (idle_s : ℤ) (r : Draws F)
      (v : Vehicle F) (total : F) (known : total_dist_m shape ≡ ok total) where
    flags-cruise :
        (u : Vehicle F) (k : Kin F)
        → ((cruise shape stops r u k).1.moving ≡ u.moving)
          × ((cruise shape stops r u k).1.transmitting ≡ u.transmitting)
    unfolding cruise
    flags-cruise u k = ground arith

    abbrev arrives : Kin F → Bool
    arrives k = fl.le total (fl.add v.progress_m (fl.mul (next_speed v k r) dt))

    flags-advance :
        (k : Kin F)
        → ((advance dt shape stops idle_s r v k).1.moving ≡ (if arrives k then false else v.moving))
          × ((advance dt shape stops idle_s r v k).1.transmitting ≡ v.transmitting)
    unfolding advance
    flags-advance k =
        let k' : Kin F = record k { speed = next_speed v k r } in
        ground (
          arith,
          flags-cruise
              (record (with_kin v k') {
                progress_m = fl.add v.progress_m (fl.mul (next_speed v k r) dt);
              })
              k',
        )

    flags-count_down :
        (k : Kin F)
        → (count_down dt v k).transmitting ≡ false
        → (v.transmitting ≡ false)
          ⊎ (fl.lt (lit 0) k.post_run_idle_remaining_s ≡ true)
            × (feq (fmax (lit 0) (fl.sub k.post_run_idle_remaining_s dt)) (lit 0) ≡ true)
    unfolding count_down
    flags-count_down k h = ground arith

    -- On a shape that has a length, a moving vehicle stops only at the terminal: it then stands
    -- at the end of its shape, keeps transmitting as before, and the idle countdown starts at
    -- POST_RUN_IDLE_S.
    pub step_vehicle_stops :
        v.moving ≡ true
        → (step_vehicle dt shape stops idle_s r v).1.moving ≡ false
        → ((step_vehicle dt shape stops idle_s r v).1.progress_m ≡ total)
          × ((step_vehicle dt shape stops idle_s r v).1.transmitting ≡ v.transmitting)
          × (Option.map
                (λ k. k.post_run_idle_remaining_s)
                (step_vehicle dt shape stops idle_s r v).1.kin
              ≡ some (fl.of_int idle_s))
    unfolding step_vehicle advance
    step_vehicle_stops moving stopped =
        let k = init_kin r v.kin in
        let k' : Kin F = record k { speed = next_speed v k r } in
        ground (
          arith,
          flags-cruise
              (record (with_kin v k') {
                progress_m = fl.add v.progress_m (fl.mul (next_speed v k r) dt);
              })
              k',
        )

    -- On a shape that has a length, a transmitting vehicle falls silent only at the end of the
    -- idle countdown: it is not moving and not dwelling, time was left on the countdown, and this
    -- tick uses it up.
    pub step_vehicle_silences :
        v.transmitting ≡ true
        → (step_vehicle dt shape stops idle_s r v).1.transmitting ≡ false
        → (v.moving ≡ false)
          × (ltb_ℤ (pos 0) (init_kin r v.kin).dwell_remaining ≡ false)
          × (fl.lt (lit 0) (init_kin r v.kin).post_run_idle_remaining_s ≡ true)
          × (feq (fmax (lit 0) (fl.sub (init_kin r v.kin).post_run_idle_remaining_s dt)) (lit 0)
              ≡ true)
    unfolding step_vehicle
    step_vehicle_silences on off =
        ground (arith, flags-count_down (init_kin r v.kin), flags-advance (init_kin r v.kin))

  module _ (laws : IsOrdered F) (dt : F) (shape : Shape F) (stops : List (Stop F)) (idle_s : ℤ)
      (r : Draws F) where
    enter_stop_keeps :
        (at : Option (Stop F) × F) (k : Kin F)
        → ((enter_stop at k).speed ≡ k.speed) × ((enter_stop at k).occupancy_pct ≡ k.occupancy_pct)
    unfolding enter_stop
    enter_stop_keeps (none, dist) k = (refl, refl)
    enter_stop_keeps (some ns, dist) k = ground arith

    abbrev KinInRange : Vehicle F → Type 0
    KinInRange v = (k : Kin F) → v.kin ≡ some k → InRange k

    cruise-InRange :
        (v : Vehicle F) (k : Kin F)
        → (min_speed ≼ k.speed) × (k.speed ≼ max_speed)
        → KinInRange (cruise shape stops r v k).1
    unfolding cruise
    cruise-InRange v k band u e =
        let k' : Kin F = record k {
          occupancy_pct = clamp_int (pos 0) (pos 100) (k.occupancy_pct +ℤ r.occupancy_change);
        } in
        let bounds = clamp_int_bounds (k.occupancy_pct +ℤ r.occupancy_change) in
        elim (Result-cases (interpolate shape v.progress_m)) [
          | inl (at, found) ↦ elim (Result-cases (nearest_stop stops at.0 at.1)) [
            | inl (nearest, measured) ↦
                let kept = enter_stop_keeps nearest k' in
                let e' : u ≡ enter_stop nearest k' = ground arith in
                rw e' (record {
                  not_negative = rw kept.1 bounds.0;
                  not_over = rw kept.1 bounds.1;
                  slow = rw kept.0 band.0;
                  fast = rw kept.0 band.1;
                })
            | inr (x, failed) ↦
                let e' : u ≡ k' = ground arith in
                rw e' (record {
                  not_negative = bounds.0;
                  not_over = bounds.1;
                  slow = band.0;
                  fast = band.1;
                })
          ]
          | inr (x, failed) ↦
              let e' : u ≡ k' = ground arith in
              rw e' (record {
                not_negative = bounds.0;
                not_over = bounds.1;
                slow = band.0;
                fast = band.1;
              })
        ]

    advance-InRange :
        (v : Vehicle F) (k : Kin F)
        → v.speed_override ≡ none
        → InRange k
        → KinInRange (advance dt shape stops idle_s r v k).1
    unfolding advance
    advance-InRange v k free h u e =
        let k' : Kin F = record k { speed = next_speed v k r } in
        let v' : Vehicle F = record (with_kin v k') {
          progress_m = fl.add v.progress_m (fl.mul (next_speed v k r) dt);
        } in
        let band : (min_speed ≼ next_speed v k r) × (next_speed v k r ≼ max_speed) =
          unfold next_speed in rw free (drift_band laws (fl.add k.speed r.speed_change)) in
        ground (arith, cruise-InRange v' k' band u, h.not_negative, h.not_over)

    count_down-InRange : (v : Vehicle F) (k : Kin F) → InRange k → KinInRange (count_down dt v k)
    unfolding count_down
    count_down-InRange v k h u e = ground (arith, h.not_negative, h.not_over, h.slow, h.fast)

    -- The documented ranges of `random.uniform(MIN_SPEED, MAX_SPEED)` and `random.randint(20,
    -- 70)`.
    pub record IsFirstDraw : Type 0 where
      pub slow : min_speed ≼ r.first_speed
      pub fast : r.first_speed ≼ max_speed
      pub low : pos 20 ≤ℤ r.first_occupancy
      pub high : r.first_occupancy ≤ℤ pos 70

    init_kin-InRange : (v : Vehicle F) → IsFirstDraw → KinInRange v → InRange (init_kin r v.kin)
    unfolding init_kin
    init_kin-InRange v draw h = elim (Option-cases v.kin) [
      | inl e ↦ rw e (record {
        not_negative = let p = draw.low in omega arith;
        not_over = let p = draw.high in omega arith;
        slow = draw.slow;
        fast = draw.fast;
      })
      | inr (k, e) ↦ rw e (h k e)
    ]

    -- Given the float laws: without a speed override, if the first draws are in the documented
    -- ranges and the scratch space is empty or in range, whatever is drawn later, a tick keeps
    -- the occupancy in 0..100 and the speed in MIN_SPEED..MAX_SPEED, also where it raises.
    pub step_vehicle-InRange :
        (v : Vehicle F)
        → IsFirstDraw
        → v.speed_override ≡ none
        → KinInRange v
        → KinInRange (step_vehicle dt shape stops idle_s r v).1
    unfolding step_vehicle
    step_vehicle-InRange v draw free h u e =
        let k = init_kin r v.kin in
        let here = init_kin-InRange v draw h in
        elim (Bool-cases (ltb_ℤ (pos 0) (init_kin r v.kin).dwell_remaining)) [
          | inl dwelling ↦ ground (arith, here.not_negative, here.not_over, here.slow, here.fast)
          | inr awake ↦ elim (Bool-cases v.moving) [
            | inl moving ↦ advance-InRange v (init_kin r v.kin) free here u (ground arith)
            | inr still ↦ count_down-InRange v (init_kin r v.kin) here u (ground arith)
          ]
        ]
