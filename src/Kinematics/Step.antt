-- ===== src/Kinematics/Step.antt =====
-- `step_vehicle`: one tick of a vehicle. What is assigned before a raise stays assigned.
use databus_sim.Prelude.{◌+◌, false, not, ◌&&◌, Option, none, some, List, str_eq, if◌then◌else◌}
use databus_sim.Prelude.Int.{ℤ, pos, ◌+ℤ◌, ◌-ℤ◌, ltb_ℤ}
use databus_sim.Float.{Float, lit, fmax, fmin, feq}
use databus_sim.Effect.{Result, ok, err, Exec}
use databus_sim.Fleet.{Vehicle, Kin}
use databus_sim.Kinematics.{
  Shape, Stop, Draws, min_speed, max_speed, stop_radius_m, total_dist_m, interpolate, nearest_stop,
  init_kin,
}

-- max(lo, min(hi, x)) on int
abbrev pub clamp_int : ℤ → ℤ → ℤ → ℤ
clamp_int lo hi x = let upper = if ltb_ℤ x hi then x else hi in if ltb_ℤ lo upper then upper else lo

-- The vehicle with its scratch space written back.
abbrev pub with_kin : {F : Type 0} → Vehicle F → Kin F → Vehicle F
with_kin v k = record v { kin = some k }

module _ {F : Type 0} ⦃fl : Float F⦄ where
  -- Rule 2: the idle countdown of a vehicle that does not move.
  unfoldable pub count_down : F → Vehicle F → Kin F → Vehicle F
  count_down dt v k =
      let idle = k.post_run_idle_remaining_s in
      let remaining = fmax (lit 0) (fl.sub idle dt) in
      let v' = with_kin v (record k { post_run_idle_remaining_s = remaining }) in
      if fl.lt (lit 0) idle
      then if feq remaining (lit 0) then record v' { transmitting = false } else v'
      else with_kin v k

  -- Rule 3: the speed of this tick.
  unfoldable pub next_speed : Vehicle F → Kin F → Draws F → F
  next_speed v k r = elim v.speed_override [
    | some value ↦ value
    | none ↦ fmax min_speed (fmin max_speed (fl.add k.speed r.speed_change))
  ]

  -- Rule 5, behind the occupancy drift: a new stop zone starts a dwell.
  unfoldable pub enter_stop : Option (Stop F) × F → Kin F → Kin F
  enter_stop (none, dist) k = k
  enter_stop (some ns, dist) k =
      if fl.lt dist stop_radius_m && not (str_eq ns.stop_id k.last_stop_id)
      then record k {
        last_stop_id = ns.stop_id;
        stop_sequence = k.stop_sequence + 1;
        dwell_remaining = pos 3;
      }
      else k

  -- Rule 5, for a vehicle under way.
  unfoldable pub cruise :
      Shape F → List (Stop F) → Draws F → Vehicle F → Kin F → Result (Unit {0}) × Vehicle F
  cruise shape stops r v k =
      let k' = record k {
        occupancy_pct = clamp_int (pos 0) (pos 100) (k.occupancy_pct +ℤ r.occupancy_change);
      } in
      elim (interpolate shape v.progress_m) [
        | err e ↦ (err e, with_kin v k')
        | ok (lat, lon, brg) ↦ elim (nearest_stop stops lat lon) [
          | err e ↦ (err e, with_kin v k')
          | ok nearest ↦ (ok tt, with_kin v (enter_stop nearest k'))
        ]
      ]

  -- Rules 3 to 5.
  unfoldable pub advance :
      (dt : F) (shape : Shape F) (stops : List (Stop F)) (idle_s : ℤ) (r : Draws F) (v : Vehicle F)
      (k : Kin F)
      → Result (Unit {0}) × Vehicle F
  advance dt shape stops idle_s r v k =
      let speed = next_speed v k r in
      let k' = record k { speed = speed } in
      let v' = record (with_kin v k') { progress_m = fl.add v.progress_m (fl.mul speed dt) } in
      elim (total_dist_m shape) [
        | err e ↦ (err e, v')
        | ok total ↦
            if fl.le total v'.progress_m
            then (
              ok tt,
              record v' {
                progress_m = total;
                moving = false;
                kin = some (record k' { post_run_idle_remaining_s = fl.of_int idle_s });
              },
            )
            else cruise shape stops r v' k'
      ]

  -- `idle_s` is POST_RUN_IDLE_S.
  unfoldable pub step_vehicle :
      (dt : F) (shape : Shape F) (stops : List (Stop F)) (idle_s : ℤ) (r : Draws F)
      → Exec (Vehicle F) (Unit {0})
  step_vehicle dt shape stops idle_s r v =
      let k = init_kin r v.kin in
      if ltb_ℤ (pos 0) k.dwell_remaining
      then (ok tt, with_kin v (record k { dwell_remaining = k.dwell_remaining -ℤ pos 1 }))
      else if not v.moving
      then (ok tt, count_down dt v k)
      else advance dt shape stops idle_s r v k
