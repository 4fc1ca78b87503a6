-- ===== src/Kinematics/Payload.antt =====
-- `build_vehicle_payloads`: the telemetry of a vehicle, and the injected faults.
use mathlib.Core.Option
use databus_sim.Prelude.{not, ◌||◌, Option, none, some, if◌then◌else◌}
use databus_sim.Prelude.Int.{ℤ, pos, ◌-ℤ◌, ltb_ℤ}
use databus_sim.Float.{Float, lit}
use databus_sim.Effect.{ok, err, Exec}
use databus_sim.Fleet.{Vehicle, Kin, FaultKind, stale_ts, out_of_bounds, malformed}
use databus_sim.Kinematics.{Shape, Draws, interpolate, init_kin}
use databus_sim.Kinematics.Step.{with_kin}

-- `speed` is `none` where the key was popped.
pub record Position (F : Type 0) : Type 0 where
  pub timestamp : ℤ
  pub latitude : F
  pub longitude : F
  pub bearing : F
  pub speed : Option F
  pub odometer : F

pub record Occupancy : Type 0 where
  pub timestamp : ℤ
  pub occupancy_percentage : ℤ

pub record Payloads (F : Type 0) : Type 0 where
  pub position : Position F
  pub occupancy : Occupancy

-- `fault if fault and fault_ticks > 0`
abbrev pub active_fault : {F : Type 0} → Kin F → Option FaultKind
active_fault k = if ltb_ℤ (pos 0) k.fault_ticks then k.fault else none

unfoldable pub fault_time : Option FaultKind → ℤ → ℤ
fault_time (some stale_ts) ts = ts -ℤ pos 120
fault_time _ ts = ts

module _ {F : Type 0} ⦃fl : Float F⦄ where
  -- What a tick does to an active fault.
  unfoldable pub spend_fault : Kin F → Kin F
  spend_fault k = elim (active_fault k) [
    | none ↦ k
    | some kind ↦
        let ticks = k.fault_ticks -ℤ pos 1 in
        if ltb_ℤ (pos 0) ticks
        then record k { fault_ticks = ticks }
        else record k { fault_ticks = ticks; fault = none }
  ]

  unfoldable pub fault_place : Option FaultKind → F × F → F × F
  fault_place (some out_of_bounds) at = (lit 0, lit 0)
  fault_place _ at = at

  unfoldable pub fault_speed : Option FaultKind → F → Option F
  fault_speed (some malformed) speed = none
  fault_speed _ speed = some speed

  -- Zero while not moving or while dwelling.
  unfoldable pub shown_speed : Vehicle F → Kin F → F
  shown_speed v k =
      if not v.moving || ltb_ℤ (pos 0) k.dwell_remaining then lit 0 else fl.round k.speed 2

  unfoldable pub payloads_at : Vehicle F → Kin F → ℤ → F × F × F → Payloads F
  unfolding fault_time fault_place fault_speed shown_speed
  payloads_at v k now (lat, lon, brg) =
      let fault = active_fault k in
      let ts = fault_time fault now in
      let (lat', lon') = fault_place fault (lat, lon) in
      record {
        position = record {
          timestamp = ts;
          latitude = fl.round lat' 6;
          longitude = fl.round lon' 6;
          bearing = fl.round brg 1;
          speed = fault_speed fault (shown_speed v k);
          odometer = fl.round v.progress_m 1;
        };
        occupancy = record {
          timestamp = ts;
          occupancy_percentage = Option.get_or v.occupancy_override k.occupancy_pct;
        };
      }

  -- `now` is the time in whole seconds. The result is `none` for a vehicle that is not
  -- transmitting.
  unfoldable pub build_vehicle_payloads :
      (shape : Shape F) (r : Draws F) (now : ℤ) → Exec (Vehicle F) (Option (Payloads F))
  build_vehicle_payloads shape r now v =
      let k = init_kin r v.kin in
      if not v.transmitting then (ok none, v) else elim (interpolate shape v.progress_m) [
        | err e ↦ (err e, with_kin v k)
        | ok at ↦ (ok (some (payloads_at v k now at)), with_kin v (spend_fault k))
      ]
