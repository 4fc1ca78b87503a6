-- ===== src/Fleet/Roster.antt =====
-- simulator_app/domain/fleet.py: the fixed roster, the constructor of `FleetState` and its
-- snapshot.
use databus_sim.Prelude.{ℕ, String, Bool, false, Option, none, List, [], ◌∷◌, map}
use databus_sim.Prelude.Int.{ℤ}
use databus_sim.Float.{Float, lit}
use databus_sim.Dict.{Dict, put, values}
use databus_sim.Fleet.{Vehicle, FleetState}

-- An entry of `snapshot()["vehicles"]`.
pub record Row (F : Type 0) : Type 0 where
  pub vehicle_id : String
  pub route_id : String
  pub transmitting : Bool
  pub moving : Bool
  pub speed_override : Option F
  pub occupancy_override : Option ℤ
  pub bound_run_id : Option String
  pub bound_trip_id : Option String
  pub bound_shape_id : Option String
  pub lifecycle_state : Option String
  pub progress_m : F
  pub last_state_change_at : Option ℕ

module _ {F : Type 0} ⦃fl : Float F⦄ where
  -- `Vehicle(vehicle_id=…, route_id=…, default_shape_id=…)`: all other fields have their defaults.
  abbrev pub new_vehicle : (vehicle_id route_id default_shape_id : String) → Vehicle F
  new_vehicle vehicle_id route_id default_shape_id = record {
    vehicle_id = vehicle_id;
    route_id = route_id;
    default_shape_id = default_shape_id;
    transmitting = false;
    moving = false;
    speed_override = none;
    occupancy_override = none;
    dwell_override = none;
    bound_run_id = none;
    bound_trip_id = none;
    bound_shape_id = none;
    terminal_stop_id = none;
    lifecycle_state = none;
    progress_m = lit 0;
    last_state_change_at = none;
    kin = none;
  }

  abbrev pub make_fleet : List (Vehicle F)
  make_fleet =
      new_vehicle "unit-01" "bUCR_L1" "hacia_artes"
      ∷ new_vehicle "unit-02" "bUCR_L1" "hacia_educacion"
      ∷ new_vehicle "unit-03" "bUCR_L1" "desde_artes_sin_milla"
      ∷ new_vehicle "unit-04" "bUCR_L2" "desde_artes_con_milla"
      ∷ new_vehicle "unit-05" "bUCR_L2" "desde_educacion_con_milla"
      ∷ new_vehicle "unit-06" "bUCR_L2" "desde_artes_con_milla"
      ∷ []

  -- `{v.vehicle_id: v for v in source}`
  unfoldable pub index_by_id : List (Vehicle F) → Dict (Vehicle F) → Dict (Vehicle F)
  index_by_id [] d = d
  index_by_id (v ∷ vs) d = index_by_id vs (put d v.vehicle_id v)

  -- `FleetState(vehicles)`
  unfoldable pub new_fleet : List (Vehicle F) → FleetState F
  unfolding index_by_id
  new_fleet vs = record { by_id = index_by_id vs []; on_change = []; calls = [] }

  abbrev row : Vehicle F → Row F
  row v = record {
    vehicle_id = v.vehicle_id;
    route_id = v.route_id;
    transmitting = v.transmitting;
    moving = v.moving;
    speed_override = v.speed_override;
    occupancy_override = v.occupancy_override;
    bound_run_id = v.bound_run_id;
    bound_trip_id = v.bound_trip_id;
    bound_shape_id = v.bound_shape_id;
    lifecycle_state = v.lifecycle_state;
    progress_m = fl.round v.progress_m 1;
    last_state_change_at = v.last_state_change_at;
  }

  unfoldable pub snapshot : FleetState F → ℕ → List (Row F) × ℕ
  snapshot s now = (map row (values s.by_id), now)
