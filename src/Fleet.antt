-- ===== src/Fleet.antt =====
-- simulator_app/domain/fleet.py: the vehicles and the container that all mutations go through.
-- `datetime.now()` is an argument, a callback is the number of its place in `on_change`, and a
-- call of it is recorded with the vehicles as the callback finds them. The callbacks raise
-- nothing.
pub mod Roster
pub mod Changes
pub mod Invariant
pub mod Runs
mod Tests
use databus_sim.Prelude.{
  ℕ, String, Bool, false, not, Option, none, some, List, ◌++◌, map, str_eq, if◌then◌else◌,
}
use mathlib.Core.Option
use databus_sim.Prelude.Int.{ℤ}
use databus_sim.Float.{Float, lit}
use databus_sim.Dict.{Dict, get, put}
use databus_sim.Effect.{Exec, key_error, ok, err, ◌>>=◌, ◌>>◌}

pub data FaultKind : Type 0 where
  stale_ts out_of_bounds malformed : FaultKind

pub data StopStatus : Type 0 where
  stopped_at incoming_at in_transit_to : StopStatus

-- The dict that `compute_stop_status` returns; a missing key is `none`.
pub record Progression : Type 0 where
  pub current_status : StopStatus
  pub current_stop_sequence : Option ℤ
  pub stop_id : Option String

-- The dict `Vehicle._kin` once `_init_kin` has filled it: it adds all keys but the last at once,
-- and no code takes one out.
pub record Kin (F : Type 0) : Type 0 where
  pub speed : F
  pub occupancy_pct : ℤ
  pub dwell_remaining : ℤ
  pub stop_sequence : ℕ
  pub last_stop_id : String
  pub post_run_idle_remaining_s : F
  pub fault : Option FaultKind
  pub fault_ticks : ℤ
  pub progression_prev : Option Progression

pub record DwellOverride : Type 0 where
  pub stop_id : Option String
  pub ticks : ℤ

-- `kin` is `none` while `_kin` is the empty dict.
pub record Vehicle (F : Type 0) : Type 0 where
  pub vehicle_id : String
  pub route_id : String
  pub default_shape_id : String
  pub transmitting : Bool
  pub moving : Bool
  pub speed_override : Option F
  pub occupancy_override : Option ℤ
  pub dwell_override : Option DwellOverride
  pub bound_run_id : Option String
  pub bound_trip_id : Option String
  pub bound_shape_id : Option String
  pub terminal_stop_id : Option String
  pub lifecycle_state : Option String
  pub progress_m : F
  pub last_state_change_at : Option ℕ
  pub kin : Option (Kin F)

-- A call of a callback: its place in `on_change`, and the vehicles at the time.
pub record Notice (F : Type 0) : Type 0 where
  pub callback : ℕ
  pub seen : Dict (Vehicle F)

pub record FleetState (F : Type 0) : Type 0 where
  pub by_id : Dict (Vehicle F)
  pub on_change : List ℕ
  pub calls : List (Notice F)

module _ {F : Type 0} where
  -- `_notify`: each callback is called, in order.
  unfoldable pub notify : FleetState F → FleetState F
  notify s = record s {
    calls = s.calls ++ map (λ c. record { callback = c; seen = s.by_id }) s.on_change;
  }

  -- `_require`
  unfoldable pub require : String → Exec (FleetState F) (Vehicle F)
  require vid s = elim (get s.by_id vid) [ none ↦ (err key_error, s) | some v ↦ (ok v, s) ]

  -- Assignments to fields of the vehicle object that `_by_id` holds under `vid`.
  unfoldable pub assign : String → Vehicle F → Exec (FleetState F) (Unit {0})
  assign vid v s = (ok tt, record s { by_id = put s.by_id vid v })

  unfoldable pub notify_all : Exec (FleetState F) (Unit {0})
  unfolding notify
  notify_all s = (ok tt, notify s)

  -- The shape of every mutator: require the vehicle, assign its fields, notify.
  unfoldable pub mutate : String → (Vehicle F → Vehicle F) → Exec (FleetState F) (Unit {0})
  unfolding require assign notify_all
  mutate vid f = do v ← require vid; assign vid (f v); notify_all

  unfoldable pub set_transmitting : String → Bool → ℕ → Exec (FleetState F) (Unit {0})
  set_transmitting vid on now =
      mutate vid λ v. record v { transmitting = on; last_state_change_at = some now }

  unfoldable pub set_moving : String → Bool → ℕ → Exec (FleetState F) (Unit {0})
  set_moving vid on now = mutate vid λ v. record v { moving = on; last_state_change_at = some now }

  unfoldable pub set_speed_override : String → Option F → Exec (FleetState F) (Unit {0})
  set_speed_override vid value = mutate vid λ v. record v { speed_override = value }

  unfoldable pub set_occupancy_override : String → Option ℤ → Exec (FleetState F) (Unit {0})
  set_occupancy_override vid value = mutate vid λ v. record v { occupancy_override = value }

  -- The two assignments to `_kin` in `set_dwell_override`.
  unfoldable pub dwell_kin : Option String → ℤ → Kin F → Kin F
  dwell_kin stop_id ticks k = elim stop_id [
    | none ↦ record k { dwell_remaining = ticks }
    | some id ↦
        if not (str_eq id "")
        then record k { dwell_remaining = ticks; last_stop_id = id }
        else record k { dwell_remaining = ticks }
  ]

  unfoldable pub set_dwell_override : String → Option String → ℤ → Exec (FleetState F) (Unit {0})
  unfolding dwell_kin
  set_dwell_override vid stop_id ticks = mutate vid λ v. record v {
    dwell_override = some (record { stop_id = stop_id; ticks = ticks });
    kin = Option.map (dwell_kin stop_id ticks) v.kin;
  }

  unfoldable pub bind_run :
      (vid run_id trip_id shape_id : String) (terminal_stop_id : Option String) (now : ℕ)
      → Exec (FleetState F) (Unit {0})
  bind_run vid run_id trip_id shape_id terminal_stop_id now = mutate vid λ v. record v {
    bound_run_id = some run_id;
    bound_trip_id = some trip_id;
    bound_shape_id = some shape_id;
    terminal_stop_id = terminal_stop_id;
    last_state_change_at = some now;
  }

  unfoldable pub unbind_run : ⦃fl : Float F⦄ → String → ℕ → Exec (FleetState F) (Unit {0})
  unbind_run vid now = mutate vid λ v. record v {
    bound_run_id = none;
    bound_trip_id = none;
    bound_shape_id = none;
    terminal_stop_id = none;
    lifecycle_state = none;
    progress_m = lit 0;
    transmitting = false;
    moving = false;
    last_state_change_at = some now;
  }

  unfoldable pub set_lifecycle_state : String → Option String → ℕ → Exec (FleetState F) (Unit {0})
  set_lifecycle_state vid state now =
      mutate vid λ v. record v { lifecycle_state = state; last_state_change_at = some now }
