-- ===== src/Control/Dispatch.antt =====
-- The two entry points of simulator_app/domain/control.py and their dispatch tables.
use databus_sim.Prelude.{ℕ, String, true, Option, none, some, str_eq, if◌then◌else◌}
use databus_sim.Float.{Float}
use databus_sim.Dict.{Dict, get}
use databus_sim.Effect.{Exec, ok, pure, try_except}
use databus_sim.Fleet.{FleetState, set_moving}
use databus_sim.Kinematics.{Draws}
use databus_sim.Control.{
  Json, Files, item, when_text, handle_transmit, handle_moving, handle_speed, handle_occupancy,
  handle_dwell, handle_jump_to_terminal, handle_set_progress, handle_inject_fault,
}

-- The scheduler's `reload`, where there is a scheduler: an action on its own state.
unfoldable pub handle_global_reload_schedule :
    {S : Type 0} → Option (Exec S (Unit {0})) → Exec S (Unit {0})
handle_global_reload_schedule none = pure tt
handle_global_reload_schedule (some reload) = try_except reload (pure tt)

-- A request on one vehicle, with what its handler reads from outside.
pub record Request (F : Type 0) : Type 0 where
  pub vehicle_id : String
  pub knob : String
  pub payload : Dict (Json F)
  pub files : Files F
  pub draws : Draws F
  pub show : Json F → String
  pub now : ℕ

module _ {F : Type 0} ⦃fl : Float F⦄ where
  -- _PER_VEHICLE_DISPATCH; none for a knob that is not in _PER_VEHICLE_KNOBS.
  unfoldable pub handler : Request F → Option (Exec (FleetState F) (Unit {0}))
  handler q =
      if str_eq q.knob "transmit"
      then some (handle_transmit q.vehicle_id q.payload q.now)
      else if str_eq q.knob "moving"
      then some (handle_moving q.vehicle_id q.payload q.now)
      else if str_eq q.knob "speed"
      then some (handle_speed q.vehicle_id q.payload)
      else if str_eq q.knob "occupancy"
      then some (handle_occupancy q.vehicle_id q.payload)
      else if str_eq q.knob "dwell"
      then some (handle_dwell q.show q.vehicle_id q.payload)
      else if str_eq q.knob "jump_to_terminal"
      then some (handle_jump_to_terminal q.files q.vehicle_id)
      else if str_eq q.knob "set_progress"
      then some (handle_set_progress q.files q.vehicle_id q.payload)
      else if str_eq q.knob "inject_fault"
      then some (handle_inject_fault q.draws q.vehicle_id q.payload)
      else none

  unfoldable pub apply_control : Request F → Exec (FleetState F) (Unit {0})
  apply_control q s = elim (get s.by_id q.vehicle_id) [
    | none ↦ (ok tt, s)
    | some v ↦ elim (handler q) [ none ↦ (ok tt, s) | some handle ↦ try_except handle (pure tt) s ]
  ]

  unfoldable pub handle_global_start_run : Dict (Json F) → ℕ → Exec (FleetState F) (Unit {0})
  handle_global_start_run payload now =
      when_text
        (λ vid s. elim (get s.by_id vid) [ none ↦ (ok tt, s) | some v ↦ set_moving vid true now s ])
        (item payload "vehicle_id")

  -- The state of the fleet and that of the scheduler.
  unfoldable pub apply_global_control :
      {S : Type 0}
      → Option (Exec S (Unit {0}))
      → (knob : String) (payload : Dict (Json F)) (now : ℕ) → Exec (FleetState F × S) (Unit {0})
  apply_global_control scheduler knob payload now (fleet, s) =
      if str_eq knob "start_run"
      then (let (r, fleet') = try_except (handle_global_start_run payload now) (pure tt) fleet in
          (r, (fleet', s)))
      else if str_eq knob "reload_schedule"
      then (let (r, s') = try_except (handle_global_reload_schedule scheduler) (pure tt) s in
          (r, (fleet, s')))
      else (ok tt, (fleet, s))
