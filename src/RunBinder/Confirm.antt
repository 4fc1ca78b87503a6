-- ===== src/RunBinder/Confirm.antt =====
-- What `_apply_state` does to the vehicle of a run, and what the callbacks see meanwhile.
use databus_sim.Prelude.{ℕ, String, ◌≡◌, refl, true, false, some, [], sym, arith, eq_iff, str_eq}
use mathlib.Core.List.{append-nil}
use databus_sim.Float.{Float, lit}
use databus_sim.Dict.{get, put, get-put}
use databus_sim.Effect.{Exec}
use databus_sim.Fleet.{
  Vehicle, FleetState, mutate, set_lifecycle_state, bind_run, set_moving, set_transmitting,
}
use databus_sim.Fleet.Runs.{Runs, Runs-bind, mutate-Runs}
use databus_sim.RunBinder.{BoundRun, apply_state, act_on, confirm, reset_progress}

module _ {F : Type 0} ⦃fl : Float F⦄ (b : BoundRun) (state : String) (now : ℕ) (v : Vehicle F) where
  -- The vehicle once its run is confirmed: bound, at the start of its shape, parked, transmitting.
  abbrev pub confirmed : Vehicle F
  confirmed = record v {
    lifecycle_state = some state;
    bound_run_id = some b.run_id;
    bound_trip_id = some b.trip_id;
    bound_shape_id = some b.shape_id;
    terminal_stop_id = b.terminal_stop_id;
    moving = false;
    progress_m = lit 0;
    transmitting = true;
    last_state_change_at = some now;
  }

  -- A vehicle that was silent transmits only when it is bound to the run and reset.
  pub record IsGuarded (u : Vehicle F) : Type 0 where
    pub guard :
        v.transmitting ≡ false
        → u.transmitting ≡ true
        → (u.bound_run_id ≡ some b.run_id)
          × (u.bound_trip_id ≡ some b.trip_id)
          × (u.bound_shape_id ≡ some b.shape_id)
          × (u.moving ≡ false)
          × (u.progress_m ≡ lit 0)

  reset_progress-Runs :
      (P : Vehicle F → Type 0) (u : Vehicle F) (s : FleetState F)
      → get s.by_id b.vehicle_id ≡ some u
      → Runs b.vehicle_id P (reset_progress b.vehicle_id) (record u { progress_m = lit 0 }) s
  unfolding reset_progress
  reset_progress-Runs P u s known =
      let u' : Vehicle F = record u { progress_m = lit 0 } in
      (
        record s { by_id = put s.by_id b.vehicle_id (record u { progress_m = lit 0 }) },
        rw (known, reset_progress),
        record {
          here = ground (
            arith,
            get-put s.by_id b.vehicle_id b.vehicle_id u',
            eq_iff b.vehicle_id b.vehicle_id,
          );
          others = λ w ne. ground (arith, get-put s.by_id b.vehicle_id w u', eq_iff b.vehicle_id w);
          subscribers = refl;
          new_calls = [];
          calls = sym (append-nil s.calls);
          seen = tt;
        },
      )

  -- The assignments of the mutators that `_apply_state` calls for a confirmed run.
  abbrev set_state : Vehicle F → Vehicle F
  set_state u = record u { lifecycle_state = some state; last_state_change_at = some now }

  abbrev bind : Vehicle F → Vehicle F
  bind u = record u {
    bound_run_id = some b.run_id;
    bound_trip_id = some b.trip_id;
    bound_shape_id = some b.shape_id;
    terminal_stop_id = b.terminal_stop_id;
    last_state_change_at = some now;
  }

  abbrev park : Vehicle F → Vehicle F
  park u = record u { moving = false; last_state_change_at = some now }

  abbrev restart : Vehicle F → Vehicle F
  restart u = record u { progress_m = lit 0 }

  abbrev send : Vehicle F → Vehicle F
  send u = record u { transmitting = true; last_state_change_at = some now }

  abbrev Goes : Exec (FleetState F) (Unit {0}) → Vehicle F → FleetState F → Type 0
  Goes = Runs b.vehicle_id IsGuarded

  confirm-Runs :
      (s : FleetState F) (u : Vehicle F)
      → get s.by_id b.vehicle_id ≡ some u
      → u.transmitting ≡ v.transmitting
      → Goes (confirm b now) (send (restart (park (bind u)))) s
  unfolding confirm bind_run set_moving set_transmitting
  confirm-Runs s u known same =
      Runs-bind b.vehicle_id IsGuarded (mutate b.vehicle_id bind) _ (bind u) _ s
        (mutate-Runs b.vehicle_id IsGuarded bind u s known (record { guard = ground arith }))
        λ t2 known2.
          Runs-bind b.vehicle_id IsGuarded (mutate b.vehicle_id park) _ (park (bind u)) _ t2
            (mutate-Runs b.vehicle_id IsGuarded park (bind u) t2 known2
              (record { guard = ground arith }))
            λ t3 known3.
              Runs-bind b.vehicle_id IsGuarded (reset_progress b.vehicle_id) _
                (restart (park (bind u))) _ t3
                (reset_progress-Runs IsGuarded (park (bind u)) t3 known3)
                λ t4 known4.
                  mutate-Runs b.vehicle_id IsGuarded send (restart (park (bind u))) t4 known4
                    (record { guard = ground arith })

  -- When databus confirms a run, its known vehicle is bound to it, parked at the start of the
  -- shape and transmitting, no other vehicle changes, and no callback finds a vehicle that was
  -- silent transmitting before it is bound and reset.
  pub apply_state-confirmed :
      (s : FleetState F)
      → state ≡ "Confirmed"
      → get s.by_id b.vehicle_id ≡ some v
      → Runs b.vehicle_id IsGuarded (apply_state b state now) confirmed s
  unfolding apply_state act_on set_lifecycle_state
  apply_state-confirmed s e known =
      let test : str_eq state "Confirmed" ≡ true = (eq_iff state "Confirmed").1 e in
      rw test (
        Runs-bind b.vehicle_id IsGuarded (mutate b.vehicle_id set_state) _ (set_state v) _ s
          (mutate-Runs b.vehicle_id IsGuarded set_state v s known (record { guard = ground arith }))
          λ t known'. confirm-Runs t (set_state v) known' refl)
