-- ===== src/RunBinder/Frame.antt =====
-- What `_apply_state` leaves alone, whether it returns or raises.
use databus_sim.Prelude.{
  ℕ, String, ◌≡◌, ◌≢◌, Bool, false, true, Option, some, arith, eq_iff, str_eq, ◌||◌, inl, inr,
  Option-cases,
}
use databus_sim.Float.{Float, lit}
use databus_sim.Dict.{get, get-put, put-found}
use databus_sim.Effect.Keeps.{Keeps, Keeps-pure, Keeps-if, Keeps-then}
use databus_sim.Fleet.{
  Vehicle, FleetState, mutate, set_lifecycle_state, bind_run, unbind_run, set_moving,
  set_transmitting,
}
use databus_sim.Fleet.Changes.{Change, perform, get-mutate}
use databus_sim.Fleet.Changes
use databus_sim.Fleet.Invariant.{IsWellFormed, perform-IsWellFormed}
use databus_sim.RunBinder.{
  BoundRun, apply_state, act_on, confirm, release, reset_progress, is_terminal,
}

module _ {F : Type 0} ⦃fl : Float F⦄ (b : BoundRun) (now : ℕ) where
  -- The calls that `_apply_state` can make keep `P`.
  pub record Parts (P : FleetState F → Type 0) : Type 0 where
    pub state : (new : String) → Keeps P (set_lifecycle_state b.vehicle_id (some new) now)
    pub bind : Keeps P (bind_run b.vehicle_id b.run_id b.trip_id b.shape_id b.terminal_stop_id now)
    pub park : Keeps P (set_moving b.vehicle_id false now)
    pub reset : Keeps P (reset_progress b.vehicle_id)
    pub send : (on : Bool) → Keeps P (set_transmitting b.vehicle_id on now)
    pub unbind : Keeps P (unbind_run b.vehicle_id now)

  pub apply_state-Keeps :
      (P : FleetState F → Type 0) → Parts P → (new : String) → Keeps P (apply_state b new now)
  unfolding apply_state act_on confirm release
  apply_state-Keeps P parts new = Keeps-then _ _ (parts.state new) (
      Keeps-if (str_eq new "Confirmed") _ _
        (Keeps-then _ _ parts.bind
          (Keeps-then _ _ parts.park (Keeps-then _ _ parts.reset (parts.send true))))
        (Keeps-if (str_eq new "Tracking" || str_eq new "In Progress" || str_eq new "No Signal") _ _
          (Keeps-pure tt)
          (Keeps-if (is_terminal new) _ _ (Keeps-then _ _ (parts.send false) parts.unbind)
            (Keeps-pure tt))))

  module _ (w : String) (other : b.vehicle_id ≢ w) (found : Option (Vehicle F)) where
    abbrev Same : FleetState F → Type 0
    Same s = get s.by_id w ≡ found

    mutate-Same : (f : Vehicle F → Vehicle F) → Keeps Same (mutate b.vehicle_id f)
    mutate-Same f = record {
      at = λ s h. ground (arith, get-mutate b.vehicle_id f s w, eq_iff b.vehicle_id w);
    }

    reset_progress-Same : Keeps Same (reset_progress {F = F} b.vehicle_id)
    unfolding reset_progress
    reset_progress-Same = record {
      at = λ s h. elim (Option-cases (get s.by_id b.vehicle_id)) [
        | inl missing ↦ ground arith
        | inr (v, known) ↦ ground (
          arith,
          get-put s.by_id b.vehicle_id w (record v { progress_m = lit 0 }),
          eq_iff b.vehicle_id w,
        )
      ];
    }

    pub apply_state-Same : (new : String) → Keeps Same (apply_state b new now)
    unfolding set_lifecycle_state bind_run set_moving set_transmitting unbind_run
    apply_state-Same = apply_state-Keeps Same (record {
      state = λ new. mutate-Same _;
      bind = mutate-Same _;
      park = mutate-Same _;
      reset = reset_progress-Same;
      send = λ on. mutate-Same _;
      unbind = mutate-Same _;
    })

  by_change : (c : Change F) → Keeps IsWellFormed (perform c)
  by_change c = record { at = perform-IsWellFormed c }

  reset_progress-IsWellFormed : Keeps IsWellFormed (reset_progress {F = F} b.vehicle_id)
  unfolding reset_progress
  reset_progress-IsWellFormed = record {
    at = λ s h. elim (Option-cases (get s.by_id b.vehicle_id)) [
      | inl missing ↦ rw (missing, reset_progress) h
      | inr (v, known) ↦
          rw (known, reset_progress)
            (record {
              sound = λ k u found.
                  elim (put-found s.by_id b.vehicle_id k (record v { progress_m = lit 0 }) u
                    found) [
                      | inl (here, new) ↦
                          rw new (let p = h.sound b.vehicle_id v known in ground arith)
                      | inr old ↦ h.sound k u old
                    ];
            })
    ];
  }

  -- Whatever state the databus reports, and also where an unknown vehicle makes it raise,
  -- `_apply_state` keeps the fleet well formed.
  pub apply_state-IsWellFormed :
      (new : String) (s : FleetState F) → IsWellFormed s → IsWellFormed (apply_state b new now s).1
  unfolding perform
  apply_state-IsWellFormed new =
      (apply_state-Keeps IsWellFormed
        (record {
          state = λ state. by_change (Changes.lifecycle b.vehicle_id (some state) now);
          bind =
              by_change
                (Changes.bind b.vehicle_id b.run_id b.trip_id b.shape_id b.terminal_stop_id now);
          park = by_change (Changes.moving b.vehicle_id false now);
          reset = reset_progress-IsWellFormed;
          send = λ on. by_change (Changes.transmitting b.vehicle_id on now);
          unbind = by_change (Changes.unbind b.vehicle_id now);
        })
        new).at
