-- ===== src/RunBinder/Release.antt =====
-- What `_apply_state` does at the end of a run.
use databus_sim.Prelude.{
  ℕ, String, ◌≡◌, refl, true, false, none, some, arith, eq_iff, ◌⊎◌, inl, inr,
}
use databus_sim.Float.{Float, lit}
use databus_sim.Dict.{get}
use databus_sim.Fleet.{
  Vehicle, FleetState, mutate, set_lifecycle_state, unbind_run, set_transmitting,
}
use databus_sim.Fleet.Runs.{Runs, Runs-bind, mutate-Runs}
use databus_sim.RunBinder.{BoundRun, apply_state, act_on, release, is_terminal}

pub terminal_cases :
    (state : String)
    → is_terminal state ≡ true
    → (state ≡ "Completed")
      ⊎ (state ≡ "Cancelled")
      ⊎ (state ≡ "Interrupted")
      ⊎ (state ≡ "Short Turned")
unfolding is_terminal
terminal_cases state h = ground (
  arith,
  eq_iff state "Completed",
  eq_iff state "Cancelled",
  eq_iff state "Interrupted",
  eq_iff state "Short Turned",
)

module _ {F : Type 0} ⦃fl : Float F⦄ (b : BoundRun) (state : String) (now : ℕ) (v : Vehicle F) where
  act_on-terminal : is_terminal state ≡ true → act_on {F = F} b state now ≡ release b now
  unfolding act_on is_terminal
  act_on-terminal h = elim (terminal_cases state h) [
    | inl e ↦ rw e refl
    | inr (inl e) ↦ rw e refl
    | inr (inr (inl e)) ↦ rw e refl
    | inr (inr (inr e)) ↦ rw e refl
  ]

  -- The vehicle once its run is over: unbound, silent, parked at the start, with no lifecycle
  -- state.
  abbrev pub released : Vehicle F
  released = record v {
    bound_run_id = none;
    bound_trip_id = none;
    bound_shape_id = none;
    terminal_stop_id = none;
    lifecycle_state = none;
    progress_m = lit 0;
    transmitting = false;
    moving = false;
    last_state_change_at = some now;
  }

  -- While it still transmits the vehicle is still bound as before.
  pub record IsReleasing (u : Vehicle F) : Type 0 where
    pub bound : u.transmitting ≡ true → u.bound_run_id ≡ v.bound_run_id

  abbrev set_state : Vehicle F → Vehicle F
  set_state u = record u { lifecycle_state = some state; last_state_change_at = some now }

  abbrev hush : Vehicle F → Vehicle F
  hush u = record u { transmitting = false; last_state_change_at = some now }

  abbrev unbind : Vehicle F → Vehicle F
  unbind u = record u {
    bound_run_id = none;
    bound_trip_id = none;
    bound_shape_id = none;
    terminal_stop_id = none;
    lifecycle_state = none;
    progress_m = lit 0;
    transmitting = false;
    moving = false;
    last_state_change_at = some now;
  }

  -- When a run ends (Completed, Cancelled, Interrupted or Short Turned) its known vehicle is
  -- unbound, silent, parked at the start of its shape and without a lifecycle state, no other
  -- vehicle changes, and no callback finds the vehicle transmitting after it has been unbound.
  pub apply_state-terminal :
      (s : FleetState F)
      → is_terminal state ≡ true
      → get s.by_id b.vehicle_id ≡ some v
      → Runs b.vehicle_id IsReleasing (apply_state b state now) released s
  unfolding apply_state set_lifecycle_state
  apply_state-terminal s over known = rw (act_on-terminal over) (
      Runs-bind b.vehicle_id IsReleasing (mutate b.vehicle_id set_state) _ (set_state v) _ s
        (mutate-Runs b.vehicle_id IsReleasing set_state v s known (record { bound = λ _. refl }))
        λ t known'.
          unfold release set_transmitting unbind_run in
          Runs-bind b.vehicle_id IsReleasing (mutate b.vehicle_id hush) _ (hush (set_state v)) _ t
            (mutate-Runs b.vehicle_id IsReleasing hush (set_state v) t known'
              (record { bound = λ h. cc }))
            λ t' known''.
              mutate-Runs b.vehicle_id IsReleasing unbind (hush (set_state v)) t' known''
                (record { bound = λ h. cc }))
