-- ===== src/Control/Confined.antt =====
-- simulator_app/domain/control.py: what `apply_control` raises and what it leaves alone.
use databus_sim.Prelude.{String, ◌≡◌, ◌≢◌, refl, Option, arith, eq_iff, inl, inr, Option-cases}
use databus_sim.Float.{Float}
use databus_sim.Dict.{get, get-put, put-found}
use databus_sim.Effect.{ok}
use databus_sim.Effect.Keeps.{Keeps}
use databus_sim.Fleet.{
  FleetState, Vehicle, mutate, notify_all, notify, set_transmitting, set_moving, set_speed_override,
  set_occupancy_override, set_dwell_override,
}
use databus_sim.Fleet.Changes
use databus_sim.Fleet.Changes.{get-mutate, perform}
use databus_sim.Fleet.Invariant.{IsWellFormed, IsSound, perform-IsWellFormed}
use databus_sim.Control.{revise}
use databus_sim.Control.Dispatch.{Request, apply_control}
use databus_sim.Control.Parts.{apply_control-Keeps}

module _ {F : Type 0} ⦃fl : Float F⦄ (q : Request F) where
  module _ (w : String) (other : q.vehicle_id ≢ w) (found : Option (Vehicle F)) where
    abbrev Same : FleetState F → Type 0
    Same s = get s.by_id w ≡ found

    mutate-Same : (f : Vehicle F → Vehicle F) → Keeps Same (mutate q.vehicle_id f)
    mutate-Same f = record {
      at = λ s h. ground (arith, get-mutate q.vehicle_id f s w, eq_iff q.vehicle_id w);
    }

    revise-Same : (f : Vehicle F → Vehicle F) → Keeps Same (revise q.vehicle_id f)
    unfolding revise
    revise-Same f = record {
      at = λ s h. elim (Option-cases (get s.by_id q.vehicle_id)) [
        | inl missing ↦ ground arith
        | inr (v, known) ↦
            ground (arith, get-put s.by_id q.vehicle_id w (f v), eq_iff q.vehicle_id w)
      ];
    }

    notify_all-Same : Keeps Same notify_all
    unfolding notify_all notify
    notify_all-Same = record { at = λ s h. h }

    apply_control-Same : Keeps Same (apply_control q)
    unfolding set_transmitting set_moving set_speed_override set_occupancy_override
        set_dwell_override
    apply_control-Same = apply_control-Keeps Same q (record {
      transmit = λ on. mutate-Same _;
      move = λ on. mutate-Same _;
      speed = λ value. mutate-Same _;
      occupancy = λ value h. mutate-Same _;
      dwell = λ stop_id ticks h. mutate-Same _;
      go = λ x. revise-Same _;
      place = λ x. revise-Same _;
      fault = λ kind ticks. revise-Same _;
      call = notify_all-Same;
    })

  apply_control_returns : (s : FleetState F) → (apply_control q s).0 ≡ ok tt
  unfolding apply_control
  apply_control_returns s = ground arith

  -- A control request on a vehicle, whatever its knob, its payload and the shapes file, raises
  -- nothing and leaves every other vehicle as it was.
  pub apply_control_confined :
      (s : FleetState F)
      → ((apply_control q s).0 ≡ ok tt)
        × ((w : String) → q.vehicle_id ≢ w → get (apply_control q s).1.by_id w ≡ get s.by_id w)
  apply_control_confined s =
      (apply_control_returns s, λ w other. (apply_control-Same w other (get s.by_id w)).at s refl)

  revise-IsWellFormed :
      (f : Vehicle F → Vehicle F)
      → ((k : String) (v : Vehicle F) → IsSound k v → IsSound k (f v))
      → Keeps IsWellFormed (revise q.vehicle_id f)
  unfolding revise
  revise-IsWellFormed f keeps = record {
    at = λ s h. elim (Option-cases (get s.by_id q.vehicle_id)) [
      | inl missing ↦ rw (missing, revise) h
      | inr (v, known) ↦
          rw (known, revise)
            (record {
              sound = λ k u found. elim (put-found s.by_id q.vehicle_id k (f v) u found) [
                | inl (here, new) ↦
                    rw (new, ← here) (keeps q.vehicle_id v (h.sound q.vehicle_id v known))
                | inr old ↦ h.sound k u old
              ];
            })
    ];
  }

  notify_all-IsWellFormed : Keeps (IsWellFormed {F = F}) notify_all
  unfolding notify_all notify
  notify_all-IsWellFormed = record { at = λ s h. record { sound = h.sound } }

  by_change : (c : Changes.Change F) → Keeps IsWellFormed (perform c)
  by_change c = record { at = perform-IsWellFormed c }

  -- A control request keeps the fleet well formed.
  pub apply_control-IsWellFormed :
      (s : FleetState F) → IsWellFormed s → IsWellFormed (apply_control q s).1
  unfolding perform
  apply_control-IsWellFormed =
      (apply_control-Keeps IsWellFormed q (record {
        transmit = λ on. by_change (Changes.transmitting q.vehicle_id on q.now);
        move = λ on. by_change (Changes.moving q.vehicle_id on q.now);
        speed = λ value. by_change (Changes.speed q.vehicle_id value);
        occupancy = λ value h. by_change (Changes.occupancy q.vehicle_id value);
        dwell = λ stop_id ticks h. by_change (Changes.dwell q.vehicle_id stop_id ticks);
        go = λ x. revise-IsWellFormed _ (λ k v u. ground arith);
        place = λ x. revise-IsWellFormed _ (λ k v u. ground arith);
        fault = λ kind ticks. revise-IsWellFormed _ (λ k v u. ground arith);
        call = notify_all-IsWellFormed;
      })).at
