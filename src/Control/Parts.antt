-- ===== src/Control/Parts.antt =====
-- simulator_app/domain/control.py. An invariant of the fleet under control requests: it is enough
-- that the calls which the handlers can make keep it.
use databus_sim.Prelude.{
  String, ◌≡◌, Bool, true, false, Option, none, some, arith, inl, inr, Option-cases, if◌then◌else◌,
  str_eq,
}
use databus_sim.Prelude.Int.{ℤ, pos, ◌≤ℤ◌, ltb_ℤ}
use databus_sim.Float.{Float}
use databus_sim.Dict.{get}
use databus_sim.Effect.{Exec, Result-cases, ok, err, pure, raise, Result, try_except}
use databus_sim.Effect.Keeps.{Keeps, Keeps-pure, Keeps-then, Keeps-if}
use databus_sim.Fleet.{
  FleetState, FaultKind, notify_all, set_transmitting, set_moving, set_speed_override,
  set_occupancy_override, set_dwell_override,
}
use databus_sim.Control.{
  Json, item, count_item, text, null, nested, boolean, int, number, as_int, revise, occupancy_value,
  requested_occupancy, when_bool, when_text, set_speed_value, inject_requested, requested_ticks,
  float_of_int, terminal_progress, stop_progress, go_to, put_at, inject, handle_transmit,
  handle_moving, handle_speed, handle_occupancy, handle_dwell, handle_jump_to_terminal,
  set_progress_to, handle_set_progress, handle_inject_fault,
}
use databus_sim.Control.Dispatch.{Request, handler, apply_control}

-- An occupancy that a request may set.
abbrev pub IsOccupancy : Option ℤ → Type 0
IsOccupancy value = (z : ℤ) → value ≡ some z → (pos 0 ≤ℤ z) × (z ≤ℤ pos 100)

occupancy_value-IsOccupancy :
    (x : Option ℤ) (value : Option ℤ) → occupancy_value x ≡ some value → IsOccupancy value
unfolding occupancy_value
occupancy_value-IsOccupancy none value e z h = cc
occupancy_value-IsOccupancy (some x) value e z h = ground arith

requested_occupancy-IsOccupancy :
    {F : Type 0} (x : Json F) (value : Option ℤ)
    → requested_occupancy x ≡ some value
    → IsOccupancy value
unfolding requested_occupancy
requested_occupancy-IsOccupancy null value e = λ z h. cc
requested_occupancy-IsOccupancy (int x) value e = occupancy_value-IsOccupancy _ value e
requested_occupancy-IsOccupancy (boolean x) value e = occupancy_value-IsOccupancy _ value e
requested_occupancy-IsOccupancy nested value e = occupancy_value-IsOccupancy none value e
requested_occupancy-IsOccupancy (number x) value e = occupancy_value-IsOccupancy none value e
requested_occupancy-IsOccupancy (text x) value e = occupancy_value-IsOccupancy none value e

requested_ticks-le : (x : Option ℤ) (ticks : ℤ) → requested_ticks x ≡ some ticks → pos 0 ≤ℤ ticks
unfolding requested_ticks
requested_ticks-le none ticks e = cc
requested_ticks-le (some x) ticks e = ground arith

module _ {F : Type 0} ⦃fl : Float F⦄ where
  -- The calls that the handlers can make for a request keep `P`.
  pub record Parts (P : FleetState F → Type 0) (q : Request F) : Type 0 where
    pub transmit : (on : Bool) → Keeps P (set_transmitting q.vehicle_id on q.now)
    pub move : (on : Bool) → Keeps P (set_moving q.vehicle_id on q.now)
    pub speed : (value : Option F) → Keeps P (set_speed_override q.vehicle_id value)
    pub occupancy :
        (value : Option ℤ) → IsOccupancy value → Keeps P (set_occupancy_override q.vehicle_id value)
    pub dwell :
        (stop_id : Option String) (ticks : ℤ)
        → pos 0 ≤ℤ ticks
        → Keeps P (set_dwell_override q.vehicle_id stop_id ticks)
    pub go : (x : F) → Keeps P (revise q.vehicle_id (go_to x))
    pub place : (x : F) → Keeps P (revise q.vehicle_id (put_at x))
    pub fault :
        (kind : FaultKind) (ticks : ℤ) → Keeps P (revise q.vehicle_id (inject q.draws kind ticks))
    pub call : Keeps P notify_all

  module _ (P : FleetState F → Type 0) (q : Request F) (parts : Parts P q) where
    Keeps-raise : (e : _) → Keeps P (raise {A = Unit {0}} e)
    Keeps-raise e = record { at = λ s h. h }

    when_bool-Keeps :
        (act : Bool → Exec (FleetState F) (Unit {0})) (x : Json F)
        → ((b : Bool) → Keeps P (act b))
        → Keeps P (when_bool act x)
    unfolding when_bool
    when_bool-Keeps act (boolean b) k = k b
    when_bool-Keeps act null k = Keeps-pure tt
    when_bool-Keeps act nested k = Keeps-pure tt
    when_bool-Keeps act (int z) k = Keeps-pure tt
    when_bool-Keeps act (number x) k = Keeps-pure tt
    when_bool-Keeps act (text s) k = Keeps-pure tt

    when_text-Keeps :
        (act : String → Exec (FleetState F) (Unit {0})) (x : Json F)
        → ((s : String) → Keeps P (act s))
        → Keeps P (when_text act x)
    unfolding when_text
    when_text-Keeps act (text s) k = k s
    when_text-Keeps act null k = Keeps-pure tt
    when_text-Keeps act nested k = Keeps-pure tt
    when_text-Keeps act (int z) k = Keeps-pure tt
    when_text-Keeps act (number x) k = Keeps-pure tt
    when_text-Keeps act (boolean b) k = Keeps-pure tt

    set_speed_value-Keeps : (x : Json F) → Keeps P (set_speed_value q.vehicle_id x)
    unfolding set_speed_value
    set_speed_value-Keeps null = parts.speed none
    set_speed_value-Keeps (number x) = parts.speed (some x)
    set_speed_value-Keeps (int z) = elim (Result-cases (float_of_int {F = F} z)) [
      | inl (x, e) ↦ rw (e, set_speed_value) (parts.speed (some x))
      | inr (x, e) ↦ rw (e, set_speed_value) (Keeps-raise x)
    ]
    set_speed_value-Keeps (boolean b) = parts.speed _
    set_speed_value-Keeps nested = Keeps-pure tt
    set_speed_value-Keeps (text s) = Keeps-pure tt

    occupancy-Keeps : Keeps P (handle_occupancy q.vehicle_id q.payload)
    unfolding handle_occupancy
    occupancy-Keeps = elim (Option-cases (requested_occupancy (item q.payload "value"))) [
      | inl e ↦ rw (e, handle_occupancy) (Keeps-pure tt)
      | inr (value, e) ↦
          rw (e, handle_occupancy)
            (parts.occupancy value
              (requested_occupancy-IsOccupancy (item q.payload "value") value e))
    ]

    dwell-Keeps : Keeps P (handle_dwell q.show q.vehicle_id q.payload)
    unfolding handle_dwell
    dwell-Keeps = elim (Option-cases (requested_ticks (as_int (count_item q.payload "ticks")))) [
      | inl e ↦ rw (e, handle_dwell) (Keeps-pure tt)
      | inr (ticks, e) ↦ rw (e, handle_dwell) (parts.dwell _ ticks (requested_ticks-le _ ticks e))
    ]

    jump-Keeps : Keeps P (handle_jump_to_terminal q.files q.vehicle_id)
    unfolding handle_jump_to_terminal
    jump-Keeps = record {
      at = λ s h. elim (Option-cases (get s.by_id q.vehicle_id)) [
        | inl e ↦ rw (e, handle_jump_to_terminal) h
        | inr (v, e) ↦ elim (Result-cases (terminal_progress q.files v)) [
          | inl (x, found) ↦
              rw (e, found, handle_jump_to_terminal)
                ((Keeps-then _ _ (parts.go x) parts.call).at s h)
          | inr (x, failed) ↦ rw (e, failed, handle_jump_to_terminal) h
        ]
      ];
    }

    set_progress_to-Keeps : (id : String) → Keeps P (set_progress_to q.files q.vehicle_id id)
    unfolding set_progress_to
    set_progress_to-Keeps id = record {
      at = λ s h. elim (Option-cases (get s.by_id q.vehicle_id)) [
        | inl e ↦ rw (e, set_progress_to) h
        | inr (v, e) ↦ elim (Result-cases (stop_progress q.files v id)) [
          | inr (x, failed) ↦ rw (e, failed, set_progress_to) h
          | inl (stop, found) ↦ elim (Option-cases stop) [
            | inl missing ↦ rw (e, found, missing, set_progress_to) h
            | inr (x, here) ↦
                rw (e, found, here, set_progress_to)
                  ((Keeps-then _ _ (parts.place x) parts.call).at s h)
          ]
        ]
      ];
    }

    inject_requested-Keeps :
        (kind : Result (Option FaultKind)) (ticks : Option ℤ)
        → Keeps P (inject_requested q.draws q.vehicle_id kind ticks)
    unfolding inject_requested
    inject_requested-Keeps (err e) ticks = Keeps-raise e
    inject_requested-Keeps (ok none) ticks = Keeps-pure tt
    inject_requested-Keeps (ok (some kind)) none = Keeps-pure tt
    inject_requested-Keeps (ok (some kind)) (some ticks) =
        Keeps-if (ltb_ℤ (pos 0) ticks) _ _ (parts.fault kind ticks) (Keeps-pure tt)

    HandlerKeeps : Option (Exec (FleetState F) (Unit {0})) → Type 0
    HandlerKeeps none = Unit
    HandlerKeeps (some m) = Keeps P m

    HandlerKeeps-if :
        (test : Bool) (m n : Option (Exec (FleetState F) (Unit {0})))
        → HandlerKeeps m
        → HandlerKeeps n
        → HandlerKeeps (if test then m else n)
    HandlerKeeps-if true m n km kn = km
    HandlerKeeps-if false m n km kn = kn

    handler-Keeps : HandlerKeeps (handler q)
    unfolding handler HandlerKeeps handle_transmit handle_moving handle_speed handle_set_progress
        handle_inject_fault
    handler-Keeps =
        HandlerKeeps-if (str_eq q.knob "transmit") _ _ (when_bool-Keeps _ _ parts.transmit) (
          HandlerKeeps-if (str_eq q.knob "moving") _ _ (when_bool-Keeps _ _ parts.move) (
            HandlerKeeps-if (str_eq q.knob "speed") _ _ (set_speed_value-Keeps _) (
              HandlerKeeps-if (str_eq q.knob "occupancy") _ _ occupancy-Keeps (
                HandlerKeeps-if (str_eq q.knob "dwell") _ _ dwell-Keeps (
                  HandlerKeeps-if (str_eq q.knob "jump_to_terminal") _ _ jump-Keeps (
                    HandlerKeeps-if (str_eq q.knob "set_progress") _ _
                      (when_text-Keeps _ _ set_progress_to-Keeps)
                      (HandlerKeeps-if (str_eq q.knob "inject_fault") _ _
                        (inject_requested-Keeps _ _) tt)))))))

    try_except-Keeps :
        (m : Exec (FleetState F) (Unit {0})) → Keeps P m → Keeps P (try_except m (pure tt))
    try_except-Keeps m k = record {
      at = λ s h. elim (Result-cases (m s).0) [
        | inl (x, e) ↦ rw (e, try_except) (k.at s h)
        | inr (x, e) ↦ rw (e, try_except) (k.at s h)
      ];
    }

    pub apply_control-Keeps : Keeps P (apply_control q)
    unfolding apply_control HandlerKeeps
    apply_control-Keeps = record {
      at = λ s h. elim (Option-cases (get s.by_id q.vehicle_id)) [
        | inl e ↦ rw (e, apply_control) h
        | inr (v, e) ↦ elim (Option-cases (handler q)) [
          | inl unknown ↦ rw (e, unknown, apply_control) h
          | inr (m, known) ↦
              rw (e, known, apply_control)
                ((try_except-Keeps m (let k = handler-Keeps in rw known at k)).at s h)
        ]
      ];
    }
