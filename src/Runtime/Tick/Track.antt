-- ===== src/Runtime/Tick/Track.antt =====
-- Where the ticks of simulator_app/runtime.py leave the vehicles: each within its own shape.
use databus_sim.Prelude.{
  ℕ, String, ◌≡◌, refl, ap, ◌∙◌, ◌⊎◌, Bool, Option, some, List, arith, inl, inr, sym, Bool-cases,
}
use databus_sim.Prelude.Int.{ℤ, pos, ltb_ℤ}
use databus_sim.Float.{Float, IsOrdered}
use databus_sim.Effect.{ok, Result-cases}
use databus_sim.Fleet.{Vehicle, FleetState, Kin}
use databus_sim.Fleet.Invariant.{IsSound, IsWellFormed, perform_all, perform_all-IsWellFormed}
use databus_sim.Fleet.Changes.{Change}
use databus_sim.Kinematics.{
  Shape, Stop, Draws, get_shape, init_kin, nearest_stop, interpolate, total_dist_m,
}
use databus_sim.Kinematics.Step.{step_vehicle, advance, cruise, count_down, next_speed, with_kin}
use databus_sim.Kinematics.Motion.{IsSpeed, IsOnTrack, step_vehicle-Moves}
use databus_sim.Kinematics.Payload.{build_vehicle_payloads}
use databus_sim.Runtime.Tick.{Await, Settings, Network, Chance, Loop, remember, sample, tick}
use databus_sim.Runtime.Tick.Keeps.{AllOf, tick-AllOf}

module _ {F : Type 0} where
  -- What only the fleet's mutators write.
  abbrev pub ids :
      Vehicle F
      → String × String × Option String × Option String × Option String × Option String × Option F
  ids v = (
    v.vehicle_id, v.default_shape_id, v.bound_run_id, v.bound_trip_id, v.bound_shape_id,
    v.terminal_stop_id, v.speed_override,
  )

module _ {F : Type 0} ⦃fl : Float F⦄ where
  ids-cruise :
      (shape : Shape F) (stops : List (Stop F)) (r : Draws F) (v : Vehicle F) (k : Kin F)
      → ids (cruise shape stops r v k).1 ≡ ids v
  unfolding cruise
  ids-cruise shape stops r v k = elim (Result-cases (interpolate shape v.progress_m)) [
    | inl (at, found) ↦ elim (Result-cases (nearest_stop stops at.0 at.1)) [
      | inl (nearest, measured) ↦ rw (found, measured, cruise)
      | inr (e, failed) ↦ rw (found, failed, cruise)
    ]
    | inr (e, failed) ↦ rw (failed, cruise)
  ]

  ids-advance :
      (dt : F) (shape : Shape F) (stops : List (Stop F)) (idle_s : ℤ) (r : Draws F) (v : Vehicle F)
      (k : Kin F)
      → ids (advance dt shape stops idle_s r v k).1 ≡ ids v
  unfolding advance
  ids-advance dt shape stops idle_s r v k =
      let k' : Kin F = record k { speed = next_speed v k r } in
      let v' : Vehicle F = record (with_kin v k') {
        progress_m = fl.add v.progress_m (fl.mul (next_speed v k r) dt);
      } in
      elim (Result-cases (total_dist_m shape)) [
        | inr (e, failed) ↦ rw (failed, advance)
        | inl (total, known) ↦ elim (Bool-cases (fl.le total v'.progress_m)) [
          | inl arrived ↦ rw (known, arrived, advance)
          | inr under ↦ rw (known, under, advance) (ids-cruise shape stops r v' k')
        ]
      ]

  ids-count_down : (dt : F) (v : Vehicle F) (k : Kin F) → ids (count_down dt v k) ≡ ids v
  unfolding count_down
  ids-count_down dt v k = ground arith

  ids-step_vehicle :
      (dt : F) (shape : Shape F) (stops : List (Stop F)) (idle_s : ℤ) (r : Draws F) (v : Vehicle F)
      → ids (step_vehicle dt shape stops idle_s r v).1 ≡ ids v
  unfolding step_vehicle
  ids-step_vehicle dt shape stops idle_s r v =
      elim (Bool-cases (ltb_ℤ (pos 0) (init_kin r v.kin).dwell_remaining)) [
        | inl dwelling ↦ rw (dwelling, step_vehicle)
        | inr free ↦ elim (Bool-cases v.moving) [
          | inr still ↦
              let e : step_vehicle dt shape stops idle_s r v
                  ≡ (ok tt, count_down dt v (init_kin r v.kin)) =
                ground arith in
              ap (λ x. ids x.1) e ∙ ids-count_down dt v (init_kin r v.kin)
          | inl moving ↦
              let e : step_vehicle dt shape stops idle_s r v
                  ≡ advance dt shape stops idle_s r v (init_kin r v.kin) =
                ground arith in
              ap (λ x. ids x.1) e ∙ ids-advance dt shape stops idle_s r v (init_kin r v.kin)
        ]
      ]

  ids-build_vehicle_payloads :
      (shape : Shape F) (r : Draws F) (now : ℤ) (v : Vehicle F)
      → (ids (build_vehicle_payloads shape r now v).1 ≡ ids v)
        × ((build_vehicle_payloads shape r now v).1.progress_m ≡ v.progress_m)
  unfolding build_vehicle_payloads
  ids-build_vehicle_payloads shape r now v = elim (Bool-cases v.transmitting) [
    | inr silent ↦ rw (silent, build_vehicle_payloads) (refl, refl)
    | inl sending ↦ elim (Result-cases (interpolate shape v.progress_m)) [
      | inr (e, failed) ↦ rw (sending, failed, build_vehicle_payloads) (refl, refl)
      | inl (at, found) ↦ rw (sending, found, build_vehicle_payloads) (refl, refl)
    ]
  ]

  -- What a sample does: nothing, where there is no shape; else a step, and payloads that leave
  -- the ids and the progress alone.
  pub sample-cases :
      (c : Settings F) (net : Network F) (chance : Chance F) (v : Vehicle F)
      → ((sample c net chance v).1 ≡ v)
        ⊎ ((shape : Shape F) × (get_shape v net.shapes ≡ ok shape)
            × (ids (sample c net chance v).1 ≡ ids v)
            × ((sample c net chance v).1.progress_m
                ≡ (step_vehicle c.interval shape net.stops c.idle_s chance.draws v).1.progress_m))
  unfolding sample
  sample-cases c net chance v = elim (Result-cases (get_shape v net.shapes)) [
    | inr (e, unknown) ↦ inl (rw (unknown, sample))
    | inl (shape, known) ↦
        let v' = (step_vehicle c.interval shape net.stops c.idle_s chance.draws v).1 in
        let step = ids-step_vehicle c.interval shape net.stops c.idle_s chance.draws v in
        let build = ids-build_vehicle_payloads shape chance.draws chance.now v' in
        elim (Result-cases (step_vehicle c.interval shape net.stops c.idle_s chance.draws v).0) [
          | inl (a, returned) ↦ inr (
            shape,
            known,
            rw (known, returned, sample) (build.0 ∙ step),
            rw (known, returned, sample) build.1,
          )
          | inr (e, failed) ↦
              inr (shape, known, rw (known, failed, sample) step, rw (known, failed, sample))
        ]
  ]

  -- A vehicle whose shape is known and has a length, within the ends of the shape, and with no
  -- override of its speed but a finite one that is not negative.
  pub record IsOnRoute (net : Network F) (v : Vehicle F) : Type 0 where
    pub shape : Shape F
    pub known : get_shape v net.shapes ≡ ok shape
    pub total : F
    pub measured : total_dist_m shape ≡ ok total
    pub track : IsOnTrack total v
    pub override : (x : F) → v.speed_override ≡ some x → IsSpeed x

  pub IsOnRoute-same :
      (net : Network F) (v v' : Vehicle F)
      → ids v' ≡ ids v
      → (h : IsOnRoute net v) → IsOnTrack h.total v'
      → IsOnRoute net v'
  unfolding get_shape
  IsOnRoute-same net v v' same h track = record {
    shape = h.shape;
    known = rw (ap (λ x. x.1) same, ap (λ x. x.4) same) h.known;
    total = h.total;
    measured = h.measured;
    track = track;
    override = λ x set. h.override x (sym (ap (λ y. y.6) same) ∙ set);
  }

  module _ (laws : IsOrdered F) (c : Settings F) (net : Network F) where
    pub sample-IsOnRoute :
        (chance : Chance F) (v : Vehicle F)
        → IsSpeed c.interval
        → IsOnRoute net v
        → IsOnRoute net (sample c net chance v).1
    sample-IsOnRoute chance v time h = elim (sample-cases c net chance v) [
      | inl same ↦ rw same h
      | inr (shape, known, same, progress) ↦
          let e : shape ≡ h.shape = let k = h.known in cc in
          let measured : total_dist_m shape ≡ ok h.total = rw e h.measured in
          let moved =
            step_vehicle-Moves laws c.interval shape net.stops c.idle_s chance.draws v h.total
              measured time h.override h.track in
          IsOnRoute-same net v _ same h (record {
            started = rw progress moved.on_track.started;
            within = rw progress moved.on_track.within;
          })
    ]

    -- Given the float laws and a tick length that is finite and not negative: when each vehicle
    -- has a known shape with a length, stands within it, and has no speed override but finite
    -- ones that are not negative, then so it is after a tick, whether that returns or raises, if
    -- the other tasks keep it so.
    pub tick-IsOnRoute :
        (mqtt : Bool) (chance : String → Chance F)
        (others : Await → String → FleetState F → FleetState F)
        → IsSpeed c.interval
        → ((wait : Await) (vid : String) (s : FleetState F)
            → AllOf (λ k. IsOnRoute net) s.by_id
            → AllOf (λ k. IsOnRoute net) (others wait vid s).by_id)
        → (now : ℕ) (l : Loop F) → AllOf (λ k. IsOnRoute net) l.air.fleet.by_id
        → AllOf (λ k. IsOnRoute net) (tick c (some net) mqtt chance others now l).1.air.fleet.by_id
    unfolding remember
    tick-IsOnRoute mqtt chance others time keep now l all =
        tick-AllOf c net mqtt chance others (λ k. IsOnRoute net)
          (λ k v h. sample-IsOnRoute (chance k) v time h)
          (λ k v prog h.
            IsOnRoute-same net v (remember prog v) refl h
              (record { started = h.track.started; within = h.track.within }))
          keep now l all

  IsSound-same : (k : String) (v v' : Vehicle F) → ids v' ≡ ids v → IsSound k v → IsSound k v'
  IsSound-same k v v' same h = record {
    keyed = ap (λ x. x.0) same ∙ h.keyed;
    trip = rw (ap (λ x. x.2) same, ap (λ x. x.3) same) h.trip;
    shape = rw (ap (λ x. x.2) same, ap (λ x. x.4) same) h.shape;
    terminal = rw (ap (λ x. x.2) same, ap (λ x. x.5) same) h.terminal;
  }

  sample-IsSound :
      (c : Settings F) (net : Network F) (chance : Chance F) (k : String) (v : Vehicle F)
      → IsSound k v
      → IsSound k (sample c net chance v).1
  sample-IsSound c net chance k v h = elim (sample-cases c net chance v) [
    | inl same ↦ rw same h
    | inr (shape, known, same, progress) ↦ IsSound-same k v _ same h
  ]

  -- A tick, whether it returns or raises, keeps each vehicle under its own id and its run, trip
  -- and shape ids all set or all unset, whatever mutators other tasks call while it waits.
  pub tick-IsWellFormed :
      (c : Settings F) (net : Network F) (mqtt : Bool) (chance : String → Chance F)
      (calls : Await → String → List (Change F)) (now : ℕ) (l : Loop F)
      → IsWellFormed l.air.fleet
      → IsWellFormed
          (tick c
            (some net)
            mqtt
            chance
            (λ wait vid. perform_all (calls wait vid))
            now
            l).1.air.fleet
  unfolding remember
  tick-IsWellFormed c net mqtt chance calls now l h = record {
    sound =
        tick-AllOf c net mqtt chance (λ wait vid. perform_all (calls wait vid)) IsSound
          (λ k v. sample-IsSound c net (chance k) k v) (λ k v prog. IsSound-same k v _ refl)
          (λ wait vid s all.
            (perform_all-IsWellFormed (calls wait vid) s (record { sound = all })).sound)
          now l h.sound;
  }
