-- ===== src/Kinematics/Motion.antt =====
-- Where `step_vehicle` takes a vehicle along its shape.
use databus_sim.Prelude.{
  ◌≡◌, true, some, List, arith, inl, inr, subst, Option-cases, Bool-cases, if◌then◌else◌,
}
use databus_sim.Prelude.Int.{ℤ, pos, ltb_ℤ}
use databus_sim.Float.{Float, IsOrdered, ◌≼◌, lit, fmax, fmin}
use databus_sim.Float.Order.{lt_of_le_of_lt}
use databus_sim.Effect.{ok}
use databus_sim.Fleet.{Vehicle, Kin}
use databus_sim.Kinematics.{Shape, Stop, Draws, total_dist_m, init_kin, min_speed, max_speed}
use databus_sim.Kinematics.Step.{step_vehicle, next_speed, advance, count_down, cruise, with_kin}

module _ {F : Type 0} ⦃fl : Float F⦄ where
  -- A speed that a vehicle can have: not negative and finite.
  pub record IsSpeed (x : F) : Type 0 where
    pub forward : lit 0 ≼ x
    pub finite : fl.lt x fl.infinity ≡ true

  -- Within the ends of a shape of length `total`.
  pub record IsOnTrack (total : F) (v : Vehicle F) : Type 0 where
    pub started : lit 0 ≼ v.progress_m
    pub within : v.progress_m ≼ total

  -- What a tick may do to the progress of a vehicle on the track.
  pub record Moves (total : F) (v v' : Vehicle F) : Type 0 where
    pub on_track : IsOnTrack total v'
    pub ahead : v.progress_m ≼ v'.progress_m

  module _ (laws : IsOrdered F) where
    -- Without an override the drifting speed stays in its band.
    pub drift_band :
        (x : F)
        → (min_speed ≼ fmax min_speed (fmin max_speed x))
          × (fmax min_speed (fmin max_speed x) ≼ max_speed)
    drift_band x =
        let low = laws.lit_mono 3 3 (omega arith) (omega arith) in
        let high = laws.lit_mono 12 12 (omega arith) (omega arith) in
        let band = laws.lit_mono 3 12 (omega arith) (omega arith) in
        ground (arith, laws.le_of_lt x max_speed, laws.le_of_lt min_speed x)

    Moves-same :
        (total : F) (v v' : Vehicle F)
        → v'.progress_m ≡ v.progress_m
        → IsOnTrack total v
        → Moves total v v'
    Moves-same total v v' same h = record {
      on_track = record { started = rw same h.started; within = rw same h.within };
      ahead = rw same ((laws.refl_of_le _ _ h.within).0);
    }

    next_speed-IsSpeed :
        (v : Vehicle F) (k : Kin F) (r : Draws F)
        → ((x : F) → v.speed_override ≡ some x → IsSpeed x)
        → IsSpeed (next_speed v k r)
    unfolding next_speed
    next_speed-IsSpeed v k r override = elim (Option-cases v.speed_override) [
      | inr (x, e) ↦ rw e (override x e)
      | inl e ↦
          let band = drift_band (fl.add k.speed r.speed_change) in
          rw e (record {
            forward = laws.le_trans _ _ _ (laws.lit_mono 0 3 (omega arith) (omega arith)) band.0;
            finite = lt_of_le_of_lt laws _ _ _ band.1 (laws.lit_finite 12 (omega arith));
          })
    ]

    progress-cruise :
        (shape : Shape F) (stops : List (Stop F)) (r : Draws F) (v : Vehicle F) (k : Kin F)
        → (cruise shape stops r v k).1.progress_m ≡ v.progress_m
    unfolding cruise
    progress-cruise shape stops r v k = ground arith

    progress-count_down :
        (dt : F) (v : Vehicle F) (k : Kin F) → (count_down dt v k).progress_m ≡ v.progress_m
    unfolding count_down
    progress-count_down dt v k = ground arith

    module _ (dt : F) (shape : Shape F) (stops : List (Stop F)) (idle_s : ℤ) (r : Draws F)
        (v : Vehicle F) (total : F) (known : total_dist_m shape ≡ ok total) where
      abbrev next : Kin F → F
      next k = fl.add v.progress_m (fl.mul (next_speed v k r) dt)

      progress-advance :
          (k : Kin F)
          → (advance dt shape stops idle_s r v k).1.progress_m
            ≡ (if fl.le total (next k) then total else next k)
      unfolding advance
      progress-advance k =
          let k' : Kin F = record k { speed = next_speed v k r } in
          ground (
            arith,
            progress-cruise shape stops r (record (with_kin v k') { progress_m = next k }) k',
          )

      module _ (time : IsSpeed dt) (override : (x : F) → v.speed_override ≡ some x → IsSpeed x)
          (h : IsOnTrack total v) where
        advance-Moves : (k : Kin F) → Moves total v (advance dt shape stops idle_s r v k).1
        advance-Moves k =
            let speed = next_speed-IsSpeed v k r override in
            let gain = laws.mul_nonneg _ _ speed.forward time.forward speed.finite time.finite in
            let up = laws.le-add _ _ h.started gain in
            let (number, number') = laws.refl_of_le _ _ up in
            let (_, number_total) = laws.refl_of_le _ _ h.within in
            let e = progress-advance k in
            elim (Bool-cases (fl.le total (next k))) [
              | inl arrived ↦
                  let e' : (advance dt shape stops idle_s r v k).1.progress_m ≡ total =
                    ground arith in
                  record {
                    on_track = record {
                      started = rw e' (laws.le_trans _ _ _ h.started h.within);
                      within = rw e' number_total;
                    };
                    ahead = rw e' h.within;
                  }
              | inr under ↦
                  let e' : (advance dt shape stops idle_s r v k).1.progress_m ≡ next k =
                    ground arith in
                  let below : next k ≼ total = elim (laws.le_total _ _ number_total number') [
                    | inl wrong ↦ cc
                    | inr right ↦ right
                  ] in
                  record {
                    on_track = record {
                      started = rw e' (laws.le_trans _ _ _ h.started up);
                      within = rw e' below;
                    };
                    ahead = rw e' up;
                  }
            ]

        -- Given the float laws, one tick, whether it returns or raises, takes a vehicle on the
        -- track of a shape that has a length no step back and not past the terminal, if the tick
        -- length and the speed override are finite and not negative.
        pub step_vehicle-Moves : Moves total v (step_vehicle dt shape stops idle_s r v).1
        unfolding step_vehicle
        step_vehicle-Moves =
            let k = init_kin r v.kin in
            elim (Bool-cases (ltb_ℤ (pos 0) (init_kin r v.kin).dwell_remaining)) [
              | inl dwelling ↦ Moves-same total v _ (ground arith) h
              | inr free ↦ elim (Bool-cases v.moving) [
                | inl moving ↦
                    subst (Moves total v) (ground arith) (advance-Moves (init_kin r v.kin))
                | inr still ↦
                    Moves-same total v _
                      (ground (arith, progress-count_down dt v (init_kin r v.kin))) h
              ]
            ]
