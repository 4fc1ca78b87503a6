-- ===== src/Kinematics/Tests.antt =====
-- The theorems on the kinematics at concrete inputs: a shape of three points and one stop.
use databus_sim.Prelude.{
  ℕ, ◌≡◌, refl, true, false, none, some, List, [], ◌∷◌, map, get_elem?, arith, zero, suc,
}
use databus_sim.Prelude.Int.{pos, ltb_ℤ}
use databus_sim.Float.{fmax, feq, lit}
use databus_sim.Float.Sample.{Sample, sample_float, Sample-IsOrdered}
use databus_sim.Effect.{ok}
use databus_sim.Fleet.{Vehicle, Kin, malformed}
use databus_sim.Fleet.Roster.{new_vehicle}
use databus_sim.Kinematics.{
  Shape, Stop, Point, Draws, total_dist_m, interpolate, init_kin, last_of, bisect, on_segment,
  bearing_deg,
}
use databus_sim.Kinematics.Step.{step_vehicle, with_kin, count_down}
use databus_sim.Kinematics.Placement.{IsRoute, Located, interpolate-Located}
use databus_sim.Kinematics.Motion.{Moves, step_vehicle-Moves}
use databus_sim.Kinematics.Rules.{InRange, step_vehicle_silences, step_vehicle-InRange}
use databus_sim.Kinematics.Countdown.{ticks, ticks_dwell, ticks_silence, drained}
use databus_sim.Kinematics.Faults.{builds, spoiled, without_fault, builds_fault}

abbrev point : Sample → Sample → Point Sample
point lat km = record { lat = lat; lon = some 0; dist_km = km }

abbrev loop : Shape Sample
loop = record {
  shape_id = "loop";
  points = point (some 0) (some 0) ∷ point (some 10) (some 1) ∷ point (some 20) (some 2) ∷ [];
}

abbrev stops : List (Stop Sample)
stops = record { stop_id = "a"; name = "A"; lat = some 0; lon = some 0 } ∷ []

abbrev draws : Draws Sample
draws = record {
  first_speed = some 5;
  first_occupancy = pos 40;
  speed_change = some 1;
  occupancy_change = pos 2;
}

abbrev scratch : Kin Sample
scratch = record {
  speed = some 5;
  occupancy_pct = pos 40;
  dwell_remaining = pos 0;
  stop_sequence = 1;
  last_stop_id = "";
  post_run_idle_remaining_s = some 2;
  fault = none;
  fault_ticks = pos 0;
  progression_prev = none;
}

abbrev parked : Vehicle Sample
parked = with_kin (record (new_vehicle "unit-01" "bUCR_L1" "loop") { transmitting = true }) scratch

abbrev rolling : Vehicle Sample
rolling = record parked { moving = true; progress_m = some 1999 }

dist_km-at : (i : ℕ) (a : Point Sample) → get_elem? loop.points i ≡ some a → a.dist_km ≡ some i
dist_km-at zero a h = ground arith
dist_km-at (suc zero) a h = ground arith
dist_km-at (suc (suc zero)) a h = ground arith
dist_km-at (suc (suc (suc i))) a h = cc

loop-IsRoute : IsRoute loop
loop-IsRoute = record {
  sorted = λ i j a b ha hb h. ground (arith, dist_km-at i a ha, dist_km-at j b hb);
  long = omega arith;
  origin = λ p found. ground arith;
}

loop-total : total_dist_m loop ≡ ok (some 2000)
unfolding total_dist_m
loop-total = refl

interpolate-Located_example : Located loop (some 1999)
interpolate-Located_example = interpolate-Located Sample-IsOrdered loop (some 1999) loop-IsRoute

step_vehicle-Moves_example :
    Moves (some 2000) rolling (step_vehicle (some 1) loop stops (pos 2) draws rolling).1
step_vehicle-Moves_example =
    step_vehicle-Moves Sample-IsOrdered (some 1) loop stops (pos 2) draws rolling (some 2000)
      loop-total (record { forward = refl; finite = refl }) (λ x h. cc)
      (record { started = refl; within = refl })

parked-silences : (step_vehicle (some 2) loop stops (pos 2) draws parked).1.transmitting ≡ false
unfolding step_vehicle count_down init_kin
parked-silences = refl

step_vehicle_silences_example :
    (parked.moving ≡ false)
    × (ltb_ℤ (pos 0) (init_kin draws parked.kin).dwell_remaining ≡ false)
    × (sample_float.lt (lit 0) (init_kin draws parked.kin).post_run_idle_remaining_s ≡ true)
    × (feq
          (fmax
            (lit 0)
            (sample_float.sub (init_kin draws parked.kin).post_run_idle_remaining_s (some 2)))
          (lit 0)
        ≡ true)
step_vehicle_silences_example =
    step_vehicle_silences (some 2) loop stops (pos 2) draws parked (some 2000) loop-total refl
      parked-silences

abbrev waiting : Kin Sample
waiting = record scratch { post_run_idle_remaining_s = some 1 }

parked-waits : (step_vehicle (some 1) loop stops (pos 2) draws parked).1.kin ≡ some waiting
unfolding step_vehicle count_down init_kin
parked-waits = refl

step_vehicle-InRange_example : InRange waiting
step_vehicle-InRange_example =
    step_vehicle-InRange Sample-IsOrdered (some 1) loop stops (pos 2) draws parked
      (record { slow = refl; fast = refl; low = omega arith; high = omega arith }) refl
      (λ k e. ground arith) waiting parked-waits

abbrev dwelling : Kin Sample
dwelling = record scratch { dwell_remaining = pos 2 }

ticks_dwell_example :
    ticks (some 1) loop stops (pos 2) (draws ∷ draws ∷ []) (with_kin rolling dwelling)
    ≡ with_kin rolling scratch
ticks_dwell_example =
    ticks_dwell (some 1) loop stops (pos 2) (draws ∷ draws ∷ []) (with_kin rolling dwelling)
      dwelling refl refl

used_up : feq (drained (some 1) loop stops (pos 2) (draws ∷ draws ∷ []) (some 2)) (lit 0) ≡ true
unfolding drained
used_up = refl

ticks_silence_example :
    (ticks (some 1) loop stops (pos 2) (draws ∷ draws ∷ []) parked).transmitting ≡ false
ticks_silence_example =
    ticks_silence (some 1) loop stops (pos 2) Sample-IsOrdered (draws ∷ draws ∷ []) parked scratch
      refl refl refl refl used_up

abbrev faulty : Kin Sample
faulty = record scratch { fault = some malformed; fault_ticks = pos 2 }

abbrev place : Sample × Sample × Sample
place = (some 0, some 0, some 360)

parked-placed : interpolate loop (some 0) ≡ ok place
unfolding interpolate last_of bisect on_segment bearing_deg
parked-placed = refl

builds_fault_example :
    builds loop ((draws, pos 7) ∷ (draws, pos 8) ∷ []) (with_kin parked faulty) ≡ (
      map
          (spoiled loop malformed (with_kin parked faulty) faulty place)
          ((draws, pos 7) ∷ (draws, pos 8) ∷ []),
      with_kin (with_kin parked faulty) (without_fault faulty),
    )
builds_fault_example =
    builds_fault loop ((draws, pos 8) ∷ []) (draws, pos 7) (with_kin parked faulty) faulty malformed
      place refl refl refl refl parked-placed
