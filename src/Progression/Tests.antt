-- ===== src/Progression/Tests.antt =====
-- The theorems on the stop status at concrete inputs: a shape with two stops.
use databus_sim.Prelude.{ℕ, ◌≡◌, refl, some, none, List, [], ◌∷◌, map, arith, ◌⊎◌, inl, inr}
use databus_sim.Prelude.Int.{ℤ, pos, ◌≤ℤ◌}
use databus_sim.Float.Sample.{Sample, sample_float, Sample-IsOrdered}
use databus_sim.Fleet.{Progression, in_transit_to}
use databus_sim.Progression.{
  ShapeStop, compute_stop_status, pick_upcoming_stop, first_ahead, distance_to,
}
use databus_sim.Kinematics.{last_of, haversine_m}
use databus_sim.Progression.Floor.{compute_stop_status_floor}
use databus_sim.Progression.Trip.{
  Observation, IsMeasurable, report, statuses, upcoming, statuses_trip,
}

abbrev first : ShapeStop Sample
first = record {
  stop_id = "a";
  name = "A";
  lat = some 0;
  lon = some 0;
  stop_sequence = pos 1;
  progress_m = some 0;
}

abbrev second : ShapeStop Sample
second = record {
  stop_id = "b";
  name = "B";
  lat = some 9;
  lon = some 0;
  stop_sequence = pos 2;
  progress_m = some 900;
}

abbrev stops : List (ShapeStop Sample)
stops = first ∷ second ∷ []

abbrev at_second : Progression
at_second = record {
  current_status = in_transit_to;
  current_stop_sequence = some (pos 2);
  stop_id = some "b";
}

compute_stop_status_floor_example :
    (q : ℤ) × ((compute_stop_status
        (some 0)
        (some 0)
        (some 0)
        stops
        none
        (some at_second)).current_stop_sequence
      ≡ some q)
    × (pos 2 ≤ℤ q)
compute_stop_status_floor_example =
    compute_stop_status_floor (some 0) (some 0) (some 0) stops none at_second (pos 2) refl

abbrev seen : ℕ → Observation Sample
seen x = record { progress_m = some x; lat = some x; lon = some 0; speed = some (some 5) }

first_or_second :
    (x : ℕ) (a : ShapeStop Sample)
    → pick_upcoming_stop stops (some x) ≡ some a
    → (a ≡ first) ⊎ (a ≡ second)
unfolding pick_upcoming_stop first_ahead last_of
first_or_second x a found = ground arith

seen-IsMeasurable : (x : ℕ) → IsMeasurable stops (seen x)
unfolding distance_to haversine_m
seen-IsMeasurable x a found = elim (first_or_second x a found) [
  | inl e ↦ rw e (_, refl)
  | inr e ↦ rw e (_, refl)
]

statuses_trip_example :
    map report (statuses stops (seen 0 ∷ seen 500 ∷ seen 950 ∷ []) none)
    ≡ map (upcoming stops) (seen 0 ∷ seen 500 ∷ seen 950 ∷ [])
statuses_trip_example =
    statuses_trip Sample-IsOrdered first (second ∷ []) (omega arith, tt) (seen 0)
      (seen 500 ∷ seen 950 ∷ []) (refl, (refl, tt))
      (seen-IsMeasurable 0, (seen-IsMeasurable 500, (seen-IsMeasurable 950, tt)))
