-- ===== src/Progression.antt =====
-- simulator_app/domain/progression/compute.py: the stop status of a vehicle from its true
-- progress. A stop is a record with all its fields, so only `haversine_m` raises in
-- `_compute_core`: that of domain/progression/geo.py, which computes the same as the one of
-- domain/kinematics.py.
pub mod Floor
pub mod Upcoming
pub mod Trip
mod Tests
use databus_sim.Prelude.{
  ℕ, String, Bool, true, false, ◌&&◌, Option, none, some, List, [], ◌∷◌, if◌then◌else◌,
}
use databus_sim.Prelude.Int.{ℤ, ltb_ℤ}
use databus_sim.Float.{Float, lit}
use databus_sim.Effect.{Result, ok, err, ◌>=>◌}
use databus_sim.Fleet.{Progression, StopStatus, stopped_at, incoming_at, in_transit_to}
use databus_sim.Kinematics.{haversine_m, last_of}
use mathlib.Core.Option

-- An entry of a shape's stop list, as `build_route_geometry` makes it.
pub record ShapeStop (F : Type 0) : Type 0 where
  pub stop_id : String
  pub name : String
  pub lat : F
  pub lon : F
  pub stop_sequence : ℤ
  pub progress_m : F

-- `_fallback`
unfoldable pub fallback : Option Progression → Progression
fallback none = record {
  current_status = in_transit_to;
  current_stop_sequence = none;
  stop_id = none;
}
fallback (some prev) = record prev { current_status = in_transit_to }

-- The monotonic guard: the sequence and stop id to report, never below the previous sequence.
unfoldable pub guard_sequence : Option Progression → ℤ → String → ℤ × String
guard_sequence none seq id = (seq, id)
guard_sequence (some prev) seq id = elim prev.current_stop_sequence [
  | none ↦ (seq, id)
  | some prev_seq ↦
      if ltb_ℤ seq prev_seq then (prev_seq, Option.get_or prev.stop_id id) else (seq, id)
]

module _ {F : Type 0} ⦃fl : Float F⦄ where
  -- `_pick_upcoming_stop`
  unfoldable pub first_ahead : List (ShapeStop F) → F → Option (ShapeStop F)
  first_ahead [] progress_m = none
  first_ahead (stop ∷ stops) progress_m =
      if fl.le progress_m stop.progress_m then some stop else first_ahead stops progress_m

  unfoldable pub pick_upcoming_stop : List (ShapeStop F) → F → Option (ShapeStop F)
  pick_upcoming_stop stops progress_m = elim (first_ahead stops progress_m) [
    | some stop ↦ some stop
    | none ↦ last_of stops
  ]

  -- An unknown speed counts as slow.
  abbrev pub is_slow : Option F → Bool
  is_slow none = true
  is_slow (some speed) = fl.le speed fl.half

  -- The three radius rules.
  unfoldable pub status_at : (dist_m progress_m : F) → ShapeStop F → Option F → StopStatus
  status_at dist_m progress_m candidate speed =
      if fl.le dist_m (lit 20) && is_slow speed
      then stopped_at
      else if fl.le dist_m (lit 50) && fl.lt progress_m candidate.progress_m
      then incoming_at
      else in_transit_to

  unfoldable pub distance_to : (lat lon : F) → ShapeStop F → Result F
  distance_to lat lon stop = haversine_m lat lon stop.lat stop.lon

  -- What `_compute_core` gives behind the distance.
  unfoldable pub status_of_candidate :
      (dist_m progress_m : F) → ShapeStop F → (speed : Option F) → Option Progression → Progression
  status_of_candidate dist_m progress_m candidate speed prev =
      let guarded = guard_sequence prev candidate.stop_sequence candidate.stop_id in
      record {
        current_status = status_at dist_m progress_m candidate speed;
        current_stop_sequence = some guarded.0;
        stop_id = some guarded.1;
      }

  -- `_compute_core`
  unfoldable pub compute_core :
      (progress_m lat lon : F)
      → List (ShapeStop F)
      → (speed : Option F) → Option Progression
      → Result Progression
  compute_core progress_m lat lon stops speed prev = elim (pick_upcoming_stop stops progress_m) [
    | none ↦ ok (fallback prev)
    | some candidate ↦ distance_to lat lon candidate >=> λ dist_m.
        ok (status_of_candidate dist_m progress_m candidate speed prev)
  ]

  -- `compute_stop_status`, with its `except`.
  unfoldable pub compute_stop_status :
      (progress_m lat lon : F)
      → List (ShapeStop F)
      → (speed : Option F) → Option Progression
      → Progression
  compute_stop_status progress_m lat lon stops speed prev =
      elim (compute_core progress_m lat lon stops speed prev) [
        | ok status ↦ status
        | err e ↦ fallback prev
      ]
