-- ===== src/Progression/Floor.antt =====
-- The monotonic guard of simulator_app/domain/progression/compute.py.
use databus_sim.Prelude.{◌≡◌, String, Option, some, List, arith, inl, inr, Option-cases}
use databus_sim.Prelude.Int.{ℤ, ◌≤ℤ◌}
use databus_sim.Float.{Float}
use databus_sim.Effect.{Result-cases}
use databus_sim.Fleet.{Progression}
use databus_sim.Progression.{
  ShapeStop, compute_stop_status, fallback, guard_sequence, pick_upcoming_stop, compute_core,
  status_of_candidate, distance_to,
}

guard_sequence-le :
    (prev : Progression) (p seq : ℤ) (id : String)
    → prev.current_stop_sequence ≡ some p
    → p ≤ℤ (guard_sequence (some prev) seq id).0
unfolding guard_sequence
guard_sequence-le prev p seq id e = ground arith

module _ {F : Type 0} ⦃fl : Float F⦄ (progress_m lat lon : F) (stops : List (ShapeStop F))
    (speed : Option F) where
  -- Once a stop sequence has been reported, every later status reports one that is at least as
  -- high, also where there are no stops, the distance raises or the vehicle has been put back.
  pub compute_stop_status_floor :
      (prev : Progression) (p : ℤ)
      → prev.current_stop_sequence ≡ some p
      → (q : ℤ) × ((compute_stop_status progress_m lat lon stops speed
            (some prev)).current_stop_sequence
          ≡ some q)
        × (p ≤ℤ q)
  unfolding compute_stop_status compute_core status_of_candidate fallback
  compute_stop_status_floor prev p e = elim (Option-cases (pick_upcoming_stop stops progress_m)) [
    | inl missing ↦ (p, ground arith, omega arith)
    | inr (stop, found) ↦ elim (Result-cases (distance_to lat lon stop)) [
      | inl (dist_m, measured) ↦ (
        (guard_sequence (some prev) stop.stop_sequence stop.stop_id).0,
        rw (found, measured, compute_stop_status),
        guard_sequence-le prev p _ _ e,
      )
      | inr (x, raised) ↦ (p, rw (found, raised, compute_stop_status) e, omega arith)
    ]
  ]
