-- ===== src/Progression/Trip.antt =====
-- The statuses of one trip, each computed with the one before, as `tick_loop` chains them.
use databus_sim.Prelude.{
  ◌≡◌, refl, String, Option, none, some, List, [], ◌∷◌, map, arith, All, ap, sym, ◌∙◌,
}
use mathlib.Core.Path.{ap₂}
use databus_sim.Prelude.Int.{ℤ, ◌≤ℤ◌}
use databus_sim.Float.{Float, IsOrdered, ◌≼◌}
use databus_sim.Effect.{ok}
use databus_sim.Fleet.{Progression}
use databus_sim.Progression.{
  ShapeStop, compute_stop_status, compute_core, status_of_candidate, distance_to, guard_sequence,
  pick_upcoming_stop,
}
use databus_sim.Progression.Upcoming.{IsRising, pick_mono, pick-IsUpcoming}

-- What one tick hands to `compute_stop_status`.
pub record Observation (F : Type 0) : Type 0 where
  pub progress_m : F
  pub lat : F
  pub lon : F
  pub speed : Option F

-- The stop that a status reports.
abbrev pub report : Progression → Option ℤ × Option String
report p = (p.current_stop_sequence, p.stop_id)

guard_inert :
    (prev : Progression) (p seq : ℤ) (id : String)
    → prev.current_stop_sequence ≡ some p
    → p ≤ℤ seq
    → guard_sequence (some prev) seq id ≡ (seq, id)
unfolding guard_sequence
guard_inert prev p seq id e h = ground arith

module _ {F : Type 0} ⦃fl : Float F⦄ where
  unfoldable pub statuses :
      List (ShapeStop F) → List (Observation F) → Option Progression → List Progression
  statuses stops [] prev = []
  statuses stops (o ∷ os) prev =
      let now = compute_stop_status o.progress_m o.lat o.lon stops o.speed prev in
      now ∷ statuses stops os (some now)

  -- The candidate stop of each observation, taken alone.
  unfoldable pub upcoming : List (ShapeStop F) → Observation F → Option ℤ × Option String
  upcoming stops o = elim (pick_upcoming_stop stops o.progress_m) [
    | none ↦ (none, none)
    | some a ↦ (some a.stop_sequence, some a.stop_id)
  ]

  -- The vehicle never moves back.
  abbrev pub IsForward : F → List (Observation F) → Type 0
  IsForward x [] = Unit
  IsForward x (o ∷ os) = (x ≼ o.progress_m) × IsForward o.progress_m os

  -- The distance of each candidate stop from where the vehicle is observed can be computed.
  abbrev pub IsMeasurable : List (ShapeStop F) → Observation F → Type 0
  IsMeasurable stops o =
      (a : ShapeStop F)
      → pick_upcoming_stop stops o.progress_m ≡ some a
      → (d : F) × (distance_to o.lat o.lon a ≡ ok d)

  module _ (laws : IsOrdered F) (s : ShapeStop F) (ss : List (ShapeStop F))
      (up : IsRising (s ∷ ss)) where
    one_status :
        (o : Observation F) (prev : Option Progression) (a : ShapeStop F)
        → pick_upcoming_stop (s ∷ ss) o.progress_m ≡ some a
        → guard_sequence prev a.stop_sequence a.stop_id ≡ (a.stop_sequence, a.stop_id)
        → IsMeasurable (s ∷ ss) o
        → report (compute_stop_status o.progress_m o.lat o.lon (s ∷ ss) o.speed prev)
          ≡ (some a.stop_sequence, some a.stop_id)
    unfolding compute_stop_status compute_core status_of_candidate
    one_status o prev a found inert near =
        let (d, measured) = near a found in rw (found, measured, inert, compute_stop_status)

    upcoming-found :
        (o : Observation F) (a : ShapeStop F)
        → pick_upcoming_stop (s ∷ ss) o.progress_m ≡ some a
        → upcoming (s ∷ ss) o ≡ (some a.stop_sequence, some a.stop_id)
    unfolding upcoming
    upcoming-found o a found = ground arith

    statuses_after :
        (os : List (Observation F)) (x : F) (prev : Progression) (a : ShapeStop F)
        → pick_upcoming_stop (s ∷ ss) x ≡ some a
        → prev.current_stop_sequence ≡ some a.stop_sequence
        → IsForward x os
        → All (IsMeasurable (s ∷ ss)) os
        → map report (statuses (s ∷ ss) os (some prev)) ≡ map (upcoming (s ∷ ss)) os
    unfolding statuses
    statuses_after [] x prev a found e h near = refl
    statuses_after (o ∷ os) x prev a found e h near =
        let (b, next, _) = pick-IsUpcoming s ss o.progress_m in
        let inert =
          guard_inert prev a.stop_sequence b.stop_sequence b.stop_id e
            (pick_mono laws (s ∷ ss) x o.progress_m a b up h.0 found next) in
        let now = one_status o (some prev) b next inert near.0 in
        ap₂ (λ r rs. r ∷ rs) (now ∙ sym (upcoming-found o b next))
          (statuses_after os o.progress_m _ b next (ap (λ r. r.0) now) h.1 near.1)

    -- Given the float laws, on one trip along a shape whose stops are numbered in order, a
    -- vehicle that never moves back, and whose distance from each candidate stop can be computed,
    -- is reported, tick by tick, at its own candidate stop: the monotonic guard changes nothing.
    pub statuses_trip :
        (o : Observation F) (os : List (Observation F))
        → IsForward o.progress_m os
        → All (IsMeasurable (s ∷ ss)) (o ∷ os)
        → map report (statuses (s ∷ ss) (o ∷ os) none) ≡ map (upcoming (s ∷ ss)) (o ∷ os)
    unfolding statuses
    statuses_trip o os h near =
        let (a, found, _) = pick-IsUpcoming s ss o.progress_m in
        let now = one_status o none a found (unfold guard_sequence in refl) near.0 in
        ap₂ (λ r rs. r ∷ rs) (now ∙ sym (upcoming-found o a found))
          (statuses_after os o.progress_m _ a found (ap (λ r. r.0) now) h near.1)
