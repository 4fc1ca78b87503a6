-- ===== src/Geometry/Tests.antt =====
-- The theorems on the assignment of stops at concrete inputs: three stops and two segments.
use databus_sim.Prelude.{map, ℕ, ◌≡◌, refl, some, List, [], ◌∷◌, length, arith}
use databus_sim.Float.{◌≼◌}
use databus_sim.Float.Sample.{Sample, sample_float, Sample-IsOrdered}
use databus_sim.Effect.{ok}
use databus_sim.Geometry.Assign.{choose_segments, clamp_all, read_off, assign_rows}
use databus_sim.Geometry.Assign.Monotone.{IsMonotone}
use databus_sim.Geometry.Assign.Price.{price}
use databus_sim.Geometry.Assign.Cheapest.{choose_segments-IsCheapest}
use databus_sim.Geometry.Assign.Clamp.{IsRising, IsAhead}
use databus_sim.Geometry.Assign.Placed.{costs_of, assign_rows-IsRising}

abbrev near_end : List Sample
near_end = some 9 ∷ some 0 ∷ []

abbrev near_start : List Sample
near_start = some 0 ∷ some 9 ∷ []

-- Taken alone, the cheapest segments of the three stops are 0, 1 and 0, which go down.
choose_segments-IsCheapest_example :
    (js : List ℕ) × (best : Sample) × (choose_segments near_start (near_end ∷ near_start ∷ [])
      ≡ ok js)
    × (length js ≡ 3)
    × IsMonotone js
    × (price near_start (near_end ∷ near_start ∷ []) js ≡ some best)
    × (best ≼ some 9)
unfolding price
choose_segments-IsCheapest_example =
    choose_segments-IsCheapest Sample-IsOrdered near_start (near_end ∷ near_start ∷ [])
      (0 ∷ 1 ∷ 1 ∷ []) (some 9) (refl, (refl, tt)) (refl, (refl, tt))
      ((refl, (refl, tt)), ((refl, (refl, tt)), tt)) (omega arith) refl

-- The third stop lies behind the second one on the same segment.
abbrev first : List (Sample × Sample)
first = (some 2, some 0) ∷ (some 5, some 9) ∷ []

abbrev second : List (Sample × Sample)
second = (some 3, some 9) ∷ (some 8, some 0) ∷ []

abbrev third : List (Sample × Sample)
third = (some 4, some 9) ∷ (some 7, some 1) ∷ []

assign_rows-IsRising_example :
    (js : List ℕ) × (raw : List Sample) × (choose_segments
        (costs_of first)
        (map costs_of (second ∷ third ∷ []))
      ≡ ok js)
    × (read_off (first ∷ second ∷ third ∷ []) js ≡ ok raw)
    × (assign_rows (first ∷ second ∷ third ∷ []) ≡ ok (clamp_all raw))
    × IsRising (clamp_all raw)
    × IsAhead raw (clamp_all raw)
    × (length raw ≡ 3)
assign_rows-IsRising_example =
    assign_rows-IsRising Sample-IsOrdered 2 first (second ∷ third ∷ []) (omega arith)
      (record { size = refl; numbers = (refl, (refl, tt)); costs = (refl, (refl, tt)) })
      (
        record { size = refl; numbers = (refl, (refl, tt)); costs = (refl, (refl, tt)) },
        (record { size = refl; numbers = (refl, (refl, tt)); costs = (refl, (refl, tt)) }, tt),
      )
