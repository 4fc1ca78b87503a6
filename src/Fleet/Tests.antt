-- ===== src/Fleet/Tests.antt =====
-- The theorems on the fleet at concrete inputs.
use databus_sim.Prelude.{true, some, [], ◌∷◌}
use databus_sim.Float.Sample.{Sample, sample_float}
use databus_sim.Fleet.{FleetState}
use databus_sim.Fleet.Roster.{make_fleet, new_fleet}
use databus_sim.Fleet.Changes.{IsLocal, perform, perform-IsLocal}
use databus_sim.Fleet.Changes
use databus_sim.Fleet.Invariant.{IsWellFormed, perform_all, reachable-IsWellFormed}

abbrev fleet : FleetState Sample
fleet = new_fleet make_fleet

perform-IsLocal_example :
    IsLocal "unit-02" fleet (perform (Changes.transmitting "unit-02" true 7) fleet)
perform-IsLocal_example = perform-IsLocal (Changes.transmitting "unit-02" true 7) fleet

reachable-IsWellFormed_example : IsWellFormed {F = Sample} (
    perform_all
      (Changes.bind "unit-01" "run-1" "trip-1" "hacia_artes" (some "artes") 7
        ∷ Changes.unbind "unit-01" 8
        ∷ [])
      fleet)
reachable-IsWellFormed_example = reachable-IsWellFormed (
    Changes.bind "unit-01" "run-1" "trip-1" "hacia_artes" (some "artes") 7
    ∷ Changes.unbind "unit-01" 8
    ∷ [])
