-- ===== src/Control/Tests.antt =====
-- The theorems on control requests at concrete inputs.
use databus_sim.Prelude.{String, ◌≡◌, ◌≢◌, some, [], ◌∷◌}
use databus_sim.Prelude.Int.{pos}
use databus_sim.Float.Sample.{Sample, sample_float}
use databus_sim.Dict.{get}
use databus_sim.Effect.{ok, err, key_error}
use databus_sim.Fleet.{FleetState}
use databus_sim.Fleet.Roster.{new_fleet, make_fleet}
use databus_sim.Fleet.Invariant.{perform_all}
use databus_sim.Control.{int, null}
use databus_sim.Control.Dispatch.{Request, apply_control}
use databus_sim.Control.Confined.{apply_control_confined}
use databus_sim.Control.Bounds.{IsBounded, apply_controls, apply_controls-IsBounded}

abbrev request : Request Sample
request = record {
  vehicle_id = "unit-02";
  knob = "occupancy";
  payload = ("value", int (pos 55)) ∷ [];
  files = err key_error;
  draws = record {
    first_speed = some 5;
    first_occupancy = pos 40;
    speed_change = some 1;
    occupancy_change = pos 2;
  };
  show = λ x. "";
  now = 7;
}

abbrev clear : Request Sample
clear = record request { payload = ("value", null) ∷ [] }

abbrev fleet : FleetState Sample
fleet = perform_all [] (new_fleet make_fleet)

apply_control_confined_example :
    ((apply_control request fleet).0 ≡ ok tt)
    × ((w : String)
        → "unit-02" ≢ w
        → get (apply_control request fleet).1.by_id w ≡ get fleet.by_id w)
apply_control_confined_example = apply_control_confined request fleet

apply_controls-IsBounded_example :
    IsBounded (apply_controls (request ∷ clear ∷ []) (new_fleet make_fleet))
apply_controls-IsBounded_example = apply_controls-IsBounded (request ∷ clear ∷ [])
