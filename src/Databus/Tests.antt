-- ===== src/Databus/Tests.antt =====
-- The theorems on the databus client at concrete inputs.
use databus_sim.Prelude.{◌≡◌, refl, false, some, none, [], ◌∷◌}
use databus_sim.Float.Sample.{Sample, sample_float}
use databus_sim.Dict.{get}
use databus_sim.Effect.{ok}
use databus_sim.Fleet.{Vehicle}
use databus_sim.Fleet.Roster.{new_vehicle}
use databus_sim.RunBinder.{BoundRun, Binder, poll_start, poll_one, is_terminal}
use databus_sim.RunBinder.Polling.{Drops}
use databus_sim.Databus.{http_error, get_run_state, to_reply}
use databus_sim.Databus.Outage.{poll_one_outage}

abbrev bus : Vehicle Sample
bus = new_vehicle "unit-01" "bUCR_L1" "hacia_artes"

abbrev run : BoundRun
run = record {
  ident = 0;
  run_id = "run-1";
  vehicle_id = "unit-01";
  trip_id = "trip-1";
  shape_id = "hacia_artes";
  terminal_stop_id = none;
  lifecycle_state = some "Tracking";
  last_polled_at = none;
  tracked_since = 0;
}

abbrev office : Binder Sample
office = record {
  fleet = record { by_id = ("unit-01", bus) ∷ []; on_change = []; calls = [] };
  bindings = ("run-1", run) ∷ [];
  has_callback = false;
  changes = [];
  untracks = [];
  next_ident = 1;
}

run-started : poll_start "run-1" office ≡ some run
unfolding poll_start is_terminal get
run-started = refl

bus-known : get office.fleet.by_id "unit-01" ≡ some bus
unfolding get
bus-known = refl

poll_one_outage_example :
    ((poll_one "run-1" (to_reply (get_run_state http_error)) 7 office).0 ≡ ok tt)
    × Drops run 7 bus office (poll_one "run-1" (to_reply (get_run_state http_error)) 7 office).1
poll_one_outage_example =
    poll_one_outage http_error run bus "run-1" 7 office "Tracking" tt run-started refl bus-known
