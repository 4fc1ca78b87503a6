-- ===== src/RunBinder/Tests.antt =====
-- The theorems on the run binder at concrete inputs: one vehicle and one tracked run.
use databus_sim.Prelude.{
  ◌+◌, ◌<◌, ◌≤◌, ◌⊎◌, ◌≢◌, String, List, ◌≡◌, refl, true, some, none, [], ◌∷◌,
}
use databus_sim.Float.Sample.{Sample, sample_float}
use databus_sim.Dict.{get}
use databus_sim.Effect.{ok, err, key_error}
use databus_sim.Fleet.{Vehicle, FleetState, mutate, notify, set_lifecycle_state}
use databus_sim.Fleet.Roster.{new_vehicle, new_fleet, make_fleet}
use databus_sim.Fleet.Runs.{Runs}
use databus_sim.Fleet.Invariant.{perform_all}
use databus_sim.RunBinder.{
  BoundRun, Binder, Reply, answered, apply_state, poll_finish, poll_all, poll_start, is_terminal,
  act_on,
}
use databus_sim.RunBinder.Confirm.{IsGuarded, confirmed, apply_state-confirmed}
use databus_sim.RunBinder.Release.{IsReleasing, released, apply_state-terminal}
use databus_sim.RunBinder.Polling.{
  Drops, IsQuiet, Announced, poll_finish_not_found, poll_finish_changed,
}
use databus_sim.RunBinder.Refinement.{
  Report, duties, apply_all, seen_after, report_all, apply_all-report_all,
}
use databus_sim.RunBinder.Unknown.{poll_all_aborts}

abbrev bus : Vehicle Sample
bus = new_vehicle "unit-01" "bUCR_L1" "hacia_artes"

abbrev depot : FleetState Sample
depot = record { by_id = ("unit-01", bus) ∷ []; on_change = 0 ∷ 1 ∷ []; calls = [] }

abbrev run : BoundRun
run = record {
  ident = 0;
  run_id = "run-1";
  vehicle_id = "unit-01";
  trip_id = "trip-1";
  shape_id = "hacia_artes";
  terminal_stop_id = some "artes";
  lifecycle_state = some "Tracking";
  last_polled_at = none;
  tracked_since = 0;
}

abbrev lost_run : BoundRun
lost_run = record run { vehicle_id = "unit-99" }

abbrev office : Binder Sample
office = record {
  fleet = depot;
  bindings = ("run-1", run) ∷ [];
  has_callback = true;
  changes = [];
  untracks = [];
  next_ident = 1;
}

abbrev troubled : Binder Sample
troubled = record office { bindings = ("run-1", lost_run) ∷ [] }

bus-known : get depot.by_id "unit-01" ≡ some bus
unfolding get
bus-known = refl

apply_state-confirmed_example :
    Runs "unit-01"
      (IsGuarded run "Confirmed" 7 bus)
      (apply_state run "Confirmed" 7)
      (confirmed run "Confirmed" 7 bus)
      depot
apply_state-confirmed_example = apply_state-confirmed run "Confirmed" 7 bus depot refl bus-known

completed-is_terminal : is_terminal "Completed" ≡ true
unfolding is_terminal
completed-is_terminal = refl

apply_state-terminal_example :
    Runs "unit-01"
      (IsReleasing run "Completed" 7 bus)
      (apply_state run "Completed" 7)
      (released run "Completed" 7 bus)
      depot
apply_state-terminal_example =
    apply_state-terminal run "Completed" 7 bus depot completed-is_terminal bus-known

abbrev garage : FleetState Sample
garage = perform_all [] (new_fleet make_fleet)

poll_finish_not_found_example :
    ((run.lifecycle_state ≡ none)
      × (7 ≤ run.tracked_since + 30000000)
      × (poll_finish run (answered none) 7 office ≡ (ok tt, office)))
    ⊎ (((run.lifecycle_state ≢ none) ⊎ (run.tracked_since + 30000000 < 7))
        × ((poll_finish run (answered none) 7 office).0 ≡ ok tt)
        × Drops run 7 bus office (poll_finish run (answered none) 7 office).1)
poll_finish_not_found_example = poll_finish_not_found run 7 office bus bus-known

abbrev delayed : FleetState Sample
delayed = (set_lifecycle_state "unit-01" (some "No Signal") 7 depot).1

no_signal-applied : apply_state run "No Signal" 7 office.fleet ≡ (ok tt, delayed)
unfolding apply_state act_on set_lifecycle_state mutate notify get
no_signal-applied = refl

poll_finish_changed_example :
    ((poll_finish run (answered (some "No Signal")) 7 office).0 ≡ ok tt)
    × Announced run 7 office "No Signal" delayed
        (poll_finish run (answered (some "No Signal")) 7 office).1
poll_finish_changed_example =
    poll_finish_changed run 7 office "No Signal" delayed refl no_signal-applied

abbrev completed_reply : String → Reply
completed_reply run_id = answered (some "Completed")

lost_run-started : poll_start "run-1" troubled ≡ some lost_run
unfolding poll_start is_terminal get
lost_run-started = refl

unit-99-unknown : get depot.by_id "unit-99" ≡ none
unfolding get
unit-99-unknown = refl

poll_all_aborts_example :
    ((poll_all ("run-1" ∷ "run-2" ∷ []) completed_reply 7 troubled).0 ≡ err key_error)
    × IsQuiet lost_run 7 troubled (poll_all ("run-1" ∷ "run-2" ∷ []) completed_reply 7 troubled).1
poll_all_aborts_example =
    poll_all_aborts "run-1" ("run-2" ∷ []) completed_reply 7 troubled lost_run "Completed"
      lost_run-started unit-99-unknown refl refl

-- A run is confirmed and over; then a run of a vehicle that is not there is confirmed, and the
-- first run again, which does not count.
abbrev reports : List Report
reports =
    record { binding = run; state = "Confirmed"; now = 1 }
    ∷ record { binding = run; state = "Tracking"; now = 2 }
    ∷ record { binding = run; state = "Completed"; now = 3 }
    ∷ record { binding = lost_run; state = "Confirmed"; now = 4 }
    ∷ record { binding = run; state = "Confirmed"; now = 5 }
    ∷ []

apply_all-report_all_example :
    seen_after (apply_all reports depot) ≡ report_all reports (duties depot)
apply_all-report_all_example = apply_all-report_all reports depot
