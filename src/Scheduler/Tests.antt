-- ===== src/Scheduler/Tests.antt =====
-- The theorems on the scheduler at concrete inputs: two entries, of which the second has no
-- vehicle.
use databus_sim.Prelude.{String, refl, ◌≡◌, ◌≢◌, ◌↔◌, true, Option, some, none, List, [], ◌∷◌}
use databus_sim.Prelude.Int.{pos}
use databus_sim.Float.Sample.{Sample, sample_float}
use databus_sim.Effect.{ok}
use databus_sim.Databus.{done}
use databus_sim.RunBinder.{Binder}
use databus_sim.Scheduler.{Entry, Instant, Document, text, validate_runs, requested, status_of}
use databus_sim.Scheduler.Dispatch.{World, Answers, dispatch_entry}
use databus_sim.Scheduler.Life.{Event, loaded, round, react_all, new_world}
use databus_sim.Scheduler.Once.{IsOnce, reachable-IsOnce}
use databus_sim.Scheduler.Links.{IsLinked, reachable-IsLinked}
use databus_sim.Scheduler.Stuck.{no_vehicle, gap, dispatch_entry-stuck}
use databus_sim.Scheduler.Validation.{IsSchedule, validate_runs_iff}

abbrev read : String → Option Instant
read s = some (record { micros = pos 1000000; aware = true })

abbrev first : Entry
first = record {
  id = some "first";
  vehicle_id = some "unit-01";
  operator_id = some "op";
  route_id = some "L1";
  trip_id = some "trip";
  shape_id = some "hacia_artes";
  direction_id = some (pos 0);
  schedule_relationship = none;
  start_time = some (text "2026-01-01T08:00:00+00:00");
  auto_confirm = true;
  auto_start_motion_after_s = some 3;
}

abbrev second : Entry
second = record first { id = some "second"; vehicle_id = none }

abbrev plan : Document
plan = record {
  defaults = record {
    pre_run_idle_s = some (some (pos 10));
    post_run_idle_s = none;
    auto_confirm_delay_s = none;
  };
  runs = first ∷ second ∷ [];
}

abbrev binder : Binder Sample
binder = record {
  fleet = record { by_id = []; on_change = []; calls = [] };
  bindings = [];
  has_callback = true;
  changes = [];
  untracks = [];
  next_ident = 0;
}

abbrev answers : Answers
answers = record {
  created = λ request. done (record { run_id = "run-1"; run_lifecycle_state = "Initialized" });
  terminal = λ trip. done (some "artes");
}

abbrev life : List Event
life =
    loaded (ok plan)
    ∷ round answers (pos 2000000) 0
    ∷ loaded (ok plan)
    ∷ round answers (pos 3000000) 1
    ∷ []

reachable-IsOnce_example : IsOnce (react_all read life (new_world binder))
reachable-IsOnce_example = reachable-IsOnce read life binder

reachable-IsLinked_example : IsLinked (react_all read life (new_world binder))
reachable-IsLinked_example = reachable-IsLinked read life binder

abbrev started : World Sample
started = new_world binder

dispatch_entry-stuck_example :
    ((dispatch_entry answers (pos 0) 0 "second" second started).0 ≢ ok tt)
    × (status_of
          (react_all read life
            (dispatch_entry answers (pos 0) 0 "second" second started).1).schedule.statuses
          "second"
        ≡ requested)
dispatch_entry-stuck_example =
    dispatch_entry-stuck read answers (pos 0) 0 "second" second started (gap (no_vehicle refl)) life

validate_runs_iff_example :
    (validate_runs read [] plan.runs ≡ ok tt)
    ↔ ((ids : List String) × IsSchedule read plan.runs ids)
validate_runs_iff_example = validate_runs_iff read plan.runs
