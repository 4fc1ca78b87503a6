-- ===== src/Api/Tests.antt =====
-- The theorems on the views at concrete inputs: a document of one run.
use databus_sim.Prelude.{
  String, map, subst, ◌≡◌, ◌≢◌, ◌⊎◌, ◌↔◌, refl, true, Option, some, none, List, [], ◌∷◌, All,
  contains, false,
}
use databus_sim.Prelude.Int.{pos}
use databus_sim.Float.Sample.{Sample, sample_float}
use databus_sim.Effect.{Result, ok}
use databus_sim.Scheduler.{
  Entry, Instant, Document, text, is_relationship, is_direction, validate_runs, new_schedule,
}
use databus_sim.Fleet.Roster.{new_vehicle}
use databus_sim.RunBinder.{Binder, answered}
use databus_sim.Databus.{done, raised}
use databus_sim.Api.Events.{Event, track_requested, round_started, reply_came, untrack_due}
use databus_sim.Api.Office.{Happening, scheduled, served, occur_all, IsCrewed, NamesOnly}
use databus_sim.Api.Shared.{shared_polls_survive}
use databus_sim.RunBinder.Manned.{IsThere}
use databus_sim.Scheduler.Dispatch.{Answers}
use databus_sim.Scheduler.Life.{loaded, round, new_world}
use databus_sim.Dict.{get}
use databus_sim.Api.{
  Service, TrackRequest, validated, has_directions, has_fresh_ids, schedule_view_put,
}
use databus_sim.Api.Edit.{HasNull, IsShown, schedule_view_put-get}
use databus_sim.Api.Serializer.{HasStart, validated_iff}

abbrev read : String → Option Instant
read s = some (record { micros = pos 1000000; aware = true })

abbrev first : Entry
first = record {
  id = some "first";
  vehicle_id = some "unit-01";
  operator_id = some "op";
  route_id = some "L1";
  trip_id = some "trip";
  shape_id = some "hacia_artes";
  direction_id = some (pos 0);
  schedule_relationship = some (some "SCHEDULED");
  start_time = some (text "2026-01-01T08:00:00+00:00");
  auto_confirm = true;
  auto_start_motion_after_s = some 3;
}

abbrev plan : Document
plan = record {
  defaults = record {
    pre_run_idle_s = some (some (pos 10));
    post_run_idle_s = some (some (pos 30));
    auto_confirm_delay_s = some (some (pos 5));
  };
  runs = first ∷ [];
}

abbrev service : Service Sample
service = record { binder = none; scheduler = some new_schedule; file = "old"; has_databus = false }

abbrev dump : Document → String
dump d = "plan"

abbrev parsed : String → Result Document
parsed file = ok plan

schedule_view_put-get_example :
    (let (answer, s') = schedule_view_put read dump parsed (some plan) service in
      ((answer.status ≢ 200) × (s' ≡ service))
      ⊎ ((answer.status ≡ 200)
          × ((d : Document) × (some plan ≡ some d)
              × (s'.file ≡ dump d)
              × IsShown read dump parsed d 7 s'))
      ⊎ ((answer.status ≡ 400)
          × ((d : Document) × (some plan ≡ some d)
              × HasNull d.defaults
              × (s' ≡ record service { file = dump d }))))
schedule_view_put-get_example =
    schedule_view_put-get read dump parsed (some plan) service 7 (λ d same. cc)

plan-validated : validated (some plan) ≡ some plan
unfolding validated has_directions has_fresh_ids is_direction contains
plan-validated = refl

first-related : is_relationship (some "SCHEDULED") ≡ true
unfolding is_relationship contains
first-related = refl

validated_iff_example : (validate_runs read [] plan.runs ≡ ok tt) ↔ All (HasStart read) plan.runs
validated_iff_example = validated_iff read plan plan-validated (first-related, tt)

abbrev empty_office : Binder Sample
empty_office = record {
  fleet = record {
    by_id = ("unit-01", new_vehicle "unit-01" "bUCR_L1" "hacia_artes") ∷ [];
    on_change = [];
    calls = [];
  };
  bindings = [];
  has_callback = false;
  changes = [];
  untracks = [];
  next_ident = 0;
}

abbrev staffed : Service Sample
staffed = record service { binder = some empty_office }

abbrev tracked : String → TrackRequest
tracked vid = record { run_id = "run-1"; vehicle_id = vid; trip_id = "t"; shape_id = "hacia_artes" }

abbrev day : List (Event Sample)
day =
    track_requested (some (tracked "unit-09")) raised 1
    ∷ track_requested (some (tracked "unit-01")) raised 2
    ∷ round_started "run-1"
    ∷ reply_came (answered (some "Confirmed")) 3
    ∷ round_started "run-1"
    ∷ untrack_due "run-1"
    ∷ reply_came (answered (some "Completed")) 4
    ∷ []

abbrev answers : Answers
answers = record {
  created = λ request. done (record { run_id = "run-2"; run_lifecycle_state = "Initialized" });
  terminal = λ trip. done (some "artes");
}

abbrev later : List (Happening Sample)
later = scheduled (round answers (pos 2000000) 5) ∷ served (round_started "run-2") ∷ map served day

-- The scheduler asks for a run of its own, which the databus confirms.
abbrev shared_day : List (Happening Sample)
shared_day = scheduled (loaded (ok plan)) ∷ later

first-IsCrewed : IsCrewed empty_office.fleet first
unfolding get
first-IsCrewed vid named =
    let e : "unit-01" ≡ vid = cc in subst (λ x. IsThere x empty_office.fleet) e (_, refl)

later-NamesOnly : All (NamesOnly empty_office.fleet) later
later-NamesOnly = _

shared_polls_survive_example :
    (occur_all read shared_day (record {
      scheduler = new_world empty_office;
      polling = record { service = staffed; waiting = none };
    })).0
    ≡ ok tt
shared_polls_survive_example =
    shared_polls_survive read shared_day staffed empty_office refl refl
      ((first-IsCrewed, tt), later-NamesOnly)
