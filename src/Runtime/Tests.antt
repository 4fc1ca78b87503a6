-- ===== src/Runtime/Tests.antt =====
-- The theorems on the start of the service at concrete inputs.
use databus_sim.Prelude.{String, ◌≡◌, refl, true, false, some, none, List, [], ◌∷◌}
use databus_sim.Prelude.Int.{pos}
use databus_sim.Float.Sample.{Sample, sample_float}
use databus_sim.Dict.{get, put}
use databus_sim.Effect.{ok, err, key_error, other_error}
use databus_sim.Geometry.Route.{
  Route, build_route_geometry, shape_entries, shape_entry, members, number_rows, insert_candidate,
  merge_stops, name_map, named, sort_candidates,
}
use databus_sim.Geometry.{
  RawPoint, project_point_to_polyline, build_polyline, with_dists, chosen_dists, given_dists_m,
  validate_dists_m, is_rising, haversine_from, segments_of, project_point_to_segment,
}
use databus_sim.Geometry.Assign.{
  build_stops, assign_stops_monotonic, project_rows, arg_min, assign_rows, backtrack,
  backtrack_best, choose_segments, clamp_all, clamp_rising, fill, join_stops, next_row, project_all,
  read_off,
}
use databus_sim.Kinematics.{Draws, last_of, haversine_m}
use databus_sim.Runtime.Start.{Runtime, Task, scheduler_loop}
use databus_sim.Effect.{Exec}
use databus_sim.Prelude.{Bool}
use databus_sim.Runtime.Start.{
  ShapesFile, Surroundings, new_runtime, load_shapes, start_fleet, start_runtime, network_of,
  progression_geometry, add_routes, add_entries,
}
use databus_sim.Progression.{ShapeStop}
use databus_sim.Progression.Upcoming.{IsRising}
use databus_sim.Runtime.Stop.{
  lifespan, stop_runtime, startup, shutdown, other, due, has_shutdown, IsStopped, at_shutdown,
  Closings, lifespan-stops,
}
use databus_sim.Runtime.Degraded.{tick_unreadable}
use databus_sim.Runtime.Tick.{Await, Settings, Chance, Loop, is_over, tick}
use databus_sim.Broadcast.{new_throttle}
use databus_sim.Fleet.{FleetState}
use databus_sim.Runtime.Numbering.{IsNumbered, progression_geometry-IsNumbered}

abbrev line : Route
line = record {
  route_id = "L1";
  short_name = "L1";
  color = "red";
  text_color = "white";
  shape_ids = "line" ∷ [];
}

abbrev file : ShapesFile Sample (RawPoint Sample)
file = record {
  shapes =
      (
        "line",
        record { lat = some 0; lon = some 0; km = some (some 0) }
            ∷ record { lat = some 10; lon = some 0; km = some (some 1) }
            ∷ [],
      )
      ∷ [];
  stops =
      record { stop_id = "a"; name = "A"; lat = some 0; lon = some 0 }
      ∷ record { stop_id = "b"; name = "B"; lat = some 10; lon = some 0 }
      ∷ [];
  routes = line ∷ [];
}

abbrev listed : List (ShapeStop Sample)
listed =
    record {
      stop_id = "a";
      name = "A";
      lat = some 0;
      lon = some 0;
      stop_sequence = pos 1;
      progress_m = some 0;
    }
    ∷ record {
      stop_id = "b";
      name = "B";
      lat = some 10;
      lon = some 0;
      stop_sequence = pos 2;
      progress_m = some 4058964100000000;
    }
    ∷ []

line-listed : get (progression_geometry (ok file) (line ∷ [])) "line" ≡ some listed
unfolding get put build_route_geometry shape_entries shape_entry members number_rows
    insert_candidate merge_stops name_map named sort_candidates project_point_to_polyline
    build_polyline with_dists chosen_dists given_dists_m validate_dists_m is_rising haversine_from
    segments_of project_point_to_segment build_stops assign_stops_monotonic project_rows arg_min
    assign_rows backtrack backtrack_best choose_segments clamp_all clamp_rising fill join_stops
    next_row project_all read_off last_of haversine_m progression_geometry add_routes add_entries
line-listed = refl

progression_geometry-IsNumbered_example : IsNumbered 1 listed × IsRising listed
progression_geometry-IsNumbered_example =
    progression_geometry-IsNumbered (ok file) (line ∷ []) "line" listed line-listed

abbrev draws : Draws Sample
draws = record {
  first_speed = some 5;
  first_occupancy = pos 40;
  speed_change = some 1;
  occupancy_change = pos 2;
}

-- Nothing answers.
abbrev nothing : Surroundings Sample
nothing = record {
  shapes_file = err other_error;
  again = err other_error;
  stop_vehicles = "unit-02" ∷ [];
  topic_root = "transit/vehicle";
  mqtt_connects = err other_error;
  databus_opens = ok tt;
  schedule_file = err other_error;
  navsat_url = "";
  has_channel_layer = true;
  draws = λ vid. draws;
}

abbrev settings : Settings Sample
settings = record {
  interval = some 2;
  only_vehicles = [];
  drop_rate = pos 0;
  stop_all_after = pos 0;
  topic_root = "transit/vehicle";
  idle_s = pos 30;
}

abbrev beginning : Loop Sample
beginning = record {
  air = record { fleet = start_fleet nothing; publications = []; messages = [] };
  cycle = 0;
  fleet_frames = new_throttle;
}

unread : load_shapes nothing.shapes_file ≡ err other_error
unfolding load_shapes
unread = refl

first_cycle : is_over settings 1 ≡ false
unfolding is_over
first_cycle = refl

abbrev chance : String → Chance Sample
chance vid = record { roll = pos 50; draws = draws; now = pos 7 }

abbrev idle : Await → String → FleetState Sample → FleetState Sample
idle wait vid s = s

tick_unreadable_example :
    tick settings
      (network_of (start_runtime (λ s. none) nothing new_runtime))
      false
      chance
      idle
      0
      beginning
    ≡ (err key_error, record beginning { cycle = 1 })
tick_unreadable_example =
    tick_unreadable (λ s. none) nothing new_runtime other_error settings false chance idle 0
      beginning unread refl refl first_cycle refl

shutdown_there : has_shutdown (startup ∷ other ∷ shutdown ∷ startup ∷ []) ≡ true
unfolding has_shutdown
shutdown_there = refl

-- The server starts up and shuts down; the databus client cannot be closed.
abbrev beginning_server : Exec (Runtime Sample) (Unit {0})
beginning_server rt = (ok tt, start_runtime (λ s. none) nothing rt)

abbrev closings : Closings
closings = record { mqtt = ok tt; databus = err other_error; navsat = ok tt }

abbrev is_done : Task → Bool
is_done scheduler_loop = true
is_done _ = false

lifespan-stops_example :
    ((lifespan beginning_server
        (stop_runtime is_done closings)
        (startup ∷ other ∷ shutdown ∷ startup ∷ [])
        new_runtime).0
      ≡ due (startup ∷ other ∷ shutdown ∷ startup ∷ []))
    × IsStopped is_done
        (at_shutdown beginning_server (startup ∷ other ∷ shutdown ∷ startup ∷ []) new_runtime)
        (lifespan beginning_server
          (stop_runtime is_done closings)
          (startup ∷ other ∷ shutdown ∷ startup ∷ [])
          new_runtime).1
lifespan-stops_example =
    lifespan-stops beginning_server is_done closings (startup ∷ other ∷ shutdown ∷ startup ∷ [])
      new_runtime shutdown_there
