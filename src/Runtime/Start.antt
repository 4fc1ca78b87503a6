-- ===== src/Runtime/Start.antt =====
-- `load_shapes` of simulator_app/domain/kinematics.py and `start_runtime` of
-- simulator_app/runtime.py. What the files, the broker and the databus give is an argument. The
-- binder holds the fleet of the runtime, and is a flag here.
use mathlib.Core.Option
use databus_sim.Prelude.{
  String, Bool, true, false, not, Option, none, some, List, [], ◌∷◌, ◌++◌, str_eq, contains,
  if◌then◌else◌,
}
use databus_sim.Float.{Float, lit}
use databus_sim.Dict.{Dict, put}
use databus_sim.Effect.{Result, ok, err, value_error, ◌>=>◌}
use databus_sim.Fleet.{Vehicle, FleetState}
use databus_sim.Fleet.Roster.{new_fleet, make_fleet}
use databus_sim.Kinematics.{Shape, Stop, Point, Draws, init_kin}
use databus_sim.Progression.{ShapeStop}
use databus_sim.Geometry.{RawPoint}
use databus_sim.Geometry.Route.{Route, ShapeEntry, build_route_geometry}
use databus_sim.Runtime.Tick.{Network}
use databus_sim.Scheduler.{Document, Schedule, Instant, new_schedule, load}

-- A point of the file as `load_shapes` meets it: two or three numbers.
pub data FilePoint (F : Type 0) : Type 0 where
  of_two : (lat lon : F) → FilePoint F
  of_three : (lat lon dist : F) → FilePoint F

-- The JSON of SHAPES_PATH, with points of type `P`: `load_shapes` reads a `FilePoint`, the
-- geometry of the routes, from a second reading of the file, a `RawPoint`, which may have a null
-- distance.
pub record ShapesFile (F P : Type 0) : Type 0 where
  pub shapes : Dict (List P)
  pub stops : List (Stop F)
  pub routes : List Route

pub data Task : Type 0 where
  tick_loop run_binder scheduler_loop navsat_poll_loop : Task

-- The fields of the runtime. A client of the databus may be there and not open.
pub record Runtime (F : Type 0) : Type 0 where
  pub fleet : Option (FleetState F)
  pub scheduler : Option Schedule
  pub has_binder : Bool
  pub databus : Option Bool
  pub has_mqtt : Bool
  pub has_channel_layer : Bool
  pub tasks : List Task
  -- The tasks that a stop has awaited, and whether it has cancelled them before.
  pub awaited : List (Task × Bool)
  pub shapes : Option (Dict (Shape F))
  pub stops : Option (List (Stop F))
  pub topic_root : String
  pub progression_geom : Dict (List (ShapeStop F))
  pub has_navsat_client : Bool

-- The settings that `start_runtime` reads, and what the world answers. `again` is the second read
-- of the shapes file.
pub record Surroundings (F : Type 0) : Type 0 where
  pub shapes_file : Result (ShapesFile F (FilePoint F))
  pub again : Result (ShapesFile F (RawPoint F))
  pub stop_vehicles : List String
  pub topic_root : String
  pub mqtt_connects : Result (Unit {0})
  pub databus_opens : Result (Unit {0})
  pub schedule_file : Result Document
  pub navsat_url : String
  pub has_channel_layer : Bool
  pub draws : String → Draws F

abbrev pub succeeds : {A : Type 0} → Result A → Bool
succeeds (ok a) = true
succeeds (err e) = false

-- A text as a condition.
abbrev not_empty : String → Bool
not_empty s = not (str_eq s "")

abbrev or_empty :
    {F : Type 0}
    → Result (Dict (Shape F) × List (Stop F) × List Route)
    → Dict (Shape F) × List (Stop F) × List Route
or_empty (ok loaded) = loaded
or_empty (err e) = ([], [], [])

module _ {F : Type 0} where
  unfoldable pub new_runtime : Runtime F
  new_runtime = record {
    fleet = none;
    scheduler = none;
    has_binder = false;
    databus = none;
    has_mqtt = false;
    has_channel_layer = false;
    tasks = [];
    awaited = [];
    shapes = none;
    stops = none;
    topic_root = "transit/vehicle";
    progression_geom = [];
    has_navsat_client = false;
  }

  -- `(lat, lon, dist) for lat, lon, dist in pts`: a point of two values raises.
  unfoldable pub load_points : List (FilePoint F) → Result (List (Point F))
  load_points [] = ok []
  load_points (of_two lat lon ∷ pts) = err value_error
  load_points (of_three lat lon dist ∷ pts) =
      load_points pts >=> λ rest. ok (record { lat = lat; lon = lon; dist_km = dist } ∷ rest)

  unfoldable pub load_each : Dict (List (FilePoint F)) → Result (Dict (Shape F))
  load_each [] = ok []
  load_each ((sid, pts) ∷ shapes) = load_points pts >=> λ points.
      load_each shapes >=> λ rest. ok ((sid, record { shape_id = sid; points = points }) ∷ rest)

  unfoldable pub load_shapes :
      Result (ShapesFile F (FilePoint F)) → Result (Dict (Shape F) × List (Stop F) × List Route)
  load_shapes file =
      file >=> λ raw. load_each raw.shapes >=> λ shapes. ok (shapes, raw.stops, raw.routes)

  -- What the tick loop reads of the runtime in each turn; `none` where it continues with the next.
  unfoldable pub network_of : Runtime F → Option (Network F)
  network_of rt = elim rt.shapes [
    | none ↦ none
    | some shapes ↦ some (record {
      shapes = shapes;
      stops = Option.get_or rt.stops [];
      progression_geom = rt.progression_geom;
    })
  ]

  -- `for _s in _g["shapes"]`
  unfoldable pub add_entries :
      List (ShapeEntry F) → Dict (List (ShapeStop F)) → Dict (List (ShapeStop F))
  add_entries [] geom = geom
  add_entries (e ∷ entries) geom = add_entries entries (put geom e.shape_id e.stops)

module _ {F : Type 0} ⦃fl : Float F⦄ where
  -- `for _route in routes`
  unfoldable pub add_routes :
      ShapesFile F (RawPoint F)
      → List Route
      → Dict (List (ShapeStop F))
      → Result (Dict (List (ShapeStop F)))
  add_routes raw [] geom = ok geom
  add_routes raw (r ∷ routes) geom = build_route_geometry (lit 50) r raw.shapes raw.stops >=> λ g.
      add_routes raw routes (add_entries g.shapes geom)

  -- Step 1b. Any exception leaves no geometry.
  unfoldable pub progression_geometry :
      Result (ShapesFile F (RawPoint F)) → List Route → Dict (List (ShapeStop F))
  progression_geometry file routes = elim (file >=> λ raw. add_routes raw routes []) [
    | ok geom ↦ geom
    | err e ↦ []
  ]

  -- `_init_kin` and SIM_STOP_VEHICLES, for a vehicle.
  unfoldable pub prepare_one : Draws F → (stop_vehicles : List String) → Vehicle F → Vehicle F
  prepare_one r stop_vehicles v =
      let v' : Vehicle F = record v { kin = some (init_kin r v.kin) } in
      if contains v.vehicle_id stop_vehicles then record v' { transmitting = false } else v'

  unfoldable pub prepare :
      (draws : String → Draws F) (stop_vehicles : List String) → Dict (Vehicle F) → Dict (Vehicle F)
  prepare draws stop_vehicles [] = []
  prepare draws stop_vehicles ((k, v) ∷ d) =
      (k, prepare_one (draws k) stop_vehicles v) ∷ prepare draws stop_vehicles d

  -- The fleet of step 2, with the callback of step 6.
  unfoldable pub start_fleet : Surroundings F → FleetState F
  start_fleet out =
      let fleet = new_fleet make_fleet in
      record fleet {
        by_id = prepare out.draws out.stop_vehicles fleet.by_id;
        on_change = fleet.on_change ++ 0 ∷ [];
      }

  unfoldable pub start_runtime :
      (fromisoformat : String → Option Instant) → Surroundings F → Runtime F → Runtime F
  start_runtime fromisoformat out rt =
      let loaded = or_empty (load_shapes out.shapes_file) in
      let polls = not_empty out.navsat_url in
      record rt {
        fleet = some (start_fleet out);
        shapes = some loaded.0;
        stops = some loaded.1;
        topic_root = out.topic_root;
        progression_geom = progression_geometry out.again loaded.2;
        has_mqtt = succeeds out.mqtt_connects;
        databus = some (succeeds out.databus_opens);
        has_binder = true;
        scheduler = some (load fromisoformat out.schedule_file new_schedule).1;
        has_navsat_client = if polls then true else rt.has_navsat_client;
        has_channel_layer = out.has_channel_layer;
        tasks =
            tick_loop ∷ run_binder ∷ scheduler_loop ∷ (if polls then navsat_poll_loop ∷ [] else []);
      }
