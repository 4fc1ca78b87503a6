-- ===== src/Runtime/Alive/Tests.antt =====
-- The theorems on the tick loop after a start at a concrete input: a line for each shape, and two
-- turns, before which a run is bound and its vehicle set off.
use databus_sim.Prelude.{
  ℕ, zero, suc, String, ◌≡◌, refl, true, some, none, List, [], ◌∷◌, All, arith, get_elem?,
}
use databus_sim.Prelude.Int.{pos}
use mathlib.Core.Option.{some-injective}
use databus_sim.Float.{◌≼◌}
use databus_sim.Float.Sample.{Sample, sample_float, Sample-IsOrdered}
use databus_sim.Dict.{Dict, get}
use databus_sim.Effect.{ok, err, other_error}
use databus_sim.Fleet.Changes
use databus_sim.Fleet.Roster.{make_fleet}
use databus_sim.Fleet.{Vehicle}
use databus_sim.Kinematics.{
  Shape, Point, Draws, Stop, total_dist_m, bearing_deg, haversine_m, place_on,
}
use databus_sim.Kinematics.Placement.{IsRoute}
use databus_sim.Broadcast.{new_throttle}
use databus_sim.Runtime.Tick.{Settings, Chance, Loop}
use databus_sim.Runtime.Tick.Serves.{IsServable, IsCharted}
use databus_sim.RunBinder.{BoundRun}
use databus_sim.Runtime.Tick.Deeds.{changed, applied}
use databus_sim.Runtime.Tick.Returns.{Turn, turns, IsOrderly}
use databus_sim.Runtime.Start.{
  FilePoint, of_three, Surroundings, new_runtime, load_shapes, load_each, load_points, start_fleet,
  start_runtime, network_of,
}
use databus_sim.Runtime.Alive.{start-turns-return}
use databus_sim.Runtime.Alive.Routes.{IsWithin, start-turns-IsWithin}
use databus_sim.Runtime.Tick.Rides.{IsMeasured, IsSafeTurn}
use databus_sim.Runtime.Tick.Keeps.{AllOf}

abbrev raw_line : List (FilePoint Sample)
raw_line = of_three (some 0) (some 0) (some 0) ∷ of_three (some 10) (some 0) (some 1) ∷ []

abbrev line : String → Shape Sample
line sid = record {
  shape_id = sid;
  points =
      record { lat = some 0; lon = some 0; dist_km = some 0 }
      ∷ record { lat = some 10; lon = some 0; dist_km = some 1 }
      ∷ [];
}

abbrev shape_ids : List String
shape_ids =
    "hacia_artes" ∷ "hacia_educacion" ∷ "desde_artes_sin_milla" ∷ "desde_artes_con_milla"
    ∷ "desde_educacion_con_milla" ∷ []

abbrev raw_shapes : List String → Dict (List (FilePoint Sample))
raw_shapes [] = []
raw_shapes (sid ∷ sids) = (sid, raw_line) ∷ raw_shapes sids

abbrev shapes : List String → Dict (Shape Sample)
shapes [] = []
shapes (sid ∷ sids) = (sid, line sid) ∷ shapes sids

abbrev stops : List (Stop Sample)
stops = record { stop_id = "a"; name = "A"; lat = some 0; lon = some 0 } ∷ []

abbrev draws : Draws Sample
draws = record {
  first_speed = some 5;
  first_occupancy = pos 40;
  speed_change = some 1;
  occupancy_change = pos 2;
}

abbrev surroundings : Surroundings Sample
surroundings = record {
  shapes_file = ok (record { shapes = raw_shapes shape_ids; stops = stops; routes = [] });
  again = err other_error;
  stop_vehicles = [];
  topic_root = "transit/vehicle";
  mqtt_connects = err other_error;
  databus_opens = ok tt;
  schedule_file = err other_error;
  navsat_url = "";
  has_channel_layer = true;
  draws = λ vid. draws;
}

abbrev settings : Settings Sample
settings = record {
  interval = some 2;
  only_vehicles = [];
  drop_rate = pos 0;
  stop_all_after = pos 0;
  topic_root = "transit/vehicle";
  idle_s = pos 30;
}

abbrev beginning : Loop Sample
beginning = record {
  air = record { fleet = start_fleet surroundings; publications = []; messages = [] };
  cycle = 0;
  fleet_frames = new_throttle;
}

loaded : load_shapes surroundings.shapes_file ≡ ok (shapes shape_ids, stops, [])
unfolding load_shapes load_each load_points
loaded = refl

dist_km-at : (i : ℕ) (p : Point Sample) → get_elem? (line "").points i ≡ some p → p.dist_km ≡ some i
dist_km-at zero p h = ground arith
dist_km-at (suc zero) p h = ground arith
dist_km-at (suc (suc i)) p h = cc

line-IsRoute : (sid : String) → IsRoute (line sid)
line-IsRoute sid = record {
  sorted = λ i j a b ha hb h. ground (arith, dist_km-at i a ha, dist_km-at j b hb);
  long = omega arith;
  origin = λ p found. ground arith;
}

abbrev south : Point Sample
south = record { lat = some 0; lon = some 0; dist_km = some 0 }

abbrev north : Point Sample
north = record { lat = some 10; lon = some 0; dist_km = some 1 }

only_segment :
    (sid : String) (i : ℕ) (a b : Point Sample)
    → get_elem? (line sid).points i ≡ some a
    → get_elem? (line sid).points (suc i) ≡ some b
    → (south ≡ a) × (north ≡ b)
only_segment sid zero a b ha hb = (some-injective _ _ ha, some-injective _ _ hb)
only_segment sid (suc i) a b ha hb = cc

near_stops :
    (km : Sample)
    → km ≼ some 1
    → All
        (λ (s : Stop Sample).
          let (lat, lon) = place_on south north km in
          (d : Sample) × (haversine_m lat lon s.lat s.lon ≡ ok d))
        stops
unfolding haversine_m
near_stops none high = cc
near_stops (some x) high = ((_, refl), tt)

line-IsCharted : (sid : String) → IsCharted stops (line sid)
unfolding bearing_deg
line-IsCharted sid = record {
  bearing = λ i a b ha hb. let (e, e') = only_segment sid i a b ha hb in rw (← e, ← e') (_, refl);
  distances = λ i a b km ha hb low high.
      let (e, e') = only_segment sid i a b ha hb in
      rw (← e, ← e') (near_stops km (rw (← e') at high));
}

served :
    All (λ (v : Vehicle Sample). IsServable stops (shapes shape_ids) v.default_shape_id) make_fleet
unfolding get
served = (
  record {
    shape = line "hacia_artes";
    found = refl;
    route = line-IsRoute _;
    charted = line-IsCharted _;
  },
  (
    record {
      shape = line "hacia_educacion";
      found = refl;
      route = line-IsRoute _;
      charted = line-IsCharted _;
    },
    (
      record {
        shape = line "desde_artes_sin_milla";
        found = refl;
        route = line-IsRoute _;
        charted = line-IsCharted _;
      },
      (
        record {
          shape = line "desde_artes_con_milla";
          found = refl;
          route = line-IsRoute _;
          charted = line-IsCharted _;
        },
        (
          record {
            shape = line "desde_educacion_con_milla";
            found = refl;
            route = line-IsRoute _;
            charted = line-IsCharted _;
          },
          (
            record {
              shape = line "desde_artes_con_milla";
              found = refl;
              route = line-IsRoute _;
              charted = line-IsCharted _;
            },
            tt,
          ),
        ),
      ),
    ),
  ),
)

abbrev chance : String → Chance Sample
chance vid = record { roll = pos 50; draws = draws; now = pos 7 }

abbrev run : BoundRun
run = record {
  run_id = "r1";
  vehicle_id = "unit-01";
  trip_id = "t1";
  shape_id = "hacia_educacion";
  terminal_stop_id = none;
  lifecycle_state = none;
  last_polled_at = none;
  tracked_since = 0;
  ident = 0;
}

abbrev departure : Turn Sample
departure = record {
  before = applied run "Confirmed" 1 ∷ changed (Changes.moving "unit-01" true 1) ∷ [];
  calls = λ wait vid. changed (Changes.unbind vid 2) ∷ [];
  chance = chance;
  now = 1;
}

departure-IsOrderly : IsOrderly stops (shapes shape_ids) departure
unfolding get
departure-IsOrderly = (
  (
    record {
      shape = line "hacia_educacion";
      found = refl;
      route = line-IsRoute _;
      charted = line-IsCharted _;
    },
    (tt, tt),
  ),
  λ wait vid. (tt, tt),
)

start-turns-return_example :
    (turns settings
      (network_of (start_runtime (λ s. none) surroundings new_runtime))
      true
      (departure ∷ departure ∷ [])
      beginning).0
    ≡ ok tt
start-turns-return_example =
    start-turns-return Sample-IsOrdered (λ s. none) surroundings new_runtime (shapes shape_ids)
      stops [] settings true (departure ∷ departure ∷ []) beginning loaded served
      (departure-IsOrderly, (departure-IsOrderly, tt)) refl

line-IsMeasured :
    (sid : String)
    → get (shapes shape_ids) sid ≡ some (line sid)
    → IsMeasured (shapes shape_ids) sid
unfolding total_dist_m
line-IsMeasured sid found = record {
  shape = line sid;
  found = found;
  total = some 1000;
  measured = refl;
  positive = refl;
}

measured : All (λ (v : Vehicle Sample). IsMeasured (shapes shape_ids) v.default_shape_id) make_fleet
unfolding get
measured = (
  line-IsMeasured _ refl,
  (
    line-IsMeasured _ refl,
    (
      line-IsMeasured _ refl,
      (line-IsMeasured _ refl, (line-IsMeasured _ refl, (line-IsMeasured _ refl, tt))),
    ),
  ),
)

departure-IsSafeTurn : IsSafeTurn (shapes shape_ids) departure
unfolding get
departure-IsSafeTurn = ((line-IsMeasured _ refl, (tt, tt)), λ wait vid. (tt, tt))

start-turns-IsWithin_example :
    AllOf
      (λ k. IsWithin (shapes shape_ids))
      (turns settings
        (network_of (start_runtime (λ s. none) surroundings new_runtime))
        true
        (departure ∷ departure ∷ [])
        beginning).1.air.fleet.by_id
start-turns-IsWithin_example =
    start-turns-IsWithin Sample-IsOrdered (λ s. none) surroundings new_runtime (shapes shape_ids)
      stops [] settings true (departure ∷ departure ∷ []) beginning
      (record { forward = refl; finite = refl }) loaded measured
      (departure-IsSafeTurn, (departure-IsSafeTurn, tt)) refl
