-- ===== src/Settings/Tests.antt =====
-- The theorem on the settings at a concrete environment, and a URL.
use databus_sim.Prelude.{String, ◌≡◌, refl, some, [], ◌∷◌, map, All, not, contains}
use databus_sim.Prelude.Int.{ℤ, pos}
use databus_sim.Float.Sample.{Sample, sample_float}
use databus_sim.Dict.{Dict, get}
use databus_sim.Effect.{Result, ok}
use databus_sim.Fleet.{Vehicle}
use databus_sim.Fleet.Roster.{new_vehicle}
use databus_sim.Text.{is_space}
use databus_sim.Text.Split.{join_comma}
use databus_sim.Runtime.Tick.{Chance, is_skipped}
use databus_sim.Settings.{Settings, env, env_or, base_url, vehicles, read_settings, tick_settings}
use databus_sim.Settings.Vehicles.{Item, IsPadded, names, written, is_skipped-named}

abbrev environment : Dict String
environment =
    ("SIM_ONLY_VEHICLES", "unit-01, unit-02 ")
    ∷ ("DATABUS_HOST", "databus")
    ∷ ("DATABUS_BASE_URL", "")
    ∷ []

abbrev int : String → Result ℤ
int s = ok (pos 0)

abbrev float : String → Result Sample
float s = ok (some 1)

abbrev first : Item
first = record { left = ""; name = "unit-01"; right = "" }

abbrev second : Item
second = record { left = " "; name = "unit-02"; right = " " }

abbrev read : Settings Sample
read = record {
  mqtt_host = "localhost";
  mqtt_port = pos 0;
  mqtt_topic_root = "transit/vehicle";
  databus_base_url = "http://databus:8000";
  shapes_path = "shapes.json";
  schedule_path = "schedule.yaml";
  sim_tick_interval = some 1;
  post_run_idle_s = pos 0;
  run_poll_interval_s = some 1;
  scheduler_tick_s = some 1;
  web_port = pos 0;
  sim_only_vehicles = vehicles "unit-01, unit-02 ";
  sim_stop_vehicles = vehicles "";
  sim_random_drop_rate = pos 0;
  sim_stop_all_after = pos 0;
  navsat_url = "";
  navsat_poll_interval_s = some 1;
}

environment-read : read_settings int float "shapes.json" "schedule.yaml" environment ≡ ok read
unfolding read_settings env env_or base_url get
environment-read = refl

listed : get environment "SIM_ONLY_VEHICLES" ≡ some (join_comma (map written (first ∷ second ∷ [])))
unfolding get join_comma
listed = refl

padded : All IsPadded (first ∷ second ∷ [])
unfolding is_space
padded = (
  record {
    spaces_left = tt;
    starts = refl;
    ends = refl;
    spaces_right = tt;
    no_comma = (refl, (refl, (refl, (refl, (refl, (refl, (refl, tt)))))));
  },
  (
    record {
      spaces_left = (refl, tt);
      starts = refl;
      ends = refl;
      spaces_right = (refl, tt);
      no_comma = (refl, (refl, (refl, (refl, (refl, (refl, (refl, tt)))))));
    },
    tt,
  ),
)

abbrev chance : Chance Sample
chance = record {
  roll = pos 50;
  draws = record {
    first_speed = some 5;
    first_occupancy = pos 40;
    speed_change = some 1;
    occupancy_change = pos 2;
  };
  now = pos 7;
}

abbrev third : Vehicle Sample
third = new_vehicle "unit-03" "bUCR_L1" "line"

is_skipped-named_example :
    is_skipped (tick_settings read) chance third
    ≡ not (contains "unit-03" (names (first ∷ second ∷ [])))
is_skipped-named_example =
    is_skipped-named int float "shapes.json" "schedule.yaml" environment read first (second ∷ [])
      chance third environment-read listed padded refl
