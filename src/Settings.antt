-- ===== src/Settings.antt =====
-- sim_project/settings.py: what the simulator reads from the environment. Python's `int` and
-- `float` on a text, which may raise, are parameters, and so are the two default paths of the
-- data files.
pub mod Vehicles
mod Tests
use mathlib.Core.Option
use databus_sim.Prelude.{
  String, Bool, ◌||◌, Option, none, some, List, [], ◌∷◌, ◌++◌, map, str_eq, if◌then◌else◌,
}
use databus_sim.Prelude.Int.{ℤ}
use databus_sim.Dict.{Dict, get}
use databus_sim.Effect.{Result, ok, ◌>=>◌}
use databus_sim.Text.{append, strip, split_comma, to_set, lower, is_empty}
use databus_sim.Runtime.Tick

-- os.environ.get(name, default)
unfoldable pub env : Dict String → (name default : String) → String
env e name default = Option.get_or (get e name) default

-- os.environ.get(name) or default
unfoldable pub env_or : Dict String → (name default : String) → String
env_or e name default = let v = env e name "" in if is_empty v then default else v

abbrev pub not_empty : List String → List String
not_empty [] = []
not_empty (x ∷ xs) = if is_empty x then not_empty xs else x ∷ not_empty xs

-- set(v.strip() for v in text.split(",") if v.strip())
unfoldable pub vehicles : String → List String
vehicles text = to_set [] (not_empty (map strip (split_comma text)))

pub record Settings (F : Type 0) : Type 0 where
  pub mqtt_host : String
  pub mqtt_port : ℤ
  pub mqtt_topic_root : String
  pub databus_base_url : String
  pub shapes_path : String
  pub schedule_path : String
  pub sim_tick_interval : F
  pub post_run_idle_s : ℤ
  pub run_poll_interval_s : F
  pub scheduler_tick_s : F
  pub web_port : ℤ
  pub sim_only_vehicles : List String
  pub sim_stop_vehicles : List String
  pub sim_random_drop_rate : ℤ
  pub sim_stop_all_after : ℤ
  pub navsat_url : String
  pub navsat_poll_interval_s : F

unfoldable pub base_url : Dict String → String
base_url e = env_or e "DATABUS_BASE_URL" (
    append "http://"
      (append (env e "DATABUS_HOST" "localhost") (append ":" (env e "DATABUS_HTTP_PORT" "8000"))))

module _ {F : Type 0} (int : String → Result ℤ) (float : String → Result F)
    (default_shapes_path default_schedule_path : String) where
  -- The module's assignments, in their order; the first text that is no number ends them.
  unfoldable pub read_settings : Dict String → Result (Settings F)
  read_settings e = int (env e "MQTT_PORT" (env e "DATABUS_MQTT_PORT" "1883")) >=> λ mqtt_port.
      float (env e "SIM_TICK_INTERVAL" "2.0") >=> λ tick.
      int (env e "POST_RUN_IDLE_S" "30") >=> λ idle_s.
      float (env e "RUN_POLL_INTERVAL_S" "2.0") >=> λ run_poll.
      float (env e "SCHEDULER_TICK_S" "1.0") >=> λ scheduler_tick.
      int (env e "WEB_PORT" "8080") >=> λ web_port.
      int (env e "SIM_RANDOM_DROP_RATE" "0") >=> λ drop_rate.
      int (env e "SIM_STOP_ALL_AFTER" "0") >=> λ stop_all_after.
      float (env e "NAVSAT_POLL_INTERVAL_S" "10") >=> λ navsat_poll. ok (record {
        mqtt_host = env e "MQTT_HOST" (env e "DATABUS_MQTT_HOST" "localhost");
        mqtt_port = mqtt_port;
        mqtt_topic_root = env e "MQTT_TOPIC_ROOT" "transit/vehicle";
        databus_base_url = base_url e;
        shapes_path = env e "SHAPES_PATH" default_shapes_path;
        schedule_path = env e "SCHEDULE_PATH" default_schedule_path;
        sim_tick_interval = tick;
        post_run_idle_s = idle_s;
        run_poll_interval_s = run_poll;
        scheduler_tick_s = scheduler_tick;
        web_port = web_port;
        sim_only_vehicles = vehicles (env e "SIM_ONLY_VEHICLES" "");
        sim_stop_vehicles = vehicles (env e "SIM_STOP_VEHICLES" "");
        sim_random_drop_rate = drop_rate;
        sim_stop_all_after = stop_all_after;
        navsat_url = env e "NAVSAT_URL" "";
        navsat_poll_interval_s = navsat_poll;
      })

-- What `tick_loop` takes of them at its start; the topic root is that of the runtime.
unfoldable pub tick_settings : {F : Type 0} → Settings F → Tick.Settings F
tick_settings s = record {
  interval = s.sim_tick_interval;
  only_vehicles = s.sim_only_vehicles;
  drop_rate = s.sim_random_drop_rate;
  stop_all_after = s.sim_stop_all_after;
  topic_root = s.mqtt_topic_root;
  idle_s = s.post_run_idle_s;
}
