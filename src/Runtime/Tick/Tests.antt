-- ===== src/Runtime/Tick/Tests.antt =====
-- The theorems on the tick loop at concrete inputs: one vehicle under way, or one without a shape.
use databus_sim.Prelude.{String, ◌≡◌, refl, true, false, some, [], ◌∷◌}
use databus_sim.Prelude.Int.{pos}
use databus_sim.Float.Sample.{Sample, sample_float}
use databus_sim.Dict.{get}
use databus_sim.Effect.{ok, err, key_error}
use databus_sim.Fleet.{Vehicle, FleetState}
use databus_sim.Fleet.Roster.{new_vehicle}
use databus_sim.Kinematics.{Shape, Point, get_shape}
use databus_sim.Broadcast.{new_throttle}
use databus_sim.Runtime.Tick.{
  Await, Settings, Network, Chance, Loop, is_skipped, is_over, tick_all, tick,
}
use databus_sim.Runtime.Tick.Mirror.{IsMirrored, mirror, tick-IsMirrored}
use databus_sim.Runtime.Tick.Unknown.{tick-unknown}

abbrev point : Sample → Sample → Point Sample
point lat km = record { lat = lat; lon = some 0; dist_km = km }

abbrev line : Shape Sample
line = record {
  shape_id = "line";
  points = point (some 0) (some 0) ∷ point (some 10) (some 1) ∷ [];
}

abbrev net : Network Sample
net = record { shapes = ("line", line) ∷ []; stops = []; progression_geom = [] }

abbrev settings : Settings Sample
settings = record {
  interval = some 2;
  only_vehicles = [];
  drop_rate = pos 0;
  stop_all_after = pos 0;
  topic_root = "transit/vehicle";
  idle_s = pos 30;
}

abbrev chance : String → Chance Sample
chance vid = record {
  roll = pos 50;
  draws = record {
    first_speed = some 5;
    first_occupancy = pos 40;
    speed_change = some 1;
    occupancy_change = pos 2;
  };
  now = pos 7;
}

abbrev rolling : Vehicle Sample
rolling = record (new_vehicle "unit-01" "bUCR_L1" "line") { transmitting = true; moving = true }

abbrev lost : Vehicle Sample
lost = record rolling { bound_shape_id = some "nowhere" }

abbrev loop_of : Vehicle Sample → Loop Sample
loop_of v = record {
  air = record {
    fleet = record { by_id = ("unit-01", v) ∷ []; on_change = []; calls = [] };
    publications = [];
    messages = [];
  };
  cycle = 0;
  fleet_frames = new_throttle;
}

abbrev idle : Await → String → FleetState Sample → FleetState Sample
idle wait vid s = s

start-IsMirrored : IsMirrored settings (loop_of rolling).air
unfolding mirror
start-IsMirrored = record { same = refl }

tick-IsMirrored_example :
    IsMirrored settings (tick settings (some net) true chance idle 0 (loop_of rolling)).1.air
tick-IsMirrored_example =
    tick-IsMirrored settings net chance idle 0 (loop_of rolling) start-IsMirrored

none_before :
    tick_all settings net true chance idle [] (loop_of lost).air ≡ (ok tt, (loop_of lost).air)
unfolding tick_all
none_before = refl

lost-found : get (loop_of lost).air.fleet.by_id "unit-01" ≡ some lost
unfolding get
lost-found = refl

lost-unknown : get_shape lost net.shapes ≡ err key_error
unfolding get_shape get
lost-unknown = refl

lost-taken : is_skipped settings (chance "unit-01") lost ≡ false
unfolding is_skipped
lost-taken = refl

lost-under : is_over settings 1 ≡ false
unfolding is_over
lost-under = refl

tick-unknown_example :
    tick settings (some net) true chance idle 0 (loop_of lost)
    ≡ (err key_error, record (loop_of lost) { cycle = 1 })
tick-unknown_example =
    tick-unknown settings net true chance idle [] "unit-01" [] lost 0 (loop_of lost)
      (loop_of lost).air refl lost-under none_before lost-found lost-taken lost-unknown
