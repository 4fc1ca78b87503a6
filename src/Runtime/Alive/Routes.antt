-- ===== src/Runtime/Alive/Routes.antt =====
-- simulator_app/runtime.py: where the vehicles are in the tick loop after a start that could read
-- the shapes.
use databus_sim.Prelude.{
  ◌≡◌, refl, sym, subst, String, Option, some, List, All, Bool, contains, arith, Bool-cases, inl,
  inr,
}
use databus_sim.Float.{Float, IsOrdered}
use databus_sim.Dict.{Dict}
use databus_sim.Effect.{ok}
use databus_sim.Fleet.{Vehicle}
use databus_sim.Fleet.Roster.{new_vehicle, make_fleet}
use databus_sim.Kinematics.{Shape, Stop, Draws, get_shape, total_dist_m}
use databus_sim.Kinematics.Motion.{IsSpeed, IsOnTrack}
use databus_sim.Geometry.Route.{Route}
use databus_sim.Scheduler.{Instant}
use databus_sim.Runtime.Tick.{Settings, Network, Loop}
use databus_sim.Runtime.Tick.Keeps.{AllOf}
use databus_sim.Runtime.Tick.Returns.{Turn, turns}
use databus_sim.Runtime.Tick.Rides.{
  IsMeasured, IsRiding, IsSafeTurn, AllRiding, same-IsRiding, turns-AllRiding,
}
use databus_sim.Runtime.Fresh.{start_fleet-AllOf}
use databus_sim.Runtime.Start.{
  Runtime, Surroundings, load_shapes, prepare_one, start_fleet, start_runtime, network_of,
}

module _ {F : Type 0} ⦃fl : Float F⦄ where
  -- The vehicle stands between the ends of the shape that it now follows.
  pub record IsWithin (shapes : Dict (Shape F)) (v : Vehicle F) : Type 0 where
    pub shape : Shape F
    pub known : get_shape v shapes ≡ ok shape
    pub total : F
    pub measured : total_dist_m shape ≡ ok total
    pub track : IsOnTrack total v

  module _ (laws : IsOrdered F) (net : Network F) where
    new_vehicle-IsRiding :
        (a b c : String) → IsMeasured net.shapes c → IsRiding net (new_vehicle a b c)
    unfolding get_shape
    new_vehicle-IsRiding a b c m = record {
      default = m;
      route = record {
        shape = m.shape;
        known = rw (m.found, get_shape);
        total = m.total;
        measured = m.measured;
        track = record {
          started = laws.lit_mono 0 0 (omega arith) (omega arith);
          within = m.positive;
        };
        override = λ x set. cc;
      };
    }

    prepare_one-IsRiding :
        (stop_vehicles : List String) (r : Draws F) (v : Vehicle F)
        → IsRiding net v
        → IsRiding net (prepare_one r stop_vehicles v)
    unfolding prepare_one
    prepare_one-IsRiding stop_vehicles r v h =
        elim (Bool-cases (contains v.vehicle_id stop_vehicles)) [
          | inl stopped ↦ rw (stopped, prepare_one) (same-IsRiding laws net v _ refl refl h)
          | inr sends ↦ rw (sends, prepare_one) (same-IsRiding laws net v _ refl refl h)
        ]

    start_fleet-AllRiding :
        (out : Surroundings F)
        → All (λ (v : Vehicle F). IsMeasured net.shapes v.default_shape_id) make_fleet
        → AllRiding net (start_fleet out).by_id
    start_fleet-AllRiding out =
        start_fleet-AllOf (IsMeasured net.shapes) (IsRiding net) new_vehicle-IsRiding out
          (prepare_one-IsRiding out.stop_vehicles)

    turns-IsWithin :
        (out : Surroundings F) (c : Settings F) (mqtt : Bool) (ts : List (Turn F)) (l : Loop F)
        → IsSpeed c.interval
        → All (λ (v : Vehicle F). IsMeasured net.shapes v.default_shape_id) make_fleet
        → All (IsSafeTurn net.shapes) ts
        → l.air.fleet ≡ start_fleet out
        → AllOf (λ k. IsWithin net.shapes) (turns c (some net) mqtt ts l).1.air.fleet.by_id
    turns-IsWithin out c mqtt ts l time measured safe fresh k v found =
        let h =
          turns-AllRiding laws net c mqtt time ts l safe
            (subst (λ f. AllRiding net f.by_id) (sym fresh) (start_fleet-AllRiding out measured)) k
            v found in
        record {
          shape = h.route.shape;
          known = h.route.known;
          total = h.route.total;
          measured = h.route.measured;
          track = h.route.track;
        }

  -- Given the float laws and a tick length that is finite and not negative: when the shapes file
  -- could be loaded at start-up, and the default shape of each vehicle of the roster is in it
  -- with a length that is not negative, then after any turns of the tick loop from that start,
  -- whether the last one returns or raises, every vehicle stands between the ends of the shape
  -- that it then follows. In the sleeps and waits other tasks may apply any states of runs on
  -- shapes with such a length, so that vehicles are bound and released, and may call any mutators
  -- but `bind_run`, with speeds that are finite and not negative.
  pub start-turns-IsWithin :
      (laws : IsOrdered F) (fromisoformat : String → Option Instant) (out : Surroundings F)
      (rt : Runtime F) (shapes : Dict (Shape F)) (stops : List (Stop F)) (routes : List Route)
      (c : Settings F) (mqtt : Bool) (ts : List (Turn F)) (l : Loop F)
      → IsSpeed c.interval
      → load_shapes out.shapes_file ≡ ok (shapes, stops, routes)
      → All (λ (v : Vehicle F). IsMeasured shapes v.default_shape_id) make_fleet
      → All (IsSafeTurn shapes) ts
      → l.air.fleet ≡ start_fleet out
      → AllOf
          (λ k. IsWithin shapes)
          (turns c (network_of (start_runtime fromisoformat out rt)) mqtt ts l).1.air.fleet.by_id
  unfolding network_of start_runtime
  start-turns-IsWithin laws fromisoformat out rt shapes stops routes c mqtt ts l time loaded
        measured safe fresh =
      rw loaded (turns-IsWithin laws _ out c mqtt ts l time measured safe fresh)
