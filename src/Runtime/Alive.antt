-- ===== src/Runtime/Alive.antt =====
-- simulator_app/runtime.py: the tick loop after a start that could read the shapes.
pub mod Routes
mod Tests
use databus_sim.Prelude.{
  ◌≡◌, refl, sym, ap, ◌∙◌, subst, String, Option, some, none, List, [], ◌∷◌, All, str_eq, Bool,
  Bool-cases, inl, inr, arith, if◌then◌else◌,
}
use mathlib.Core.Option.{some-injective}
use databus_sim.Float.{Float, IsOrdered}
use databus_sim.Dict.{Dict, get, put}
use databus_sim.Effect.{ok}
use databus_sim.Fleet.{Vehicle}
use databus_sim.Fleet.Roster.{new_fleet, new_vehicle, make_fleet, index_by_id}
use databus_sim.Kinematics.{Shape, Stop, Draws}
use databus_sim.Geometry.Route.{Route}
use databus_sim.Scheduler.{Instant}
use databus_sim.Runtime.Tick.{Settings, Network, Loop}
use databus_sim.Runtime.Tick.Keeps.{AllOf, AllOf-put}
use databus_sim.Runtime.Tick.Serves.{IsServable, IsServed}
use databus_sim.Runtime.Tick.Returns.{Turn, turns, turns-return, AllServed, IsOrderly}
use databus_sim.Runtime.Fresh.{start_fleet-AllOf}
use databus_sim.Runtime.Start.{
  Runtime, Surroundings, load_shapes, prepare, prepare_one, start_fleet, start_runtime, network_of,
}

module _ {F : Type 0} ⦃fl : Float F⦄ where
  prepare_one-IsServed :
      (stops : List (Stop F)) (shapes : Dict (Shape F)) (r : Draws F) (stop_vehicles : List String)
      (v : Vehicle F)
      → IsServed stops shapes v
      → IsServed stops shapes (prepare_one r stop_vehicles v)
  unfolding prepare_one
  prepare_one-IsServed stops shapes r stop_vehicles v h = ground (arith, h.default, h.bound)

  new_vehicle-IsServed :
      (stops : List (Stop F)) (shapes : Dict (Shape F)) (a b c : String)
      → IsServable stops shapes c
      → IsServed stops shapes (new_vehicle a b c)
  new_vehicle-IsServed stops shapes a b c h = record { default = h; bound = λ sid e. cc }

  start_fleet-AllServed :
      (stops : List (Stop F)) (shapes : Dict (Shape F)) (out : Surroundings F)
      → All (λ (v : Vehicle F). IsServable stops shapes v.default_shape_id) make_fleet
      → AllServed stops shapes (start_fleet out).by_id
  start_fleet-AllServed stops shapes out =
      start_fleet-AllOf (IsServable stops shapes) (IsServed stops shapes)
        (new_vehicle-IsServed stops shapes) out
        (λ r. prepare_one-IsServed stops shapes r out.stop_vehicles)

  -- Given the float laws: when the shapes file could be loaded at start-up, and the default shape
  -- of each vehicle of the roster is in it with at least two points and distances that start at 0
  -- and never fall, and the math functions are defined for the bearings of its segments and for
  -- the distances of the stops from the places on it, then no turn of the tick loop from that
  -- start raises, however many there are, whatever is drawn, and whatever mutators and whatever
  -- `_apply_state` other tasks call during the sleeps and waits, as long as their runs are only
  -- on such shapes.
  pub start-turns-return :
      (laws : IsOrdered F) (fromisoformat : String → Option Instant) (out : Surroundings F)
      (rt : Runtime F) (shapes : Dict (Shape F)) (stops : List (Stop F)) (routes : List Route)
      (c : Settings F) (mqtt : Bool) (ts : List (Turn F)) (l : Loop F)
      → load_shapes out.shapes_file ≡ ok (shapes, stops, routes)
      → All (λ (v : Vehicle F). IsServable stops shapes v.default_shape_id) make_fleet
      → All (IsOrderly stops shapes) ts
      → l.air.fleet ≡ start_fleet out
      → (turns c (network_of (start_runtime fromisoformat out rt)) mqtt ts l).0 ≡ ok tt
  unfolding network_of start_runtime
  start-turns-return laws fromisoformat out rt shapes stops routes c mqtt ts l loaded served orderly
        fresh =
      rw loaded (
        turns-return laws c _ mqtt ts l orderly (
          subst (λ f. AllServed stops shapes f.by_id) (sym fresh)
            (start_fleet-AllServed stops shapes out served)))
