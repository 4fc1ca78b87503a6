-- ===== src/Lib.antt =====
-- databus-sim: a simulator of a bus fleet. It moves vehicles along shapes, emits their telemetry,
-- and follows the lifecycle of runs that an external databus keeps.
--
-- The parts and the files that model them (paths from the repository's root):
-- * Fleet.antt and Fleet/: simulator_app/domain/fleet.py. A `FleetState` is the dict of vehicles,
--   the list `on_change` and the calls of callbacks so far. Every mutator is an action on it that
--   returns or raises; `Roster` has the fixed fleet and the snapshot, `Changes` and `Invariant`
--   the mutators as values and what they keep, `Runs` the effect of chains of mutators.
-- * Kinematics.antt and Kinematics/: simulator_app/domain/kinematics.py. `Step` is
--   `step_vehicle`, `Payload` is `build_vehicle_payloads`, `Search` and `Placement` are about
--   `interpolate`, `Motion`, `Rules` and `Countdown` about one tick and many ticks, `Faults`
--   about injected faults.
-- * Progression.antt and Progression/: simulator_app/domain/progression/compute.py, the stop
--   status of a vehicle, on which `Upcoming`, `Floor` and `Trip` prove.
-- * RunBinder.antt and RunBinder/: simulator_app/services/run_binder.py. `poll_start` and
--   `poll_finish` are the two halves of a round of `poll_loop`, before and after its `await`;
--   `apply_state` calls the mutators of the fleet. `Refinement` has the lifecycle of runs as an
--   abstract machine over the duties of the vehicles. `Manned` and `Survives` are about runs
--   whose vehicles are in the fleet, `Bindings` is what it shows of its runs.
-- * Control.antt and Control/: simulator_app/domain/control.py. A request's handler is an action
--   on the fleet; `Dispatch` has the entry points, `Parts` what a handler can call, `Confined`
--   and `Bounds` what requests keep.
-- * Geometry.antt and Geometry/: simulator_app/domain/progression/geo.py and shapes.py. `Assign`
--   is the dynamic program that places the stops of a shape on its segments; `Price` has the cost
--   of such an assignment, `Row`, `Below`, `Trace`, `Monotone`, `Cheapest`, `Clamp` and `Placed`
--   are about the program. `Route` is the geometry of a route.
-- * Broadcast.antt and Broadcast/: simulator_app/realtime/broadcast.py and consumers.py. `Run`
--   has the interleavings of calls and of the deferred task's wake, `Spacing` is about them,
--   `Consumer` has the messages and the frames.
-- * Databus.antt and Databus/: simulator_app/services/databus_client.py. A request is a function
--   of what httpx gives. `Connection` has its opening and closing, `Terminal` is about the last
--   stop of a trip, `Outage` about the poll of a run while the databus does not answer.
-- * Scheduler.antt and Scheduler/: simulator_app/services/scheduler.py. `Dispatch` has `run_loop`
--   and `_dispatch_entry` over a `World`: the schedule, the binder and what has been asked,
--   published and arranged. `Life` has sequences of loads and rounds, `Statuses`, `Once`, `Links`
--   and `Stuck` are about them; `Validation` and `Reload` are about the documents, `Tasks` has
--   the callbacks and tasks.
-- * Runtime.antt and Runtime/: simulator_app/runtime.py. `Tick` is `tick_loop`, which composes
--   the kinematics, the payloads, the stop status and the broadcast; `Keeps`, `Track`, `Mirror`
--   and `Unknown` are about it; `Serves`, `Returns` and `Rides` about turn after turn of it, with
--   the `Deeds` of other tasks. `Start` is `load_shapes` and `start_runtime`, `Numbering` is
--   about the stop lists that it makes for the stop status, `Degraded` about the tick after a
--   start without shapes, `Alive` and its `Routes` about the loop after a start with them, whose
--   fleet `Fresh` is about. `Stop` is `stop_runtime` and the lifespan handler of
--   sim_project/asgi.py.
-- * Api.antt and Api/: simulator_app/api/views.py and serializers.py. A view is a function on the
--   parts of the runtime that it uses; `Edit` is about the PUT of a schedule, `Serializer` about
--   what is accepted, `Events` has requests and the rounds of the poller, in any order, and
--   `Polls` is about them; `Office` adds the scheduler, on the same binder, with `Steady` and
--   `Shared`.
-- * Proxy.antt and Proxy/: simulator_app/api/proxy.py. The view gives the request that goes to
--   the databus and the answer.
-- * Settings.antt and Settings/: the environment that sim_project/settings.py reads; `Vehicles`
--   is about its lists of vehicles.
-- * Navsat.antt and Navsat/: simulator_app/services/navsat_client.py and navsat_poller.py.
-- Shared: Prelude (names and Boolean tests), Dict (Python's dict), Effect (methods that may
-- raise), Float (the type of floats and its operations), Text (Python's operations on texts).
--
-- Floats are a parameter: a type with the operations that the code uses (record `Float`). The
-- facts of IEEE arithmetic that a proof needs are the fields of `IsOrdered`; `Float.Sample` has
-- values that meet them. `math.sin`, `cos`, `asin`, `sqrt` and `** 2` may raise, as in Python, so
-- their results are results or errors. The current time, the random draws, the databus's replies
-- and the shapes are arguments, and so is the text that stands for a dwell stop id that is no
-- text (the code stores it unchecked). A binding is an object with an identity, so that a round
-- that waits for its reply writes to the binding that it read. The search in `interpolate`
-- recurses on fuel, the number of points; it halves its interval, so this is enough.
--
-- YAML, `fromisoformat` and the answers of the databus are parameters. In a tick, what other
-- tasks do to the fleet while telemetry and progressions are being sent is a parameter too, in
-- turns of the loop as a list of `Deeds`; nothing else runs while a dispatch of the scheduler
-- waits for the databus.
--
-- A point of the shapes file is two or three numbers for `load_shapes`; a null distance there is
-- no value of the model (the geometry of the routes, which takes a null distance, has it). A
-- default of a schedule is a whole number, null or missing.
--
-- Not modelled: reading and writing files, HTTP and MQTT themselves, asyncio's scheduling,
-- logging, the Django framework with its own settings. The callbacks of the fleet are taken not
-- to raise.
mod Prelude
pub mod Text
pub mod Dict
pub mod Float
pub mod Effect
pub mod Fleet
pub mod Kinematics
pub mod Progression
pub mod RunBinder
pub mod Control
pub mod Geometry
pub mod Broadcast
pub mod Databus
pub mod Scheduler
pub mod Runtime
pub mod Settings
pub mod Proxy
pub mod Api
pub mod Navsat
