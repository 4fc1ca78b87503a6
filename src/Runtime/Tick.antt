-- ===== src/Runtime/Tick.antt =====
-- `tick_loop` of simulator_app/runtime.py. What other tasks do to the fleet while a vehicle's
-- telemetry or progression is being sent is a parameter, and so are the chances of a tick. A call
-- of `mqtt.publish` is recorded; an exception of it is caught and changes nothing.
pub mod Keeps
pub mod Mirror
pub mod Track
pub mod Serves
pub mod Deeds
pub mod Returns
pub mod Rides
pub mod Unknown
mod Tests
use mathlib.Core.Option
use databus_sim.Prelude.{
  ℕ, suc, String, Bool, true, false, not, ◌&&◌, ◌||◌, Option, none, some, List, [], ◌∷◌, ◌++◌,
  contains, if◌then◌else◌,
}
use databus_sim.Prelude.Int.{ℤ, pos, ltb_ℤ}
use databus_sim.Float.{Float}
use databus_sim.Dict.{Dict, get, put, keys}
use databus_sim.Effect.{Result, ok, err, Exec, lift, ◌>>=◌, ◌>>◌}
use databus_sim.Fleet.{Vehicle, FleetState, Kin, Progression}
use databus_sim.Fleet.Roster.{Row, snapshot}
use databus_sim.Kinematics.{Shape, Stop, Draws, get_shape, or_else}
use databus_sim.Kinematics.Step.{step_vehicle}
use databus_sim.Kinematics.Payload.{Payloads, Position, Occupancy, build_vehicle_payloads}
use databus_sim.Progression.{ShapeStop, compute_stop_status}
use databus_sim.Broadcast.{Throttle, broadcast_fleet}
use databus_sim.Broadcast.Consumer.{Message, broadcast_telemetry}

pub data Telemetry (F : Type 0) : Type 0 where
  position_data : Position F → Telemetry F
  occupancy_data : Occupancy → Telemetry F
  progression_data : Progression → Telemetry F

abbrev pub leaf_of : {F : Type 0} → Telemetry F → String
leaf_of (position_data p) = "position"
leaf_of (occupancy_data o) = "occupancy"
leaf_of (progression_data p) = "progression"

-- A call of `mqtt.publish`, on the topic root/vehicle_id/leaf.
pub record Publication (F : Type 0) : Type 0 where
  pub topic_root : String
  pub vehicle_id : String
  pub leaf : String
  pub payload : Telemetry F

-- The settings that the loop reads, and POST_RUN_IDLE_S.
pub record Settings (F : Type 0) : Type 0 where
  pub interval : F
  pub only_vehicles : List String
  pub drop_rate : ℤ
  pub stop_all_after : ℤ
  pub topic_root : String
  pub idle_s : ℤ

-- What has been loaded of the network.
pub record Network (F : Type 0) : Type 0 where
  pub shapes : Dict (Shape F)
  pub stops : List (Stop F)
  pub progression_geom : Dict (List (ShapeStop F))

-- What `random` gives to a vehicle in a tick, and the time in seconds.
pub record Chance (F : Type 0) : Type 0 where
  pub roll : ℤ
  pub draws : Draws F
  pub now : ℤ

-- The fleet, and what has been sent to the MQTT broker and to the browser group.
pub record Air (F : Type 0) : Type 0 where
  pub fleet : FleetState F
  pub publications : List (Publication F)
  pub messages : List (Message (Telemetry F))

abbrev is_some_vehicles : List String → Bool
is_some_vehicles [] = false
is_some_vehicles (x ∷ xs) = true

abbrev is_set : ℤ → Bool
is_set n = ltb_ℤ n (pos 0) || ltb_ℤ (pos 0) n

module _ {F : Type 0} where
  -- The two `continue`s in front of a vehicle's step.
  unfoldable pub is_skipped : Settings F → Chance F → Vehicle F → Bool
  is_skipped c chance v =
      is_some_vehicles c.only_vehicles && not (contains v.vehicle_id c.only_vehicles)
      || is_set c.drop_rate && not (ltb_ℤ c.drop_rate chance.roll)

  -- SIM_STOP_ALL_AFTER
  unfoldable pub is_over : Settings F → (cycle : ℕ) → Bool
  is_over c cycle = is_set c.stop_all_after && ltb_ℤ c.stop_all_after (pos cycle)

  abbrev pub publication : Settings F → String → Telemetry F → Publication F
  publication c vid t = record {
    topic_root = c.topic_root;
    vehicle_id = vid;
    leaf = leaf_of t;
    payload = t;
  }

  abbrev pub with_vehicle : String → Vehicle F → Air F → Air F
  with_vehicle vid v w = record w { fleet = record w.fleet { by_id = put w.fleet.by_id vid v } }

  -- (a): nothing is published without a client.
  unfoldable pub publish : Settings F → (mqtt : Bool) → String → Payloads F → Air F → Air F
  publish c false vid p w = w
  publish c true vid p w = record w {
    publications =
        w.publications
        ++ publication c vid (position_data p.position)
          ∷ publication c vid (occupancy_data p.occupancy)
          ∷ [];
  }

  abbrev pub push : String → Telemetry F → Air F → Air F
  push vid t w = record w { messages = w.messages ++ broadcast_telemetry vid (leaf_of t) t ∷ [] }

  -- (b)
  unfoldable pub push_payloads : String → Payloads F → Air F → Air F
  push_payloads vid p w =
      push vid (occupancy_data p.occupancy) (push vid (position_data p.position) w)

  abbrev pub with_prev : Progression → Kin F → Kin F
  with_prev prog k = record k { progression_prev = some prog }

  -- v._kin["progression_prev"] = _prog
  unfoldable pub remember : Progression → Vehicle F → Vehicle F
  remember prog v = record v { kin = Option.map (with_prev prog) v.kin }

  abbrev pub prev_of : Vehicle F → Option Progression
  prev_of v = elim v.kin [ none ↦ none | some k ↦ k.progression_prev ]

-- The waits of a vehicle's part of a tick: for the broadcasts of its payloads, and for that of its
-- progression, where other tasks may change the fleet.
pub data Await : Type 0 where
  telemetry_sent : Await
  progression_sent : Await

module _ {F : Type 0} ⦃fl : Float F⦄ where
  -- The shape, the step and the payloads of a vehicle.
  unfoldable pub sample : Settings F → Network F → Chance F → Exec (Vehicle F) (Option (Payloads F))
  sample c net chance v =
      (lift (get_shape v net.shapes) >>= λ shape.
      step_vehicle c.interval shape net.stops c.idle_s chance.draws
      >> build_vehicle_payloads shape chance.draws chance.now)
        v

  unfoldable pub next_progression : Network F → Payloads F → Vehicle F → Progression
  next_progression net p v =
      compute_stop_status v.progress_m p.position.latitude p.position.longitude
        (Option.get_or (get net.progression_geom (or_else v.bound_shape_id v.default_shape_id)) [])
        p.position.speed (prev_of v)

  -- (c), on the vehicle as it is by then.
  unfoldable pub oracle : Network F → (vid : String) → Payloads F → Air F → Air F
  oracle net vid p w = elim (get w.fleet.by_id vid) [
    | none ↦ w
    | some v ↦
        let prog = next_progression net p v in
        push v.vehicle_id (progression_data prog) (with_vehicle vid (remember prog v) w)
  ]

  module _ (c : Settings F) (net : Network F) (mqtt : Bool) (chance : String → Chance F)
      (others : Await → String → FleetState F → FleetState F) where
    -- What follows on the payloads of a vehicle, with the work of other tasks while it waits.
    unfoldable pub send : (vid vehicle_id : String) → Payloads F → Air F → Air F
    send vid vehicle_id p w =
        let w1 = push_payloads vehicle_id p (publish c mqtt vehicle_id p w) in
        let w2 = oracle net vid p (record w1 { fleet = others telemetry_sent vid w1.fleet }) in
        record w2 { fleet = others progression_sent vid w2.fleet }

    -- What follows on the step of a vehicle and on its payloads.
    unfoldable pub conclude :
        (vid vehicle_id : String) → Result (Option (Payloads F)) → Exec (Air F) (Unit {0})
    conclude vid vehicle_id (err e) w = (err e, w)
    conclude vid vehicle_id (ok none) w = (ok tt, w)
    conclude vid vehicle_id (ok (some p)) w = (ok tt, send vid vehicle_id p w)

    -- One vehicle; an exception ends the loop.
    unfoldable pub tick_vehicle : String → Exec (Air F) (Unit {0})
    tick_vehicle vid w = elim (get w.fleet.by_id vid) [
      | none ↦ (ok tt, w)
      | some v ↦
          if is_skipped c (chance vid) v
          then (ok tt, w)
          else (let (r, v') = sample c net (chance vid) v in
              conclude vid v'.vehicle_id r (with_vehicle vid v' w))
    ]

    unfoldable pub tick_all : List String → Exec (Air F) (Unit {0})
    tick_all [] w = (ok tt, w)
    tick_all (vid ∷ vids) w =
        let (r, w') = tick_vehicle vid w in
        let rest = tick_all vids w' in elim r [ ok _ ↦ rest | err e ↦ (err e, w') ]

-- The state of the loop between two ticks: `fleet_frames` is the throttle of the fleet snapshots.
pub record Loop (F : Type 0) : Type 0 where
  pub air : Air F
  pub cycle : ℕ
  pub fleet_frames : Throttle (List (Row F) × ℕ)

module _ {F : Type 0} ⦃fl : Float F⦄ where
  -- A turn of `while True`. `network` is `none` where no shapes were loaded; the fleet is there
  -- since before the task started.
  unfoldable pub tick :
      Settings F
      → (network : Option (Network F)) → (mqtt : Bool) → (chance : String → Chance F)
      → (others : Await → String → FleetState F → FleetState F) → (now : ℕ)
      → Exec (Loop F) (Unit {0})
  tick c none mqtt chance others now l = (ok tt, record l { cycle = suc l.cycle })
  tick c (some net) mqtt chance others now l =
      let cycle = suc l.cycle in
      if is_over c cycle
      then (ok tt, record l { cycle = cycle })
      else (let (r, air) = tick_all c net mqtt chance others (keys l.air.fleet.by_id) l.air in
          let ticked = record l { air = air; cycle = cycle } in
          elim r [
            | err e ↦ (err e, ticked)
            | ok _ ↦ (
              ok tt,
              record ticked {
                fleet_frames = broadcast_fleet now (snapshot air.fleet now) l.fleet_frames;
              },
            )
          ])
