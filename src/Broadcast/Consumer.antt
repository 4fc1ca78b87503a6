-- ===== src/Broadcast/Consumer.antt =====
-- The messages of simulator_app/realtime/broadcast.py and the WebSocket consumer of
-- simulator_app/realtime/consumers.py that relays them. `P` is the type of JSON payloads; a frame
-- is what `send_json` is called with. A missing key raises KeyError.
use databus_sim.Prelude.{
  String, ◌≡◌, refl, Option, none, some, List, [], ◌∷◌, ◌++◌, str_eq, if◌then◌else◌,
}
use mathlib.Core.Option
use databus_sim.Effect.{Result, ok, required, ◌>=>◌}

-- A message to the group.
pub record Message (P : Type 0) : Type 0 where
  pub kind : Option String
  pub vehicle_id : Option String
  pub leaf : Option String
  pub payload : Option P

pub data Frame (P : Type 0) : Type 0 where
  fleet schedule navsat : P → Frame P
  telemetry : (vehicle_id leaf : String) → P → Frame P

module _ {P : Type 0} where
  unfoldable pub fleet_message : P → Message P
  fleet_message payload = record {
    kind = some "fleet";
    vehicle_id = none;
    leaf = none;
    payload = some payload;
  }

  unfoldable pub broadcast_schedule : P → Message P
  broadcast_schedule payload = record {
    kind = some "schedule";
    vehicle_id = none;
    leaf = none;
    payload = some payload;
  }

  unfoldable pub broadcast_navsat : P → Message P
  broadcast_navsat payload = record {
    kind = some "navsat";
    vehicle_id = none;
    leaf = none;
    payload = some payload;
  }

  unfoldable pub broadcast_telemetry : (vehicle_id leaf : String) → P → Message P
  broadcast_telemetry vehicle_id leaf payload = record {
    kind = some "telemetry";
    vehicle_id = some vehicle_id;
    leaf = some leaf;
    payload = some payload;
  }

  -- The frames that `fleet_update` sends for a message.
  unfoldable pub fleet_update : Message P → Result (List (Frame P))
  fleet_update event =
      let kind = Option.get_or event.kind "fleet" in
      if str_eq kind "fleet"
      then (required event.payload >=> λ p. ok (fleet p ∷ []))
      else if str_eq kind "schedule"
      then (required event.payload >=> λ p. ok (schedule p ∷ []))
      else if str_eq kind "telemetry"
      then (required event.vehicle_id >=> λ v.
          required event.leaf >=> λ l. required event.payload >=> λ p. ok (telemetry v l p ∷ []))
      else if str_eq kind "navsat"
      then (required event.payload >=> λ p. ok (navsat p ∷ []))
      else ok []

  abbrev pub frame_if : (P → Frame P) → Option P → List (Frame P)
  frame_if frame none = []
  frame_if frame (some p) = frame p ∷ []

  -- The frames that `connect` sends: the current snapshots, where they are there. An empty navsat
  -- snapshot counts as none.
  unfoldable pub connect :
      (fleet_snapshot schedule_snapshot navsat_snapshot : Option P) → List (Frame P)
  connect fleet_snapshot schedule_snapshot navsat_snapshot =
      frame_if fleet fleet_snapshot
      ++ frame_if schedule schedule_snapshot
      ++ frame_if navsat navsat_snapshot

  -- A frame as the group message that stands for it.
  unfoldable pub to_message : Frame P → Message P
  to_message (fleet p) = fleet_message p
  to_message (schedule p) = broadcast_schedule p
  to_message (navsat p) = broadcast_navsat p
  to_message (telemetry v l p) = broadcast_telemetry v l p

  -- Every message that a broadcast helper sends comes out of the consumer as exactly one frame,
  -- with its kind, its vehicle, its leaf and its payload unchanged.
  pub fleet_update-to_message : (f : Frame P) → fleet_update (to_message f) ≡ ok (f ∷ [])
  unfolding fleet_update to_message fleet_message broadcast_schedule broadcast_navsat
      broadcast_telemetry
  fleet_update-to_message (fleet p) = refl
  fleet_update-to_message (schedule p) = refl
  fleet_update-to_message (navsat p) = refl
  fleet_update-to_message (telemetry v l p) = refl
