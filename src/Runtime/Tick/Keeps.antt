-- ===== src/Runtime/Tick/Keeps.antt =====
-- What holds of every vehicle through the ticks of simulator_app/runtime.py.
use databus_sim.Prelude.{
  ℕ, suc, String, ◌≡◌, refl, Bool, true, false, Option, none, some, List, [], ◌∷◌, inl, inr,
  Bool-cases, Option-cases,
}
use databus_sim.Float.{Float}
use databus_sim.Dict.{Dict, get, put, put-found, keys}
use databus_sim.Effect.{Result, ok, err, Result-cases}
use databus_sim.Fleet.{Vehicle, FleetState, Progression, mutate}
use databus_sim.Fleet.Changes.{mutate-found}
use databus_sim.Kinematics.Payload.{Payloads}
use databus_sim.Runtime.Tick.{
  Await, telemetry_sent, progression_sent, Settings, Network, Chance, Air, Loop, is_skipped,
  publish, push_payloads, remember, sample, oracle, send, tick_vehicle, tick_all, tick,
  next_progression, conclude, is_over,
}

module _ {F : Type 0} where
  -- `P` holds of each vehicle under its key.
  abbrev pub AllOf : (String → Vehicle F → Type 0) → Dict (Vehicle F) → Type 0
  AllOf P d = (k : String) (v : Vehicle F) → get d k ≡ some v → P k v

  pub AllOf-put :
      (P : String → Vehicle F → Type 0) (d : Dict (Vehicle F)) (k : String) (v : Vehicle F)
      → AllOf P d
      → P k v
      → AllOf P (put d k v)
  AllOf-put P d k v all p j w found = elim (put-found d k j v w found) [
    | inl (here, new) ↦ rw (new, ← here) p
    | inr old ↦ all j w old
  ]

  pub mutate-AllOf :
      (P : String → Vehicle F → Type 0) (vid : String) (f : Vehicle F → Vehicle F)
      (s : FleetState F)
      → ((k : String) (v : Vehicle F) → P k v → P k (f v))
      → AllOf P s.by_id
      → AllOf P (mutate vid f s).1.by_id
  mutate-AllOf P vid f s keeps all k v found = elim (mutate-found vid f s k v found) [
    | inl (w, before, new) ↦ rw new (keeps k w (all k w before))
    | inr before ↦ all k v before
  ]

  push_payloads-fleet :
      (c : Settings F) (mqtt : Bool) (vid : String) (p : Payloads F) (w : Air F)
      → (push_payloads vid p (publish c mqtt vid p w)).fleet ≡ w.fleet
  unfolding push_payloads publish
  push_payloads-fleet c false vid p w = refl
  push_payloads-fleet c true vid p w = refl

module _ {F : Type 0} ⦃fl : Float F⦄ (c : Settings F) (net : Network F) (mqtt : Bool)
    (chance : String → Chance F) (others : Await → String → FleetState F → FleetState F)
    (Q : Air F → Type 0)
    (vehicle-keeps : (vid : String) (w : Air F)
      → Q w
      → Q (tick_vehicle c net mqtt chance others vid w).1) where
  tick_all-keeps :
      (vids : List String) (w : Air F) → Q w → Q (tick_all c net mqtt chance others vids w).1
  unfolding tick_all
  tick_all-keeps [] w q = q
  tick_all-keeps (vid ∷ vids) w q =
      let here = vehicle-keeps vid w q in
      let rest = tick_all-keeps vids _ here in
      elim (Result-cases (tick_vehicle c net mqtt chance others vid w).0) [
        | inl (a, returned) ↦ rw (returned, tick_all) rest
        | inr (error, failed) ↦ rw (failed, tick_all) here
      ]

  -- What one vehicle's part of a tick keeps, the tick keeps, whether it returns or raises.
  pub tick-keeps :
      (now : ℕ) (l : Loop F) → Q l.air → Q (tick c (some net) mqtt chance others now l).1.air
  unfolding tick
  tick-keeps now l q =
      let ticked = tick_all-keeps (keys l.air.fleet.by_id) l.air q in
      elim (Bool-cases (is_over c (suc l.cycle))) [
        | inl over ↦ rw (over, tick) q
        | inr under ↦
            elim (Result-cases
              (tick_all c net mqtt chance others (keys l.air.fleet.by_id) l.air).0) [
                | inl (a, returned) ↦ rw (under, returned, tick) ticked
                | inr (error, failed) ↦ rw (under, failed, tick) ticked
              ]
      ]

module _ {F : Type 0} ⦃fl : Float F⦄ (c : Settings F) (net : Network F) (mqtt : Bool)
    (chance : String → Chance F) (others : Await → String → FleetState F → FleetState F)
    (P : String → Vehicle F → Type 0)
    (sample-keeps : (k : String) (v : Vehicle F) → P k v → P k (sample c net (chance k) v).1)
    (remember-keeps : (k : String) (v : Vehicle F) (prog : Progression)
      → P k v
      → P k (remember prog v))
    (others-keep : (wait : Await) (vid : String) (s : FleetState F)
      → AllOf P s.by_id
      → AllOf P (others wait vid s).by_id) where
  oracle-keeps :
      (vid : String) (p : Payloads F) (w : Air F)
      → AllOf P w.fleet.by_id
      → AllOf P (oracle net vid p w).fleet.by_id
  unfolding oracle
  oracle-keeps vid p w all = elim (Option-cases (get w.fleet.by_id vid)) [
    | inl missing ↦ rw (missing, oracle) all
    | inr (v, found) ↦
        rw (found, oracle)
          (AllOf-put P w.fleet.by_id vid _ all
            (remember-keeps vid v (next_progression net p v) (all vid v found)))
  ]

  send-keeps :
      (vid vehicle_id : String) (p : Payloads F) (w : Air F)
      → AllOf P w.fleet.by_id
      → AllOf P (send c net mqtt chance others vid vehicle_id p w).fleet.by_id
  unfolding send
  send-keeps vid vehicle_id p w all =
      let waited =
        others-keep telemetry_sent vid _ (rw (push_payloads-fleet c mqtt vehicle_id p w) all) in
      others-keep progression_sent vid _ (oracle-keeps vid p _ waited)

  conclude-keeps :
      (vid vehicle_id : String) (r : Result (Option (Payloads F))) (w : Air F)
      → AllOf P w.fleet.by_id
      → AllOf P (conclude c net mqtt chance others vid vehicle_id r w).1.fleet.by_id
  unfolding conclude
  conclude-keeps vid vehicle_id (err e) w all = all
  conclude-keeps vid vehicle_id (ok none) w all = all
  conclude-keeps vid vehicle_id (ok (some p)) w all = send-keeps vid vehicle_id p w all

  pub tick_vehicle-keeps :
      (vid : String) (w : Air F)
      → AllOf P w.fleet.by_id
      → AllOf P (tick_vehicle c net mqtt chance others vid w).1.fleet.by_id
  unfolding tick_vehicle
  tick_vehicle-keeps vid w all = elim (Option-cases (get w.fleet.by_id vid)) [
    | inl missing ↦ rw (missing, tick_vehicle) all
    | inr (v, found) ↦ elim (Bool-cases (is_skipped c (chance vid) v)) [
      | inl skipped ↦ rw (found, skipped, tick_vehicle) all
      | inr taken ↦
          rw (found, taken, tick_vehicle)
            (conclude-keeps vid _ _ _
              (AllOf-put P w.fleet.by_id vid _ all (sample-keeps vid v (all vid v found))))
    ]
  ]

  -- What a step with its payloads, a remembered progression and the other tasks keep of each
  -- vehicle, a tick keeps, whether it returns or raises.
  pub tick-AllOf :
      (now : ℕ) (l : Loop F)
      → AllOf P l.air.fleet.by_id
      → AllOf P (tick c (some net) mqtt chance others now l).1.air.fleet.by_id
  tick-AllOf = tick-keeps c net mqtt chance others (λ w. AllOf P w.fleet.by_id) tick_vehicle-keeps
