-- ===== src/Runtime/Tick/Mirror.antt =====
-- What the ticks of simulator_app/runtime.py send to the MQTT broker.
use databus_sim.Prelude.{
  ℕ, String, ◌≡◌, refl, ap, ◌∙◌, sym, true, Option, none, some, List, [], ◌∷◌, ◌++◌, inl, inr,
  Bool-cases, Option-cases,
}
use mathlib.Core.List.{append_assoc, append-nil}
use databus_sim.Float.{Float}
use databus_sim.Dict.{get}
use databus_sim.Effect.{Result, ok, err}
use databus_sim.Fleet.{FleetState}
use databus_sim.Kinematics.Payload.{Payloads}
use databus_sim.Broadcast.Consumer.{Message, broadcast_telemetry}
use databus_sim.Runtime.Tick.Keeps.{tick-keeps}
use databus_sim.Runtime.Tick.{
  Await, Settings, Network, Chance, Air, Loop, Telemetry, position_data, occupancy_data,
  progression_data, Publication, publication, is_skipped, publish, push_payloads, oracle, send,
  conclude, tick_vehicle, tick, next_progression,
}

module _ {F : Type 0} where
  -- The MQTT messages that a telemetry stands for: none, for a progression.
  unfoldable pub mirror_one : Settings F → (vid : String) → Telemetry F → List (Publication F)
  mirror_one c vid (position_data p) = publication c vid (position_data p) ∷ []
  mirror_one c vid (occupancy_data o) = publication c vid (occupancy_data o) ∷ []
  mirror_one c vid (progression_data p) = []

  unfoldable pub mirror : Settings F → List (Message (Telemetry F)) → List (Publication F)
  mirror c [] = []
  mirror c (m ∷ ms) =
      let rest = mirror c ms in
      elim m.vehicle_id [
        | none ↦ rest
        | some vid ↦ elim m.payload [ none ↦ rest | some t ↦ mirror_one c vid t ++ rest ]
      ]

  mirror-append :
      (c : Settings F) (xs ys : List (Message (Telemetry F)))
      → mirror c (xs ++ ys) ≡ mirror c xs ++ mirror c ys
  unfolding mirror
  mirror-append c [] ys = refl
  mirror-append c (m ∷ xs) ys = elim (Option-cases m.vehicle_id) [
    | inl absent ↦ rw (absent, mirror) (mirror-append c xs ys)
    | inr (vid, named) ↦ elim (Option-cases m.payload) [
      | inl empty ↦ rw (named, empty, mirror) (mirror-append c xs ys)
      | inr (t, filled) ↦
          rw (named, filled, mirror)
            (ap (λ zs. mirror_one c vid t ++ zs) (mirror-append c xs ys)
              ∙ sym (append_assoc (mirror_one c vid t) (mirror c xs) (mirror c ys)))
    ]
  ]

  -- What has gone to the broker is what has gone to the browser group, without the progressions.
  pub record IsMirrored (c : Settings F) (w : Air F) : Type 0 where
    pub same : w.publications ≡ mirror c w.messages

  publish-IsMirrored :
      (c : Settings F) (vid : String) (p : Payloads F) (w : Air F)
      → IsMirrored c w
      → IsMirrored c (push_payloads vid p (publish c true vid p w))
  unfolding push_payloads publish mirror mirror_one broadcast_telemetry
  publish-IsMirrored c vid p w h =
      let first = broadcast_telemetry vid "position" (position_data p.position) in
      let second = broadcast_telemetry vid "occupancy" (occupancy_data p.occupancy) in
      let both =
        publication c vid (position_data p.position)
        ∷ publication c vid (occupancy_data p.occupancy)
        ∷ [] in
      record {
        same =
            ap (λ zs. zs ++ both) h.same
            ∙ sym (
                mirror-append c (w.messages ++ first ∷ []) (second ∷ [])
                ∙ ap (λ zs. zs ++ mirror c (second ∷ [])) (mirror-append c w.messages (first ∷ []))
                ∙ append_assoc (mirror c w.messages) _ _);
      }

module _ {F : Type 0} ⦃fl : Float F⦄ (c : Settings F) (net : Network F) (chance : String → Chance F)
    (others : Await → String → FleetState F → FleetState F) where
  oracle-IsMirrored :
      (vid : String) (p : Payloads F) (w : Air F)
      → IsMirrored c w
      → IsMirrored c (oracle net vid p w)
  unfolding oracle broadcast_telemetry mirror mirror_one
  oracle-IsMirrored vid p w h = elim (Option-cases (get w.fleet.by_id vid)) [
    | inl missing ↦ rw (missing, oracle) h
    | inr (v, found) ↦
        let m =
          broadcast_telemetry v.vehicle_id "progression"
            (progression_data (next_progression net p v)) in
        rw (found, oracle)
          (record {
            same =
                h.same
                ∙ sym (mirror-append c w.messages (m ∷ []) ∙ append-nil (mirror c w.messages));
          })
  ]

  conclude-IsMirrored :
      (vid vehicle_id : String) (r : Result (Option (Payloads F))) (w : Air F)
      → IsMirrored c w
      → IsMirrored c (conclude c net true chance others vid vehicle_id r w).1
  unfolding conclude send
  conclude-IsMirrored vid vehicle_id (err e) w h = h
  conclude-IsMirrored vid vehicle_id (ok none) w h = h
  conclude-IsMirrored vid vehicle_id (ok (some p)) w h =
      let waited =
        oracle-IsMirrored vid p _
          (record { same = (publish-IsMirrored c vehicle_id p w h).same }) in
      record { same = waited.same }

  tick_vehicle-IsMirrored :
      (vid : String) (w : Air F)
      → IsMirrored c w
      → IsMirrored c (tick_vehicle c net true chance others vid w).1
  unfolding tick_vehicle
  tick_vehicle-IsMirrored vid w h = elim (Option-cases (get w.fleet.by_id vid)) [
    | inl missing ↦ rw (missing, tick_vehicle) h
    | inr (v, found) ↦ elim (Bool-cases (is_skipped c (chance vid) v)) [
      | inl skipped ↦ rw (found, skipped, tick_vehicle) h
      | inr taken ↦
          rw (found, taken, tick_vehicle) (conclude-IsMirrored vid _ _ _ (record { same = h.same }))
    ]
  ]

  -- With an MQTT client, a tick keeps this, whether it returns or raises: the messages to the
  -- broker are the positions and the occupancies of the telemetry to the browser group, for the
  -- same vehicles and in the same order, and no progression is among them.
  pub tick-IsMirrored :
      (now : ℕ) (l : Loop F)
      → IsMirrored c l.air
      → IsMirrored c (tick c (some net) true chance others now l).1.air
  tick-IsMirrored = tick-keeps c net true chance others (IsMirrored c) tick_vehicle-IsMirrored
