-- ===== src/Runtime/Degraded.antt =====
-- simulator_app/runtime.py after a start that could not read the shapes.
use databus_sim.Prelude.{
  ℕ, suc, String, ◌≡◌, refl, ap, ◌∙◌, Bool, false, Option, some, List, [], ◌∷◌, arith, str_eq, inl,
  inr, Bool-cases,
}
use databus_sim.Prelude.Int.{pos}
use databus_sim.Float.{Float}
use databus_sim.Dict.{Dict, get, put, keys}
use databus_sim.Effect.{err, Error, key_error}
use databus_sim.Fleet.{Vehicle, FleetState}
use databus_sim.Fleet.Roster.{new_fleet, new_vehicle, make_fleet, index_by_id}
use databus_sim.Kinematics.{Draws, get_shape}
use databus_sim.Scheduler.{Instant}
use databus_sim.Runtime.Tick.{
  Await, Settings, Network, Chance, Loop, is_skipped, is_over, tick_all, tick,
}
use databus_sim.Runtime.Tick.Unknown.{tick-unknown}
use databus_sim.Runtime.Start.{
  Runtime, Surroundings, load_shapes, prepare, prepare_one, start_fleet, start_runtime, network_of,
  progression_geometry,
}

module _ {F : Type 0} ⦃fl : Float F⦄ (draws : String → Draws F) (stop_vehicles : List String) where
  keys-prepare : (d : Dict (Vehicle F)) → keys (prepare draws stop_vehicles d) ≡ keys d
  unfolding prepare
  keys-prepare [] = refl
  keys-prepare ((k, v) ∷ d) = ap (λ ks. k ∷ ks) (keys-prepare d)

  get-prepare :
      (d : Dict (Vehicle F)) (k : String) (v : Vehicle F)
      → get d k ≡ some v
      → (v' : Vehicle F) × (get (prepare draws stop_vehicles d) k ≡ some v')
  unfolding get prepare
  get-prepare [] k v h = cc
  get-prepare ((j, u) ∷ d) k v h = elim (Bool-cases (str_eq j k)) [
    | inl same ↦ (prepare_one (draws j) stop_vehicles u, rw same)
    | inr other ↦ let (v', found) = get-prepare d k v (rw other at h) in (v', rw other found)
  ]

module _ {F : Type 0} ⦃fl : Float F⦄ where
  takes_all :
      (c : Settings F) (chance : Chance F) (v : Vehicle F)
      → c.only_vehicles ≡ []
      → c.drop_rate ≡ pos 0
      → is_skipped c chance v ≡ false
  unfolding is_skipped
  takes_all c chance v all sure = ground arith

  no_shapes :
      (fromisoformat : String → Option Instant) (out : Surroundings F) (rt : Runtime F) (e : Error)
      → load_shapes out.shapes_file ≡ err e
      → (net : Network F) × (net.shapes ≡ [])
        × (network_of (start_runtime fromisoformat out rt) ≡ some net)
  unfolding network_of start_runtime
  no_shapes fromisoformat out rt e unreadable =
      let out_net : Network F = record {
        shapes = [];
        stops = [];
        progression_geom = progression_geometry out.again [];
      } in
      (out_net, refl, rw unreadable)

  -- When the shapes file could not be loaded at start-up, a tick over the fleet of that start
  -- raises KeyError and ends the loop, with no vehicle moved and nothing sent, if the settings
  -- name no single vehicles, drop none at random, and do not stop all by that cycle.
  pub tick_unreadable :
      (fromisoformat : String → Option Instant) (out : Surroundings F) (rt : Runtime F) (e : Error)
      (c : Settings F) (mqtt : Bool) (chance : String → Chance F)
      (others : Await → String → FleetState F → FleetState F) (now : ℕ) (l : Loop F)
      → load_shapes out.shapes_file ≡ err e
      → c.only_vehicles ≡ []
      → c.drop_rate ≡ pos 0
      → is_over c (suc l.cycle) ≡ false
      → l.air.fleet ≡ start_fleet out
      → tick c (network_of (start_runtime fromisoformat out rt)) mqtt chance others now l
        ≡ (err key_error, record l { cycle = suc l.cycle })
  unfolding tick_all get_shape get start_fleet new_fleet index_by_id put
  tick_unreadable fromisoformat out rt e c mqtt chance others now l unreadable all sure under
        fresh =
      let (net, none_there, known) = no_shapes fromisoformat out rt e unreadable in
      let (v, found) =
        get-prepare out.draws out.stop_vehicles (new_fleet make_fleet).by_id "unit-01"
          (new_vehicle "unit-01" "bUCR_L1" "hacia_artes") refl in
      let fleet : l.air.fleet.by_id ≡ (start_fleet out).by_id = ap (λ f. f.by_id) fresh in
      rw known (
        tick-unknown c net mqtt chance others [] "unit-01"
          ("unit-02" ∷ "unit-03" ∷ "unit-04" ∷ "unit-05" ∷ "unit-06" ∷ []) v now l l.air
          (ap keys fleet ∙ keys-prepare out.draws out.stop_vehicles (new_fleet make_fleet).by_id)
          under refl (ap (λ d. get d "unit-01") fleet ∙ found)
          (takes_all c (chance "unit-01") v all sure) (rw none_there))
