-- ===== src/Runtime/Fresh.antt =====
-- What holds of each vehicle of the fleet with which simulator_app/runtime.py starts.
use databus_sim.Prelude.{◌≡◌, subst, String, some, List, [], ◌∷◌, All, str_eq, Bool-cases, inl, inr}
use mathlib.Core.Option.{some-injective}
use databus_sim.Float.{Float}
use databus_sim.Dict.{Dict, get, put}
use databus_sim.Fleet.{Vehicle}
use databus_sim.Fleet.Roster.{new_fleet, new_vehicle, make_fleet, index_by_id}
use databus_sim.Kinematics.{Draws}
use databus_sim.Runtime.Tick.Keeps.{AllOf, AllOf-put}
use databus_sim.Runtime.Start.{Surroundings, prepare, prepare_one, start_fleet}

module _ {F : Type 0} ⦃fl : Float F⦄ where
  index_by_id-AllOf :
      (P : String → Vehicle F → Type 0) (vs : List (Vehicle F)) (d : Dict (Vehicle F))
      → All (λ v. P v.vehicle_id v) vs
      → AllOf P d
      → AllOf P (index_by_id vs d)
  unfolding index_by_id
  index_by_id-AllOf P [] d hs h = h
  index_by_id-AllOf P (v ∷ vs) d hs h =
      index_by_id-AllOf P vs (put d v.vehicle_id v) hs.1 (AllOf-put P d v.vehicle_id v h hs.0)

  -- What is found after the preparation was prepared from what was there.
  prepare-found :
      (draws : String → Draws F) (stop_vehicles : List String) (d : Dict (Vehicle F)) (k : String)
      (v' : Vehicle F)
      → get (prepare draws stop_vehicles d) k ≡ some v'
      → (j : String) × (v : Vehicle F) × (get d k ≡ some v)
        × (prepare_one (draws j) stop_vehicles v ≡ v')
  unfolding prepare get
  prepare-found draws stop_vehicles [] k v' e = cc
  prepare-found draws stop_vehicles ((j, v) ∷ d) k v' e = elim (Bool-cases (str_eq j k)) [
    | inl same ↦ (j, v, rw same, some-injective _ _ (rw same at e))
    | inr other ↦
        let (i, w, found, prepared) = prepare-found draws stop_vehicles d k v' (rw other at e) in
        (i, w, rw other found, prepared)
  ]

  module _ (Q : String → Type 0) (P : Vehicle F → Type 0)
      (new : (vehicle_id route_id shape_id : String)
        → Q shape_id
        → P (new_vehicle vehicle_id route_id shape_id)) where
    make_fleet-All : All (λ (v : Vehicle F). Q v.default_shape_id) make_fleet → All P make_fleet
    make_fleet-All (h1, (h2, (h3, (h4, (h5, (h6, rest)))))) = (
      new _ _ _ h1,
      (new _ _ _ h2, (new _ _ _ h3, (new _ _ _ h4, (new _ _ _ h5, (new _ _ _ h6, tt))))),
    )

    -- What the default shape of a new vehicle gives it, and the preparation leaves to it, each
    -- vehicle of the start has.
    pub start_fleet-AllOf :
        (out : Surroundings F)
        → ((r : Draws F) (v : Vehicle F) → P v → P (prepare_one r out.stop_vehicles v))
        → All (λ (v : Vehicle F). Q v.default_shape_id) make_fleet
        → AllOf (λ k. P) (start_fleet out).by_id
    unfolding start_fleet new_fleet get
    start_fleet-AllOf out keeps hs k v' found =
        let (j, v, before, prepared) = prepare-found out.draws out.stop_vehicles _ k v' found in
        subst P prepared (
          keeps (out.draws j) v
            (index_by_id-AllOf (λ k. P) make_fleet [] (make_fleet-All hs) (λ i u e. cc) k v before))
