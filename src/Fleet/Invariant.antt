-- ===== src/Fleet/Invariant.antt =====
-- What stays true of the fleet under any sequence of mutator calls.
use databus_sim.Prelude.{
  String, Bool, true, false, ◌≡◌, Option, none, some, List, [], ◌∷◌, arith, inl, inr, All,
}
use databus_sim.Float.{Float}
use databus_sim.Dict.{Dict, get, put, put-found}
use databus_sim.Fleet
use databus_sim.Fleet.{Vehicle, FleetState, mutate}
use databus_sim.Fleet.Roster.{new_vehicle, new_fleet, make_fleet, index_by_id}
use databus_sim.Fleet.Changes.{Change, perform, mutate-found}
use databus_sim.Fleet.Changes

abbrev pub present {ℓ} : {A : Type ℓ} → Option A → Bool
present none = false
present (some a) = true

-- A vehicle stands under its own id, the three ids of a bound run come and go together, and only a
-- bound vehicle has a terminal stop.
pub record IsSound {F : Type 0} (k : String) (v : Vehicle F) : Type 0 where
  pub keyed : v.vehicle_id ≡ k
  pub trip : present v.bound_trip_id ≡ present v.bound_run_id
  pub shape : present v.bound_shape_id ≡ present v.bound_run_id
  pub terminal : v.bound_run_id ≡ none → v.terminal_stop_id ≡ none

pub record IsWellFormed {F : Type 0} (s : FleetState F) : Type 0 where
  pub sound : (k : String) (v : Vehicle F) → get s.by_id k ≡ some v → IsSound k v

module _ {F : Type 0} where
  pub mutate-IsWellFormed :
      (vid : String) (f : Vehicle F → Vehicle F) (s : FleetState F)
      → ((k : String) (v : Vehicle F) → IsSound k v → IsSound k (f v))
      → IsWellFormed s
      → IsWellFormed (mutate vid f s).1
  mutate-IsWellFormed vid f s keeps h = record {
    sound = λ k v found. elim (mutate-found vid f s k v found) [
      | inl (w, before, changed) ↦ rw changed (keeps k w (h.sound k w before))
      | inr before ↦ h.sound k v before
    ];
  }

module _ {F : Type 0} ⦃fl : Float F⦄ where
  pub perform-IsWellFormed :
      (c : Change F) (s : FleetState F) → IsWellFormed s → IsWellFormed (perform c s).1
  unfolding perform Fleet.set_transmitting Fleet.set_moving Fleet.set_speed_override
      Fleet.set_occupancy_override Fleet.set_dwell_override Fleet.bind_run Fleet.unbind_run
      Fleet.set_lifecycle_state
  perform-IsWellFormed (Changes.transmitting vid on now) s h =
      mutate-IsWellFormed vid _ s (λ k v u. ground arith) h
  perform-IsWellFormed (Changes.bind vid run_id trip_id shape_id terminal_stop_id now) s h =
      mutate-IsWellFormed vid _ s (λ k v u. ground arith) h
  perform-IsWellFormed (Changes.unbind vid now) s h =
      mutate-IsWellFormed vid _ s (λ k v u. ground arith) h
  perform-IsWellFormed (Changes.moving vid on now) s h =
      mutate-IsWellFormed vid _ s (λ k v u. ground arith) h
  perform-IsWellFormed (Changes.speed vid value) s h =
      mutate-IsWellFormed vid _ s (λ k v u. ground arith) h
  perform-IsWellFormed (Changes.occupancy vid value) s h =
      mutate-IsWellFormed vid _ s (λ k v u. ground arith) h
  perform-IsWellFormed (Changes.dwell vid stop_id ticks) s h =
      mutate-IsWellFormed vid _ s (λ k v u. ground arith) h
  perform-IsWellFormed (Changes.lifecycle vid state now) s h =
      mutate-IsWellFormed vid _ s (λ k v u. ground arith) h

  -- Calls of mutators in any order, an exception ending only its own call.
  unfoldable pub perform_all : List (Change F) → FleetState F → FleetState F
  perform_all [] s = s
  perform_all (c ∷ cs) s = perform_all cs (perform c s).1

  pub perform_all-IsWellFormed :
      (cs : List (Change F)) (s : FleetState F) → IsWellFormed s → IsWellFormed (perform_all cs s)
  unfolding perform_all
  perform_all-IsWellFormed [] s h = h
  perform_all-IsWellFormed (c ∷ cs) s h =
      perform_all-IsWellFormed cs (perform c s).1 (perform-IsWellFormed c s h)

  abbrev AllSound : Dict (Vehicle F) → Type 0
  AllSound d = (k : String) (v : Vehicle F) → get d k ≡ some v → IsSound k v

  index_by_id-AllSound :
      (vs : List (Vehicle F)) (d : Dict (Vehicle F))
      → All (λ v. IsSound v.vehicle_id v) vs
      → AllSound d
      → AllSound (index_by_id vs d)
  unfolding index_by_id
  index_by_id-AllSound [] d hs hd = hd
  index_by_id-AllSound (u ∷ vs) d hs hd =
      index_by_id-AllSound vs (put d u.vehicle_id u) hs.1 λ k v found.
        elim (put-found d u.vehicle_id k u v found) [
          | inl (here, new) ↦ rw (new, ← here) hs.0
          | inr old ↦ hd k v old
        ]

  new_vehicle-IsSound : (a b c : String) → IsSound a (new_vehicle {F = F} a b c)
  new_vehicle-IsSound a b c = ground arith

  make_fleet-AllSound : AllSound (index_by_id (make_fleet {F = F}) [])
  unfolding get
  make_fleet-AllSound =
      index_by_id-AllSound make_fleet [] (search new_vehicle-IsSound) (λ k v found. cc)

  -- Whatever mutators are called after the start with the fixed roster, every vehicle stands
  -- under its own id, its run, trip and shape ids are all set or all unset, and an unbound
  -- vehicle has no terminal stop.
  pub reachable-IsWellFormed :
      (cs : List (Change F)) → IsWellFormed (perform_all cs (new_fleet make_fleet))
  unfolding new_fleet
  reachable-IsWellFormed cs =
      perform_all-IsWellFormed cs (new_fleet make_fleet) (record { sound = make_fleet-AllSound })
