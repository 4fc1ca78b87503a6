-- ===== src/Fleet/Changes.antt =====
-- The mutators of `FleetState` as values, and what they have in common
-- (simulator_app/domain/fleet.py).
use databus_sim.Prelude.{
  ℕ, String, Bool, ◌≡◌, refl, Option, none, some, ◌++◌, map, arith, str_eq, eq_iff, ◌≢◌,
  if◌then◌else◌, Bool-cases, ◌⊎◌, Option-cases, inl, inr,
}
use mathlib.Core.Option
use databus_sim.Prelude.Int.{ℤ}
use databus_sim.Float.{Float}
use databus_sim.Dict.{get, put, keys, get-put, keys-put}
use databus_sim.Effect.{Exec, Result, key_error, ok, err}
use databus_sim.Fleet
use databus_sim.Fleet.{Vehicle, FleetState, Notice, notify, mutate}

module _ {F : Type 0} where
  -- Reads after `mutate`, on both branches.
  module _ (vid : String) (f : Vehicle F → Vehicle F) (s : FleetState F) where
    pub mutate-unknown : get s.by_id vid ≡ none → mutate vid f s ≡ (err key_error, s)
    unfolding mutate
    mutate-unknown h = ground arith

    pub mutate-known :
        (v : Vehicle F)
        → get s.by_id vid ≡ some v
        → mutate vid f s ≡ (ok tt, notify (record s { by_id = put s.by_id vid (f v) }))
    unfolding mutate
    mutate-known v h = ground arith

    pub get-mutate :
        (w : String)
        → get (mutate vid f s).1.by_id w
          ≡ (if str_eq vid w then Option.map f (get s.by_id vid) else get s.by_id w)
    unfolding notify
    get-mutate w = elim (Option-cases (get s.by_id vid)) [
      | inl unknown ↦ rw (mutate-unknown unknown) (ground (arith, eq_iff vid w))
      | inr (v, known) ↦ rw (mutate-known v known) (rw known (get-put s.by_id vid w (f v)))
    ]

    -- A vehicle found afterwards is the changed one, or was there before.
    pub mutate-found :
        (k : String) (v : Vehicle F)
        → get (mutate vid f s).1.by_id k ≡ some v
        → ((w : Vehicle F) × (get s.by_id k ≡ some w) × (v ≡ f w)) ⊎ (get s.by_id k ≡ some v)
    mutate-found k v found = elim (Option-cases (get s.by_id vid)) [
      | inl unknown ↦ inr (ground (arith, get-mutate k, eq_iff vid k))
      | inr (w, known) ↦ elim (Bool-cases (str_eq vid k)) [
        | inl same ↦ inl (w, ground (arith, eq_iff vid k), ground (arith, get-mutate k))
        | inr other ↦ inr (ground (arith, get-mutate k))
      ]
    ]

-- What every mutator promises about the vehicle `vid`: for an unknown id a KeyError and no change,
-- else success, no other vehicle and no key changed, and one call of each callback, in order, that
-- sees the new vehicles.
pub record IsLocal {F : Type 0} (vid : String) (s : FleetState F)
    (r : Result (Unit {0}) × FleetState F) : Type 0 where
  pub unknown : get s.by_id vid ≡ none → r ≡ (err key_error, s)
  pub returns : (v : Vehicle F) → get s.by_id vid ≡ some v → r.0 ≡ ok tt
  pub others : (w : String) → vid ≢ w → get r.1.by_id w ≡ get s.by_id w
  pub same_keys : keys r.1.by_id ≡ keys s.by_id
  pub same_subscribers : r.1.on_change ≡ s.on_change
  pub calls :
      (v : Vehicle F)
      → get s.by_id vid ≡ some v
      → r.1.calls ≡ s.calls ++ map (λ c. record { callback = c; seen = r.1.by_id }) s.on_change

module _ {F : Type 0} where
  pub mutate-IsLocal :
      (vid : String) (f : Vehicle F → Vehicle F) (s : FleetState F) → IsLocal vid s (mutate vid f s)
  unfolding notify
  mutate-IsLocal vid f s = elim (Option-cases (get s.by_id vid)) [
    | inl unknown ↦ rw (mutate-unknown vid f s unknown) (record {
      unknown = λ _. refl;
      returns = λ v h. cc;
      others = λ w _. refl;
      same_keys = refl;
      same_subscribers = refl;
      calls = λ v h. cc;
    })
    | inr (v, known) ↦ rw (mutate-known vid f s v known) (record {
      unknown = λ h. cc;
      returns = λ _ _. refl;
      others = λ w h. ground (arith, get-put s.by_id vid w (f v), eq_iff vid w);
      same_keys = keys-put s.by_id vid v (f v) known;
      same_subscribers = refl;
      calls = λ _ _. refl;
    })
  ]

-- A call of a mutator.
pub data Change (F : Type 0) : Type 0 where
  transmitting : (vid : String) (on : Bool) (now : ℕ) → Change F
  moving : (vid : String) (on : Bool) (now : ℕ) → Change F
  speed : (vid : String) (value : Option F) → Change F
  occupancy : (vid : String) (value : Option ℤ) → Change F
  dwell : (vid : String) (stop_id : Option String) (ticks : ℤ) → Change F
  bind :
      (vid run_id trip_id shape_id : String) (terminal_stop_id : Option String) (now : ℕ) → Change F
  unbind : (vid : String) (now : ℕ) → Change F
  lifecycle : (vid : String) (state : Option String) (now : ℕ) → Change F

module _ {F : Type 0} where
  abbrev pub target : Change F → String
  target (transmitting vid on now) = vid
  target (moving vid on now) = vid
  target (speed vid value) = vid
  target (occupancy vid value) = vid
  target (dwell vid stop_id ticks) = vid
  target (bind vid run_id trip_id shape_id terminal_stop_id now) = vid
  target (unbind vid now) = vid
  target (lifecycle vid state now) = vid

module _ {F : Type 0} ⦃fl : Float F⦄ where
  unfoldable pub perform : Change F → Exec (FleetState F) (Unit {0})
  perform (transmitting vid on now) = Fleet.set_transmitting vid on now
  perform (moving vid on now) = Fleet.set_moving vid on now
  perform (speed vid value) = Fleet.set_speed_override vid value
  perform (occupancy vid value) = Fleet.set_occupancy_override vid value
  perform (dwell vid stop_id ticks) = Fleet.set_dwell_override vid stop_id ticks
  perform (bind vid run_id trip_id shape_id terminal_stop_id now) =
      Fleet.bind_run vid run_id trip_id shape_id terminal_stop_id now
  perform (unbind vid now) = Fleet.unbind_run vid now
  perform (lifecycle vid state now) = Fleet.set_lifecycle_state vid state now

  -- Every mutator, on a known and on an unknown vehicle id: an unknown id raises KeyError and
  -- changes nothing; a known one returns, leaves every other vehicle, the set of keys and the
  -- subscriptions as they are, and calls each callback once, in order, with the new vehicles.
  pub perform-IsLocal : (c : Change F) (s : FleetState F) → IsLocal (target c) s (perform c s)
  unfolding perform Fleet.set_transmitting Fleet.set_moving Fleet.set_speed_override
      Fleet.set_occupancy_override Fleet.set_dwell_override Fleet.bind_run Fleet.unbind_run
      Fleet.set_lifecycle_state
  perform-IsLocal (transmitting vid on now) s = mutate-IsLocal vid _ s
  perform-IsLocal (moving vid on now) s = mutate-IsLocal vid _ s
  perform-IsLocal (speed vid value) s = mutate-IsLocal vid _ s
  perform-IsLocal (occupancy vid value) s = mutate-IsLocal vid _ s
  perform-IsLocal (dwell vid stop_id ticks) s = mutate-IsLocal vid _ s
  perform-IsLocal (bind vid run_id trip_id shape_id terminal_stop_id now) s = mutate-IsLocal vid _ s
  perform-IsLocal (unbind vid now) s = mutate-IsLocal vid _ s
  perform-IsLocal (lifecycle vid state now) s = mutate-IsLocal vid _ s
