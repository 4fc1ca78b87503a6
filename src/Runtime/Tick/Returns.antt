-- ===== src/Runtime/Tick/Returns.antt =====
-- The `while True` of `tick_loop` in simulator_app/runtime.py, and that its turns return.
use databus_sim.Prelude.{
  ℕ, suc, String, ◌≡◌, refl, sym, ap, ◌∙◌, subst, List, [], ◌∷◌, All, inl, inr, some, Option, Bool,
  false, Bool-cases, Option-cases,
}
use mathlib.Core.Option.{some-injective}
use databus_sim.Kinematics.{Shape, Stop}
use databus_sim.Float.{Float, IsOrdered}
use databus_sim.Dict.{Dict, get, keys}
use databus_sim.Effect.{ok, err, Exec}
use databus_sim.Fleet
use databus_sim.Fleet.{Vehicle, FleetState}
use databus_sim.Fleet.Changes.{Change, perform}
use databus_sim.Fleet.Changes
use databus_sim.Effect.Keeps.{Keeps}
use databus_sim.RunBinder.{reset_progress}
use databus_sim.RunBinder.Frame.{apply_state-Keeps}
use databus_sim.Runtime.Tick.Deeds.{Deed, changed, applied, do_deed, do_all}
use databus_sim.Runtime.Tick.{
  Await, Settings, Network, Chance, Air, Loop, tick, tick_all, tick_vehicle, is_over, is_skipped,
  sample, conclude, remember,
}
use databus_sim.Runtime.Tick.Keeps.{AllOf, AllOf-put, mutate-AllOf, tick-keeps, tick_vehicle-keeps}
use databus_sim.Runtime.Tick.Track.{sample-cases}
use databus_sim.Runtime.Tick.Serves.{IsServable, IsServed, sample-returns}

-- A turn: what other tasks do to the fleet during the sleep and the waits, the chances, and the
-- time.
pub record Turn (F : Type 0) : Type 0 where
  pub before : List (Deed F)
  pub calls : Await → String → List (Deed F)
  pub chance : String → Chance F
  pub now : ℕ

module _ {F : Type 0} ⦃fl : Float F⦄ where
  abbrev pub slept : List (Deed F) → Loop F → Loop F
  slept calls l = record l { air = record l.air { fleet = do_all calls l.air.fleet } }

  -- Turn by turn; an exception ends the task.
  unfoldable pub turns :
      Settings F
      → (network : Option (Network F)) → (mqtt : Bool) → List (Turn F)
      → Exec (Loop F) (Unit {0})
  turns c network mqtt [] l = (ok tt, l)
  turns c network mqtt (t ∷ ts) l =
      let (r, l') =
        tick c network mqtt t.chance (λ wait vid. do_all (t.calls wait vid)) t.now
          (slept t.before l) in
      let rest = turns c network mqtt ts l' in elim r [ ok _ ↦ rest | err e ↦ (err e, l') ]

module _ {F : Type 0} ⦃fl : Float F⦄ (stops : List (Stop F)) (shapes : Dict (Shape F)) where
  -- A run is bound only to a shape that can be served.
  abbrev pub Binds : Change F → Type 0
  Binds (Changes.bind vid run_id trip_id shape_id terminal_stop_id now) =
      IsServable stops shapes shape_id
  Binds _ = Unit

  -- So is a run whose confirmation is applied.
  abbrev pub Allows : Deed F → Type 0
  Allows (changed c) = Binds c
  Allows (applied b new now) = IsServable stops shapes b.shape_id

  -- In each turn, runs are bound only to shapes that can be served.
  abbrev pub IsOrderly : Turn F → Type 0
  IsOrderly t =
      All Allows t.before × ((wait : Await) (vid : String) → All Allows (t.calls wait vid))

  abbrev pub AllServed : Dict (Vehicle F) → Type 0
  AllServed d = AllOf (λ k. IsServed stops shapes) d

  same-IsServed :
      (v v' : Vehicle F)
      → v'.default_shape_id ≡ v.default_shape_id
      → v'.bound_shape_id ≡ v.bound_shape_id
      → IsServed stops shapes v
      → IsServed stops shapes v'
  same-IsServed v v' d b h = record {
    default = rw d h.default;
    bound = λ sid e. h.bound sid (sym b ∙ e);
  }

  perform-AllServed :
      (c : Change F) (s : FleetState F)
      → Binds c
      → AllServed s.by_id
      → AllServed (perform c s).1.by_id
  unfolding perform Fleet.set_transmitting Fleet.set_moving Fleet.set_speed_override
      Fleet.set_occupancy_override Fleet.set_dwell_override Fleet.bind_run Fleet.unbind_run
      Fleet.set_lifecycle_state
  perform-AllServed (Changes.transmitting vid on now) s b h =
      mutate-AllOf _ vid _ s (λ k v. same-IsServed v _ refl refl) h
  perform-AllServed (Changes.bind vid run_id trip_id shape_id terminal_stop_id now) s b h =
      mutate-AllOf _ vid _ s
        (λ k v u. record {
          default = u.default;
          bound = λ sid e. subst (IsServable stops shapes) (some-injective _ _ e) b;
        })
        h
  perform-AllServed (Changes.unbind vid now) s b h =
      mutate-AllOf _ vid _ s (λ k v u. record { default = u.default; bound = λ sid e. cc }) h
  perform-AllServed (Changes.moving vid on now) s b h =
      mutate-AllOf _ vid _ s (λ k v. same-IsServed v _ refl refl) h
  perform-AllServed (Changes.speed vid value) s b h =
      mutate-AllOf _ vid _ s (λ k v. same-IsServed v _ refl refl) h
  perform-AllServed (Changes.occupancy vid value) s b h =
      mutate-AllOf _ vid _ s (λ k v. same-IsServed v _ refl refl) h
  perform-AllServed (Changes.dwell vid stop_id ticks) s b h =
      mutate-AllOf _ vid _ s (λ k v. same-IsServed v _ refl refl) h
  perform-AllServed (Changes.lifecycle vid state now) s b h =
      mutate-AllOf _ vid _ s (λ k v. same-IsServed v _ refl refl) h

  reset_progress-AllServed :
      (vid : String) → Keeps (λ s. AllServed s.by_id) (reset_progress {F = F} vid)
  unfolding reset_progress
  reset_progress-AllServed vid = record {
    at = λ s h. elim (Option-cases (get s.by_id vid)) [
      | inl missing ↦ rw (missing, reset_progress) h
      | inr (v, known) ↦
          rw (known, reset_progress)
            (AllOf-put (λ k. IsServed stops shapes) s.by_id vid _ h
              (same-IsServed v _ refl refl (h vid v known)))
    ];
  }

  by_change : (c : Change F) → Binds c → Keeps (λ s. AllServed s.by_id) (perform c)
  by_change c b = record { at = λ s h. perform-AllServed c s b h }

  do_deed-AllServed :
      (d : Deed F) (s : FleetState F) → Allows d → AllServed s.by_id → AllServed (do_deed d s).by_id
  unfolding do_deed perform
  do_deed-AllServed (changed c) s b h = perform-AllServed c s b h
  do_deed-AllServed (applied b new now) s servable h =
      (apply_state-Keeps b now (λ s. AllServed s.by_id)
          (record {
            state = λ state. by_change (Changes.lifecycle b.vehicle_id (some state) now) tt;
            bind =
                by_change
                  (Changes.bind b.vehicle_id b.run_id b.trip_id b.shape_id b.terminal_stop_id now)
                  servable;
            park = by_change (Changes.moving b.vehicle_id false now) tt;
            reset = reset_progress-AllServed b.vehicle_id;
            send = λ on. by_change (Changes.transmitting b.vehicle_id on now) tt;
            unbind = by_change (Changes.unbind b.vehicle_id now) tt;
          })
          new).at
        s h

  do_all-AllServed :
      (ds : List (Deed F)) (s : FleetState F)
      → All Allows ds
      → AllServed s.by_id
      → AllServed (do_all ds s).by_id
  unfolding do_all
  do_all-AllServed [] s b h = h
  do_all-AllServed (d ∷ ds) s b h =
      do_all-AllServed ds (do_deed d s) b.1 (do_deed-AllServed d s b.0 h)

module _ {F : Type 0} ⦃fl : Float F⦄ (laws : IsOrdered F) (c : Settings F) (net : Network F)
    (mqtt : Bool) where
  sample-IsServed :
      (chance : Chance F) (v : Vehicle F)
      → IsServed net.stops net.shapes v
      → IsServed net.stops net.shapes (sample c net chance v).1
  sample-IsServed chance v h = elim (sample-cases c net chance v) [
    | inl same ↦ rw same h
    | inr (shape, known, same, progress) ↦
        same-IsServed net.stops net.shapes v _ (ap (λ x. x.1) same) (ap (λ x. x.4) same) h
  ]

  module _ (chance : String → Chance F) (calls : Await → String → List (Deed F))
      (known : (wait : Await) (vid : String)
        → All (Allows net.stops net.shapes) (calls wait vid)) where
    abbrev others : Await → String → FleetState F → FleetState F
    others wait vid = do_all (calls wait vid)

    tick_vehicle-AllServed :
        (vid : String) (w : Air F)
        → AllServed net.stops net.shapes w.fleet.by_id
        → AllServed net.stops net.shapes (tick_vehicle c net mqtt chance others vid w).1.fleet.by_id
    unfolding remember
    tick_vehicle-AllServed =
        tick_vehicle-keeps c net mqtt chance others (λ k. IsServed net.stops net.shapes)
          (λ k v. sample-IsServed (chance k) v)
          (λ k v prog. same-IsServed net.stops net.shapes v (remember prog v) refl refl)
          (λ wait vid s. do_all-AllServed net.stops net.shapes (calls wait vid) s (known wait vid))

    tick_vehicle-returns :
        (vid : String) (w : Air F)
        → AllServed net.stops net.shapes w.fleet.by_id
        → (tick_vehicle c net mqtt chance others vid w).0 ≡ ok tt
    unfolding tick_vehicle conclude
    tick_vehicle-returns vid w all = elim (Option-cases (get w.fleet.by_id vid)) [
      | inl missing ↦ rw (missing, tick_vehicle)
      | inr (v, found) ↦ elim (Bool-cases (is_skipped c (chance vid) v)) [
        | inl skipped ↦ rw (found, skipped, tick_vehicle)
        | inr taken ↦
            let (p, sampled) = sample-returns laws c net (chance vid) v (all vid v found) in
            elim (Option-cases p) [
              | inl silent ↦
                  let s : _ = sampled ∙ ap ok silent in rw (found, taken, s, tick_vehicle)
              | inr (q, sends) ↦
                  let s : _ = sampled ∙ ap ok sends in rw (found, taken, s, tick_vehicle)
            ]
      ]
    ]

    tick_all-returns :
        (vids : List String) (w : Air F)
        → AllServed net.stops net.shapes w.fleet.by_id
        → (tick_all c net mqtt chance others vids w).0 ≡ ok tt
    unfolding tick_all
    tick_all-returns [] w all = refl
    tick_all-returns (vid ∷ vids) w all =
        rw (tick_vehicle-returns vid w all, tick_all)
          (tick_all-returns vids _ (tick_vehicle-AllServed vid w all))

    tick-returns :
        (now : ℕ) (l : Loop F)
        → AllServed net.stops net.shapes l.air.fleet.by_id
        → ((tick c (some net) mqtt chance others now l).0 ≡ ok tt)
          × AllServed net.stops net.shapes
              (tick c (some net) mqtt chance others now l).1.air.fleet.by_id
    unfolding tick
    tick-returns now l all = (
      elim (Bool-cases (is_over c (suc l.cycle))) [
        | inl over ↦ rw (over, tick)
        | inr under ↦ rw (under, tick_all-returns (keys l.air.fleet.by_id) l.air all, tick)
      ],
      tick-keeps c net mqtt chance others (λ w. AllServed net.stops net.shapes w.fleet.by_id)
          tick_vehicle-AllServed now l all,
    )

  pub turns-return :
      (ts : List (Turn F)) (l : Loop F)
      → All (IsOrderly net.stops net.shapes) ts
      → AllServed net.stops net.shapes l.air.fleet.by_id
      → (turns c (some net) mqtt ts l).0 ≡ ok tt
  unfolding turns
  turns-return [] l orderly all = refl
  turns-return (t ∷ ts) l orderly all =
      let (returned, all') =
        tick-returns t.chance t.calls orderly.0.1 t.now (slept t.before l)
          (do_all-AllServed net.stops net.shapes t.before l.air.fleet orderly.0.0 all) in
      rw (returned, turns) (turns-return ts _ orderly.1 all')
