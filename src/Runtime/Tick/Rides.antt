-- ===== src/Runtime/Tick/Rides.antt =====
-- Turn after turn of `tick_loop` in simulator_app/runtime.py, the vehicles stay within their
-- shapes, also where other tasks bind and release them.
use databus_sim.Prelude.{
  ℕ, String, ◌≡◌, refl, sym, ap, ◌∙◌, subst, List, [], ◌∷◌, All, inl, inr, some, Bool, Bool-cases,
  Option-cases, arith, str_eq, eq_iff,
}
use mathlib.Core.Option.{some-injective}
use databus_sim.Kinematics.{Shape, get_shape, total_dist_m}
use databus_sim.Kinematics.Motion.{IsSpeed}
use databus_sim.Float.{Float, IsOrdered, lit, ◌≼◌}
use databus_sim.Dict.{Dict, get}
use databus_sim.Effect.{ok, Result-cases}
use databus_sim.Fleet
use databus_sim.Fleet.{Vehicle, FleetState, mutate, set_lifecycle_state}
use databus_sim.Fleet.Changes.{Change, perform, mutate-unknown}
use databus_sim.Fleet.Changes
use databus_sim.Fleet.Runs.{Ran}
use databus_sim.RunBinder.{BoundRun, apply_state, is_terminal}
use databus_sim.RunBinder.Confirm.{confirmed, apply_state-confirmed}
use databus_sim.RunBinder.Release.{released, apply_state-terminal}
use databus_sim.RunBinder.Refinement.{apply_state-unknown, apply_state-noted}
use databus_sim.Runtime.Tick.{Await, Settings, Network, Chance, Loop, remember, sample, tick}
use databus_sim.Runtime.Tick.Deeds.{Deed, changed, applied, do_deed, do_all}
use databus_sim.Runtime.Tick.Keeps.{AllOf, mutate-AllOf, tick-AllOf}
use databus_sim.Runtime.Tick.Returns.{Turn, turns, slept}
use databus_sim.Runtime.Tick.Track.{IsOnRoute, IsOnRoute-same, ids, sample-cases, sample-IsOnRoute}

module _ {F : Type 0} ⦃fl : Float F⦄ where
  -- The shape is in the file and has a length, which is not negative.
  pub record IsMeasured (shapes : Dict (Shape F)) (shape_id : String) : Type 0 where
    pub shape : Shape F
    pub found : get shapes shape_id ≡ some shape
    pub total : F
    pub measured : total_dist_m shape ≡ ok total
    pub positive : lit 0 ≼ total

  -- The vehicle is on its route, and so it would be without a run.
  pub record IsRiding (net : Network F) (v : Vehicle F) : Type 0 where
    pub default : IsMeasured net.shapes v.default_shape_id
    pub route : IsOnRoute net v

  -- A speed that is set is finite and not negative; the mutator that binds is called only by
  -- `_apply_state`.
  abbrev pub Steers : Change F → Type 0
  Steers (Changes.bind vid run_id trip_id shape_id terminal_stop_id now) = ⊥
  Steers (Changes.speed vid value) = (x : F) → value ≡ some x → IsSpeed x
  Steers _ = Unit

  abbrev pub IsSafe : Dict (Shape F) → Deed F → Type 0
  IsSafe shapes (changed c) = Steers c
  IsSafe shapes (applied b new now) = IsMeasured shapes b.shape_id

  -- What the other tasks do before and during the turn is safe.
  abbrev pub IsSafeTurn : Dict (Shape F) → Turn F → Type 0
  IsSafeTurn shapes t =
      All (IsSafe shapes) t.before
      × ((wait : Await) (vid : String) → All (IsSafe shapes) (t.calls wait vid))

  abbrev pub AllRiding : Network F → Dict (Vehicle F) → Type 0
  AllRiding net d = AllOf (λ k. IsRiding net) d

  module _ (laws : IsOrdered F) (net : Network F) where
    pub same-IsRiding :
        (v v' : Vehicle F)
        → ids v' ≡ ids v
        → v'.progress_m ≡ v.progress_m
        → IsRiding net v
        → IsRiding net v'
    same-IsRiding v v' same progress h = record {
      default = rw (ap (λ x. x.1) same) h.default;
      route = IsOnRoute-same net v v' same h.route (record {
        started = rw progress h.route.track.started;
        within = rw progress h.route.track.within;
      });
    }

    known_shape :
        (v : Vehicle F)
        → IsMeasured net.shapes v.default_shape_id
        → ((sid : String) → v.bound_shape_id ≡ some sid → IsMeasured net.shapes sid)
        → (sid : String) × (m : IsMeasured net.shapes sid) × (get_shape v net.shapes ≡ ok m.shape)
    unfolding get_shape
    known_shape v d bound =
        let here = d.found in
        elim (Option-cases v.bound_shape_id) [
          | inl free ↦ (v.default_shape_id, d, ground arith)
          | inr (sid, set) ↦ elim (Bool-cases (str_eq sid "")) [
            | inl empty ↦ (v.default_shape_id, d, ground arith)
            | inr named ↦ let m = bound sid set in let there = m.found in (sid, m, ground arith)
          ]
        ]

    -- A vehicle at the start of its shape.
    pub start-IsRiding :
        (v v' : Vehicle F)
        → v'.default_shape_id ≡ v.default_shape_id
        → v'.speed_override ≡ v.speed_override
        → v'.progress_m ≡ lit 0
        → ((sid : String) → v'.bound_shape_id ≡ some sid → IsMeasured net.shapes sid)
        → IsRiding net v
        → IsRiding net v'
    start-IsRiding v v' d speed zero bound h =
        let default : IsMeasured net.shapes v'.default_shape_id = rw d h.default in
        let (sid, m, known) = known_shape v' default bound in
        record {
          default = default;
          route = record {
            shape = m.shape;
            known = known;
            total = m.total;
            measured = m.measured;
            track = record {
              started =
                  subst (λ x. lit 0 ≼ x) (sym zero) (laws.lit_mono 0 0 (omega arith) (omega arith));
              within = subst (λ x. x ≼ m.total) (sym zero) m.positive;
            };
            override = λ x set. h.route.override x (sym speed ∙ set);
          };
        }

    -- One vehicle has become another that rides.
    Ran-AllRiding :
        (vid : String) (P : Vehicle F → Type 0) (v' : Vehicle F) (s s' : FleetState F)
        → Ran vid P v' s s'
        → IsRiding net v'
        → AllRiding net s.by_id
        → AllRiding net s'.by_id
    Ran-AllRiding vid P v' s s' ran here all k u found = elim (Bool-cases (str_eq vid k)) [
      | inl same ↦
          let e : vid ≡ k = (eq_iff vid k).0 same in
          subst (IsRiding net)
            (some-injective _ _ (sym ran.here ∙ subst (λ x. get s'.by_id x ≡ some u) (sym e) found))
            here
      | inr other ↦ all k u (sym (ran.others k (λ e. ground (arith, eq_iff vid k))) ∙ found)
    ]

    apply_state-AllRiding :
        (b : BoundRun) (new : String) (now : ℕ) (s : FleetState F)
        → IsMeasured net.shapes b.shape_id
        → AllRiding net s.by_id
        → AllRiding net (apply_state b new now s).1.by_id
    unfolding set_lifecycle_state
    apply_state-AllRiding b new now s m all = elim (Option-cases (get s.by_id b.vehicle_id)) [
      | inl missing ↦ rw (apply_state-unknown b new now s missing) all
      | inr (v, known) ↦
          let h = all b.vehicle_id v known in
          elim (Bool-cases (str_eq new "Confirmed")) [
            | inl starts ↦
                let (s', e, ran) =
                  apply_state-confirmed b new now v s ((eq_iff new "Confirmed").0 starts) known in
                rw e (
                  Ran-AllRiding b.vehicle_id _ (confirmed b new now v) s s' ran
                    (start-IsRiding v _ refl refl refl
                      (λ sid e'. subst (IsMeasured net.shapes) (some-injective _ _ e') m) h)
                    all)
            | inr other ↦ elim (Bool-cases (is_terminal new)) [
              | inl over ↦
                  let (s', e, ran) = apply_state-terminal b new now v s over known in
                  rw e (
                    Ran-AllRiding b.vehicle_id _ (released b new now v) s s' ran
                      (start-IsRiding v _ refl refl refl (λ sid e'. cc) h) all)
              | inr live ↦ rw (apply_state-noted b new now s other live) (
                  mutate-AllOf (λ k. IsRiding net) b.vehicle_id _ s
                    (λ k u. same-IsRiding u _ refl refl) all)
            ]
          ]
    ]

    perform-AllRiding :
        (c : Change F) (s : FleetState F)
        → Steers c
        → AllRiding net s.by_id
        → AllRiding net (perform c s).1.by_id
    unfolding perform Fleet.set_transmitting Fleet.set_moving Fleet.set_speed_override
        Fleet.set_occupancy_override Fleet.set_dwell_override Fleet.bind_run Fleet.unbind_run
        Fleet.set_lifecycle_state get_shape
    perform-AllRiding (Changes.transmitting vid on now) s b h =
        mutate-AllOf _ vid _ s (λ k v. same-IsRiding v _ refl refl) h
    perform-AllRiding (Changes.bind vid run_id trip_id shape_id terminal_stop_id now) s b h =
        absurd b
    perform-AllRiding (Changes.unbind vid now) s b h =
        mutate-AllOf _ vid _ s (λ k v. start-IsRiding v _ refl refl refl (λ sid e. cc)) h
    perform-AllRiding (Changes.moving vid on now) s b h =
        mutate-AllOf _ vid _ s (λ k v. same-IsRiding v _ refl refl) h
    perform-AllRiding (Changes.speed vid value) s b h =
        mutate-AllOf _ vid _ s
          (λ k v u. record {
            default = u.default;
            route = record {
              shape = u.route.shape;
              known = u.route.known;
              total = u.route.total;
              measured = u.route.measured;
              track = record { started = u.route.track.started; within = u.route.track.within };
              override = b;
            };
          })
          h
    perform-AllRiding (Changes.occupancy vid value) s b h =
        mutate-AllOf _ vid _ s (λ k v. same-IsRiding v _ refl refl) h
    perform-AllRiding (Changes.dwell vid stop_id ticks) s b h =
        mutate-AllOf _ vid _ s (λ k v. same-IsRiding v _ refl refl) h
    perform-AllRiding (Changes.lifecycle vid state now) s b h =
        mutate-AllOf _ vid _ s (λ k v. same-IsRiding v _ refl refl) h

    do_all-AllRiding :
        (ds : List (Deed F)) (s : FleetState F)
        → All (IsSafe net.shapes) ds
        → AllRiding net s.by_id
        → AllRiding net (do_all ds s).by_id
    unfolding do_all do_deed
    do_all-AllRiding [] s safe all = all
    do_all-AllRiding (changed c ∷ ds) s (here, safe) all =
        do_all-AllRiding ds _ safe (perform-AllRiding c s here all)
    do_all-AllRiding (applied b new now ∷ ds) s (here, safe) all =
        do_all-AllRiding ds _ safe (apply_state-AllRiding b new now s here all)

    module _ (c : Settings F) (mqtt : Bool) (time : IsSpeed c.interval) where
      sample-IsRiding :
          (chance : Chance F) (v : Vehicle F)
          → IsRiding net v
          → IsRiding net (sample c net chance v).1
      sample-IsRiding chance v h = record {
        default = elim (sample-cases c net chance v) [
          | inl same ↦ rw same h.default
          | inr (shape, known, same, progress) ↦ rw (ap (λ x. x.1) same) h.default
        ];
        route = sample-IsOnRoute laws c net chance v time h.route;
      }

      turn-AllRiding :
          (t : Turn F) (l : Loop F)
          → IsSafeTurn net.shapes t
          → AllRiding net l.air.fleet.by_id
          → AllRiding net
              (tick c
                (some net)
                mqtt
                t.chance
                (λ wait vid. do_all (t.calls wait vid))
                t.now
                (slept t.before l)).1.air.fleet.by_id
      unfolding remember
      turn-AllRiding t l safe all =
          tick-AllOf c net mqtt t.chance (λ wait vid. do_all (t.calls wait vid)) (λ k. IsRiding net)
            (λ k v. sample-IsRiding (t.chance k) v)
            (λ k v prog. same-IsRiding v (remember prog v) refl refl)
            (λ wait vid s. do_all-AllRiding (t.calls wait vid) s (safe.1 wait vid)) t.now
            (slept t.before l) (do_all-AllRiding t.before l.air.fleet safe.0 all)

      pub turns-AllRiding :
          (ts : List (Turn F)) (l : Loop F)
          → All (IsSafeTurn net.shapes) ts
          → AllRiding net l.air.fleet.by_id
          → AllRiding net (turns c (some net) mqtt ts l).1.air.fleet.by_id
      unfolding turns
      turns-AllRiding [] l safe all = all
      turns-AllRiding (t ∷ ts) l safe all =
          let all' = turn-AllRiding t l safe.0 all in
          let rest = turns-AllRiding ts _ safe.1 all' in
          elim (Result-cases
            (tick c (some net) mqtt t.chance (λ wait vid. do_all (t.calls wait vid)) t.now
              (slept t.before l)).0) [
                | inl (a, returned) ↦ rw (returned, turns) rest
                | inr (e, broke) ↦ rw (broke, turns) all'
              ]
