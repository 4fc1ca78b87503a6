-- ===== src/Api/Polls.antt =====
-- The polls of simulator_app/services/run_binder.py in a service whose runs are tracked by
-- requests to `track_run_view` of simulator_app/api/views.py.
use databus_sim.Prelude.{
  ℕ, String, ◌≡◌, refl, sym, subst, Option, none, some, List, [], ◌∷◌, inl, inr, Option-cases,
}
use databus_sim.Float.{Float}
use databus_sim.Dict.{get, put-found}
use databus_sim.Effect.{ok}
use databus_sim.Fleet
use databus_sim.Fleet.{FleetState, mutate}
use databus_sim.Fleet.Changes.{Change, perform}
use databus_sim.Fleet.Changes
use databus_sim.Databus.{Outcome}
use databus_sim.Effect.Keeps.{Keeps}
use databus_sim.RunBinder.{BoundRun, Binder, Reply, track, untrack}
use databus_sim.RunBinder.Manned.{IsThere, IsManned, mutate-IsThere, untrack-IsManned}
use databus_sim.RunBinder.Survives.{poll_start-found, poll_finish-Survives}
use databus_sim.Api.{Service, TrackRequest, track_run_view}
use databus_sim.Api.Events.{
  Event, track_requested, round_started, reply_came, fleet_changed, untrack_due, Polling,
  start_round, finish_round, happen, happen_on, happen_all,
}

module _ {F : Type 0} ⦃fl : Float F⦄ where
  -- The service has a binder whose tracked runs all have a vehicle.
  pub record IsStaffed (s : Service F) : Type 0 where
    pub binder : Binder F
    pub there : s.binder ≡ some binder
    pub manned : IsManned binder

  -- So has the run for which the poller waits, also where it is no longer tracked.
  pub record IsPolling (p : Polling F) : Type 0 where
    pub staffed : IsStaffed p.service
    pub waits : (c : BoundRun) → p.waiting ≡ some c → IsThere c.vehicle_id staffed.binder.fleet

  pub perform-IsThere : (w : String) (c : Change F) → Keeps (IsThere w) (perform c)
  unfolding perform Fleet.set_transmitting Fleet.set_moving Fleet.set_speed_override
      Fleet.set_occupancy_override Fleet.set_dwell_override Fleet.bind_run Fleet.unbind_run
      Fleet.set_lifecycle_state
  perform-IsThere w (Changes.transmitting vid on now) = mutate-IsThere w vid _
  perform-IsThere w (Changes.moving vid on now) = mutate-IsThere w vid _
  perform-IsThere w (Changes.speed vid value) = mutate-IsThere w vid _
  perform-IsThere w (Changes.occupancy vid value) = mutate-IsThere w vid _
  perform-IsThere w (Changes.dwell vid stop_id ticks) = mutate-IsThere w vid _
  perform-IsThere w (Changes.bind vid run_id trip_id shape_id terminal_stop_id now) =
      mutate-IsThere w vid _
  perform-IsThere w (Changes.unbind vid now) = mutate-IsThere w vid _
  perform-IsThere w (Changes.lifecycle vid state now) = mutate-IsThere w vid _

  pub track-IsManned :
      (run_id vehicle_id trip_id shape_id : String) (terminal_stop_id : Option String) (now : ℕ)
      (b : Binder F)
      → IsThere vehicle_id b.fleet
      → IsManned b
      → IsManned (track run_id vehicle_id trip_id shape_id terminal_stop_id now b)
  unfolding track
  track-IsManned run_id vehicle_id trip_id shape_id terminal_stop_id now b here h = record {
    there = λ j c found. elim (put-found b.bindings run_id j _ c found) [
      | inl (same, new) ↦ rw new here
      | inr old ↦ h.there j c old
    ];
  }

  pub track_run_view-IsStaffed :
      (q : Option TrackRequest) (terminal : Outcome (Option String)) (now : ℕ) (s : Service F)
      (h : IsStaffed s)
      → (h' : IsStaffed (track_run_view q terminal now s).1) × (h'.binder.fleet ≡ h.binder.fleet)
  unfolding track_run_view track
  track_run_view-IsStaffed none terminal now s h = (h, refl)
  track_run_view-IsStaffed (some q) terminal now s h =
      let there = h.there in
      elim (Option-cases (get h.binder.fleet.by_id q.vehicle_id)) [
        | inl unknown ↦ rw (there, unknown, track_run_view) (h, refl)
        | inr (v, known) ↦
            rw (there, known, track_run_view)
              (
                record {
                  binder = _;
                  there = refl;
                  manned =
                      track-IsManned q.run_id q.vehicle_id q.trip_id q.shape_id _ now h.binder
                        (v, known) h.manned;
                },
                refl,
              )
      ]

  start_round-IsThere :
      (run_id : String) (b : Binder F) (w : Option BoundRun)
      → IsManned b
      → ((c : BoundRun) → w ≡ some c → IsThere c.vehicle_id b.fleet)
      → (c : BoundRun) → start_round run_id b w ≡ some c
      → IsThere c.vehicle_id b.fleet
  unfolding start_round
  start_round-IsThere run_id b none h waits c e = h.there run_id c (poll_start-found run_id b c e)
  start_round-IsThere run_id b (some d) h waits c e = waits c e

  finish_round-Survives :
      (reply : Reply) (now : ℕ) (b : Binder F) (w : Option BoundRun)
      → IsManned b
      → ((c : BoundRun) → w ≡ some c → IsThere c.vehicle_id b.fleet)
      → ((finish_round reply now b w).0 ≡ ok tt) × IsManned (finish_round reply now b w).1
  unfolding finish_round
  finish_round-Survives reply now b none h waits = (refl, h)
  finish_round-Survives reply now b (some c) h waits =
      poll_finish-Survives c reply now b (waits c refl) h

  pub happen-IsPolling :
      (e : Event F) (p : Polling F) (h : IsPolling p)
      → ((happen_on (some h.staffed.binder) e p).0 ≡ ok tt)
        × IsPolling (happen_on (some h.staffed.binder) e p).1
  unfolding happen happen_on untrack
  happen-IsPolling (track_requested q terminal now) p h =
      let (staffed, same) = track_run_view-IsStaffed q terminal now p.service h.staffed in
      (
        refl,
        record {
          staffed = staffed;
          waits = λ c e. subst (IsThere c.vehicle_id) (sym same) (h.waits c e);
        },
      )
  happen-IsPolling (round_started run_id) p h = (
    refl,
    record {
      staffed = h.staffed;
      waits = start_round-IsThere run_id h.staffed.binder p.waiting h.staffed.manned h.waits;
    },
  )
  happen-IsPolling (reply_came reply now) p h =
      let (returned, kept) =
        finish_round-Survives reply now h.staffed.binder p.waiting h.staffed.manned h.waits in
      (
        returned,
        record { staffed = record { binder = _; there = refl; manned = kept }; waits = λ c e. cc },
      )
  happen-IsPolling (fleet_changed c) p h =
      let stays = λ (w : String) (there : IsThere w h.staffed.binder.fleet).
        (perform-IsThere w c).at h.staffed.binder.fleet there in
      (
        refl,
        record {
          staffed = record {
            binder = _;
            there = refl;
            manned = record {
              there = λ j b found. stays b.vehicle_id (h.staffed.manned.there j b found);
            };
          };
          waits = λ d e. stays d.vehicle_id (h.waits d e);
        },
      )
  happen-IsPolling (untrack_due run_id) p h = (
    refl,
    record {
      staffed = record {
        binder = untrack run_id h.staffed.binder;
        there = refl;
        manned = untrack-IsManned run_id h.staffed.binder h.staffed.manned;
      };
      waits = h.waits;
    },
  )

  happen_all-returns :
      (es : List (Event F)) (p : Polling F) → IsPolling p → (happen_all es p).0 ≡ ok tt
  unfolding happen_all
  happen_all-returns [] p h = refl
  happen_all-returns (e ∷ es) p h =
      let (returned, h') =
        subst (λ o. ((happen_on o e p).0 ≡ ok tt) × IsPolling (happen_on o e p).1)
          (sym h.staffed.there) (happen-IsPolling e p h) in
      rw (returned, happen_all) (happen_all-returns es _ h')

  -- In a service that starts with a binder and no tracked runs, and whose runs are tracked only
  -- by requests to `track_run_view`, no round of the poller ever raises: whatever is requested,
  -- whatever the databus answers, whatever mutators are called and whatever runs are untracked,
  -- in any order, also while a round waits for its reply.
  polls_survive :
      (es : List (Event F)) (s : Service F) (b : Binder F)
      → s.binder ≡ some b
      → b.bindings ≡ []
      → (happen_all es (record { service = s; waiting = none })).0 ≡ ok tt
  unfolding get
  polls_survive es s b there fresh =
      happen_all-returns es (record { service = s; waiting = none })
        (record {
          staffed = record {
            binder = b;
            there = there;
            manned = record { there = λ j c found. let e = rw fresh at found in cc };
          };
          waits = λ c e. cc;
        })
