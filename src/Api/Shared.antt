-- ===== src/Api/Shared.antt =====
-- The polls of simulator_app/services/run_binder.py, where the runs are tracked by the requests of
-- simulator_app/api/views.py and by simulator_app/services/scheduler.py.
use databus_sim.Prelude.{
  ℕ, String, ◌≡◌, refl, sym, ◌∙◌, subst, Option, none, some, List, [], ◌∷◌, All, All-imp,
}
use databus_sim.Float.{Float}
use databus_sim.Dict.{get}
use databus_sim.Effect.{ok, err}
use databus_sim.Fleet.{FleetState}
use databus_sim.RunBinder.{BoundRun, Binder, Reply, untrack}
use databus_sim.RunBinder.Manned.{IsThere}
use databus_sim.RunBinder.Survives.{poll_finish-IsThere}
use databus_sim.Scheduler.{Entry, Instant, new_schedule}
use databus_sim.Scheduler.Dispatch.{World}
use databus_sim.Scheduler.Life
use databus_sim.Scheduler.Life.{loaded, round, react, new_world}
use databus_sim.Api.{Service}
use databus_sim.Api.Events.{
  Event, track_requested, round_started, reply_came, fleet_changed, untrack_due, Polling, happen,
  happen_on, finish_round,
}
use databus_sim.Api.Polls.{IsPolling, perform-IsThere, track_run_view-IsStaffed, happen-IsPolling}
use databus_sim.Api.Office.{
  Happening, scheduled, served, Office, react_on, occur, occur_all, IsCrewed, NamesOnly,
}
use databus_sim.Api.Steady.{react-IsSteady}

module _ {F : Type 0} ⦃fl : Float F⦄ where
  -- The service has a binder with the vehicle in its fleet.
  abbrev Has : String → Polling F → Type 0
  Has w p = (b : Binder F) × (p.service.binder ≡ some b) × IsThere w b.fleet

  finish_round-IsThere :
      (w : String) (reply : Reply) (now : ℕ) (b : Binder F) (waiting : Option BoundRun)
      → IsThere w b.fleet
      → IsThere w (finish_round reply now b waiting).1.fleet
  unfolding finish_round
  finish_round-IsThere w reply now b none here = here
  finish_round-IsThere w reply now b (some c) here = (poll_finish-IsThere w c reply now).at b here

  -- No event of the service takes a vehicle out.
  happen-Has :
      (e : Event F) (p : Polling F) (h : IsPolling p) (w : String)
      → IsThere w h.staffed.binder.fleet
      → Has w (happen_on (some h.staffed.binder) e p).1
  unfolding happen happen_on untrack
  happen-Has (track_requested q terminal now) p h w here =
      let (staffed, same) = track_run_view-IsStaffed q terminal now p.service h.staffed in
      (staffed.binder, staffed.there, subst (IsThere w) (sym same) here)
  happen-Has (round_started run_id) p h w here = (h.staffed.binder, h.staffed.there, here)
  happen-Has (reply_came reply now) p h w here =
      (_, refl, finish_round-IsThere w reply now h.staffed.binder p.waiting here)
  happen-Has (fleet_changed c) p h w here =
      (_, refl, (perform-IsThere w c).at h.staffed.binder.fleet here)
  happen-Has (untrack_due run_id) p h w here = (_, refl, here)

  same_binder :
      (w : String) (p : Polling F) (h : IsPolling p) → Has w p → IsThere w h.staffed.binder.fleet
  same_binder w p h (b, there, here) =
      let e : some b ≡ some h.staffed.binder = sym there ∙ h.staffed.there in
      let e' : b ≡ h.staffed.binder = cc in subst (λ c. IsThere w c.fleet) e' here

  IsCrewed-grown :
      (s s' : FleetState F) (es : List Entry)
      → ((w : String) → IsThere w s → IsThere w s')
      → All (IsCrewed s) es
      → All (IsCrewed s') es
  IsCrewed-grown s s' es grown = All-imp (λ e crewed vid named. grown vid (crewed vid named)) es

  NamesOnly-grown :
      (s s' : FleetState F) (v : Life.Event)
      → ((w : String) → IsThere w s → IsThere w s')
      → NamesOnly s (scheduled v)
      → NamesOnly s' (scheduled v)
  NamesOnly-grown s s' (loaded (ok document)) grown named =
      IsCrewed-grown s s' document.runs grown named
  NamesOnly-grown s s' (loaded (err e)) grown named = tt
  NamesOnly-grown s s' (round answers now stamp) grown named = tt

  -- The poller's runs and the entries of the schedule have their vehicles, and the fleet still
  -- has the vehicles of `s`.
  record IsOpen (s : FleetState F) (o : Office F) : Type 0 where
    polling : IsPolling o.polling
    grown : (w : String) → IsThere w s → IsThere w polling.staffed.binder.fleet
    entries : All (IsCrewed polling.staffed.binder.fleet) o.scheduler.schedule.entries

  served-IsOpen :
      (s : FleetState F) (e : Event F) (o : Office F) (h : IsOpen s o)
      → let r = happen_on (some h.polling.staffed.binder) e o.polling in
        (r.0 ≡ ok tt) × IsOpen s (record o { polling = r.1 })
  served-IsOpen s e o h =
      let (returned, kept) = happen-IsPolling e o.polling h.polling in
      let stays = λ (w : String) (here : IsThere w h.polling.staffed.binder.fleet).
        same_binder w _ kept (happen-Has e o.polling h.polling w here) in
      (
        returned,
        record {
          polling = kept;
          grown = λ w here. stays w (h.grown w here);
          entries =
              IsCrewed-grown h.polling.staffed.binder.fleet kept.staffed.binder.fleet
                o.scheduler.schedule.entries stays h.entries;
        },
      )

  module _ (fromisoformat : String → Option Instant) where
    scheduled-IsOpen :
        (s : FleetState F) (v : Life.Event) (o : Office F) (h : IsOpen s o)
        → NamesOnly s (scheduled v)
        → IsOpen s (react_on fromisoformat (some h.polling.staffed.binder) v o)
    unfolding react_on
    scheduled-IsOpen s v o h named =
        let b = h.polling.staffed.binder in
        let started : World F = record o.scheduler { binder = b } in
        let w' = react fromisoformat v started in
        let steady =
          react-IsSteady b.fleet fromisoformat v started (NamesOnly-grown s b.fleet v h.grown named)
            (record { same = refl; manned = h.polling.staffed.manned; entries = h.entries }) in
        let stays =
          λ (w : String) (here : IsThere w b.fleet). subst (IsThere w) (sym steady.same) here in
        record {
          polling = record {
            staffed = record { binder = _; there = refl; manned = steady.manned };
            waits = λ c e. stays c.vehicle_id (h.polling.waits c e);
          };
          grown = λ w here. stays w (h.grown w here);
          entries = IsCrewed-grown b.fleet w'.binder.fleet w'.schedule.entries stays steady.entries;
        }

    occur-IsOpen :
        (s : FleetState F) (k : Happening F) (o : Office F)
        → NamesOnly s k
        → IsOpen s o
        → ((occur fromisoformat k o).0 ≡ ok tt) × IsOpen s (occur fromisoformat k o).1
    unfolding occur
    occur-IsOpen s (scheduled v) o named h = (
      refl,
      subst (λ x. IsOpen s (react_on fromisoformat x v o)) (sym h.polling.staffed.there)
          (scheduled-IsOpen s v o h named),
    )
    occur-IsOpen s (served e) o named h =
        subst
          (λ x.
            ((happen_on x e o.polling).0 ≡ ok tt)
            × IsOpen s (record o { polling = (happen_on x e o.polling).1 }))
          (sym h.polling.staffed.there) (served-IsOpen s e o h)

    occur_all-returns :
        (s : FleetState F) (ks : List (Happening F)) (o : Office F)
        → All (NamesOnly s) ks
        → IsOpen s o
        → (occur_all fromisoformat ks o).0 ≡ ok tt
    unfolding occur_all
    occur_all-returns s [] o named h = refl
    occur_all-returns s (k ∷ ks) o (here, named) h =
        let (returned, h') = occur-IsOpen s k o here h in
        rw (returned, occur_all) (occur_all-returns s ks _ named h')

    -- In a service that starts with a binder and no tracked runs, no round of the poller ever
    -- raises: whatever is requested, whatever the databus answers to the poller and to the
    -- scheduler, whatever mutators are called and whatever runs are untracked, in any order, if
    -- the schedules that are read name only vehicles that the fleet has at the start, and nothing
    -- else happens while the scheduler waits for the databus in the middle of a round of its own.
    pub shared_polls_survive :
        (ks : List (Happening F)) (s : Service F) (b : Binder F)
        → s.binder ≡ some b
        → b.bindings ≡ []
        → All (NamesOnly b.fleet) ks
        → (occur_all fromisoformat ks (record {
          scheduler = new_world b;
          polling = record { service = s; waiting = none };
        })).0
          ≡ ok tt
    unfolding get new_schedule
    shared_polls_survive ks s b there fresh named = occur_all-returns b.fleet ks _ named (record {
      polling = record {
        staffed = record {
          binder = b;
          there = there;
          manned = record { there = λ j c found. let e = rw fresh at found in cc };
        };
        waits = λ c e. cc;
      };
      grown = λ w here. here;
      entries = tt;
    })
