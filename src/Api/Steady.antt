-- ===== src/Api/Steady.antt =====
-- What the steps of simulator_app/services/scheduler.py leave as it is, when the schedule names
-- only vehicles of the fleet.
use databus_sim.Prelude.{
  ℕ, String, ◌≡◌, sym, subst, Option, none, some, [], All, inl, inr, Bool-cases, arith,
}
use databus_sim.Prelude.Int.{ℤ}
use databus_sim.Float.{Float}
use databus_sim.Effect.{ok, err, Result-cases}
use databus_sim.Fleet.{FleetState}
use databus_sim.RunBinder.{track}
use databus_sim.RunBinder.Manned.{IsThere, IsManned}
use databus_sim.Databus.{Outcome, done, databus_error, raised, CreateRunResponse}
use databus_sim.Scheduler
use databus_sim.Scheduler.{Entry, Instant, Document, Status, load, read_defaults, validate_runs}
use databus_sim.Scheduler.Dispatch.{
  World, Answers, CreateRunRequest, set_status, settle, follow, start_confirm, add_hook,
  dispatch_entry, request_of, posted, fetched, run_round,
}
use databus_sim.Scheduler.Life
use databus_sim.Scheduler.Life.{loaded, round, react, new_world, visit_all-keeps}
use databus_sim.Api.Polls.{track-IsManned}
use databus_sim.Api.Office.{scheduled, IsCrewed, NamesOnly}

request_of-vehicle :
    (e : Entry) (request : CreateRunRequest)
    → request_of e ≡ ok request
    → e.vehicle_id ≡ some request.vehicle_id
unfolding request_of
request_of-vehicle e request made = ground arith

module _ {F : Type 0} ⦃fl : Float F⦄ where
  -- The scheduler leaves the fleet as it is, tracks only runs of its vehicles, and has only
  -- entries for vehicles of it.
  pub record IsSteady (s : FleetState F) (w : World F) : Type 0 where
    pub same : w.binder.fleet ≡ s
    pub manned : IsManned w.binder
    pub entries : All (IsCrewed s) w.schedule.entries

  set_status-IsSteady :
      (s : FleetState F) (eid : String) (status : Status) (stamp : ℕ) (w : World F)
      → IsSteady s w
      → IsSteady s (set_status eid status stamp w)
  unfolding set_status
  set_status-IsSteady s eid status stamp w h = record {
    same = h.same;
    manned = h.manned;
    entries = h.entries;
  }

  start_confirm-IsSteady :
      (s : FleetState F) (e : Entry) (run_id : String) (w : World F)
      → IsSteady s w
      → IsSteady s (start_confirm e run_id w)
  unfolding start_confirm
  start_confirm-IsSteady s e run_id w h = elim (Bool-cases e.auto_confirm) [
    | inl confirmed ↦
        rw confirmed (record { same = h.same; manned = h.manned; entries = h.entries })
    | inr manual ↦ rw manual h
  ]

  add_hook-IsSteady :
      (s : FleetState F) (delay : Option ℕ) (run_id vehicle_id : String) (w : World F)
      → IsSteady s w
      → IsSteady s (add_hook delay run_id vehicle_id w)
  unfolding add_hook
  add_hook-IsSteady s none run_id vehicle_id w h = h
  add_hook-IsSteady s (some delay) run_id vehicle_id w h = record {
    same = h.same;
    manned = record { there = h.manned.there };
    entries = h.entries;
  }

  follow-IsSteady :
      (s : FleetState F) (eid : String) (e : Entry) (request : CreateRunRequest) (run_id : String)
      (terminal : Outcome (Option String)) (stamp : ℕ) (w : World F)
      → IsThere request.vehicle_id s
      → IsSteady s w
      → IsSteady s (follow eid e request run_id terminal stamp w)
  unfolding follow set_status track
  follow-IsSteady s eid e request run_id terminal stamp w here h =
      add_hook-IsSteady s e.auto_start_motion_after_s run_id request.vehicle_id _ (
        start_confirm-IsSteady s e run_id _ (record {
          same = h.same;
          manned =
              track-IsManned run_id request.vehicle_id request.trip_id request.shape_id
                (fetched terminal) stamp w.binder
                (subst (IsThere request.vehicle_id) (sym h.same) here) h.manned;
          entries = h.entries;
        }))

  settle-IsSteady :
      (s : FleetState F) (eid : String) (e : Entry) (request : CreateRunRequest)
      (created : Outcome CreateRunResponse) (terminal : Outcome (Option String)) (stamp : ℕ)
      (w : World F)
      → IsThere request.vehicle_id s
      → IsSteady s w
      → IsSteady s (settle eid e request created terminal stamp w).1
  unfolding settle
  settle-IsSteady s eid e request (done response) terminal stamp w here h =
      follow-IsSteady s eid e request response.run_id terminal stamp w here h
  settle-IsSteady s eid e request (databus_error status) terminal stamp w here h =
      set_status-IsSteady s eid Scheduler.failed stamp w h
  settle-IsSteady s eid e request raised terminal stamp w here h = h

  dispatch_entry-IsSteady :
      (s : FleetState F) (answers : Answers) (now : ℤ) (stamp : ℕ) (eid : String) (e : Entry)
      (w : World F)
      → IsCrewed s e
      → IsSteady s w
      → IsSteady s (dispatch_entry answers now stamp eid e w).1
  unfolding dispatch_entry
  dispatch_entry-IsSteady s answers now stamp eid e w crewed h =
      let asked = set_status-IsSteady s eid Scheduler.requested stamp w h in
      elim (Result-cases (request_of e)) [
        | inr (error, missing) ↦ rw (missing, dispatch_entry) asked
        | inl (request, complete) ↦
            rw (complete, dispatch_entry)
              (settle-IsSteady s eid e request (answers.created request)
                (answers.terminal request.trip_id) stamp
                (posted eid request now (set_status eid Scheduler.requested stamp w))
                (crewed request.vehicle_id (request_of-vehicle e request complete))
                (record { same = asked.same; manned = asked.manned; entries = asked.entries }))
      ]

  load-IsSteady :
      (s : FleetState F) (fromisoformat : String → Option Instant) (document : Document)
      (w : World F)
      → All (IsCrewed s) document.runs
      → IsSteady s w
      → IsSteady s (record w { schedule = (load fromisoformat (ok document) w.schedule).1 })
  unfolding load
  load-IsSteady s fromisoformat document w named h =
      elim (Result-cases (read_defaults document.defaults)) [
        | inr (e, null) ↦
            rw (null, load) (record { same = h.same; manned = h.manned; entries = h.entries })
        | inl (defaults, given) ↦
            elim (Result-cases (validate_runs fromisoformat [] document.runs)) [
              | inl (a, valid) ↦
                  rw (given, load, valid)
                    (record { same = h.same; manned = h.manned; entries = named })
              | inr (e, invalid) ↦
                  rw (given, load, invalid)
                    (record { same = h.same; manned = h.manned; entries = h.entries })
            ]
      ]

  round-IsSteady :
      (s : FleetState F) (fromisoformat : String → Option Instant) (answers : Answers) (now : ℤ)
      (stamp : ℕ) (w : World F)
      → IsSteady s w
      → IsSteady s (run_round fromisoformat answers now stamp w).1
  unfolding run_round
  round-IsSteady s fromisoformat answers now stamp w h =
      visit_all-keeps fromisoformat (IsSteady s) (IsCrewed s)
        (λ answers now stamp eid e w free. dispatch_entry-IsSteady s answers now stamp eid e w)
        answers now stamp _ w.schedule.entries w h.entries h

  pub react-IsSteady :
      (s : FleetState F) (fromisoformat : String → Option Instant) (v : Life.Event) (w : World F)
      → NamesOnly s (scheduled v)
      → IsSteady s w
      → IsSteady s (react fromisoformat v w)
  unfolding react load
  react-IsSteady s fromisoformat (loaded (ok document)) w named h =
      load-IsSteady s fromisoformat document w named h
  react-IsSteady s fromisoformat (loaded (err e)) w named h = record {
    same = h.same;
    manned = h.manned;
    entries = h.entries;
  }
  react-IsSteady s fromisoformat (round answers now stamp) w named h =
      round-IsSteady s fromisoformat answers now stamp w h
