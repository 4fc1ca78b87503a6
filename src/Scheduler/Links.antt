-- ===== src/Scheduler/Links.antt =====
-- How the entries of simulator_app/services/scheduler.py hang together with the runs of the
-- binder.
use databus_sim.Prelude.{
  ℕ, String, ◌≡◌, ◌≢◌, refl, sym, ◌∙◌, Option, none, some, List, All, All-append, All-imp, arith,
  str_eq, inl, inr, Bool-cases,
}
use databus_sim.Prelude.Int.{ℤ}
use databus_sim.Dict.{get, put, get-put, get-put_self, put-kept}
use databus_sim.Effect.{Result, Result-cases}
use databus_sim.RunBinder.{Binder, BoundRun, track}
use databus_sim.Databus.{Outcome, done, databus_error, raised, CreateRunResponse}
use databus_sim.Scheduler
use databus_sim.Scheduler.{
  Status, pending, requested, initialized, Entry, Instant, Schedule, Document, status_of, load,
  new_schedule,
}
use databus_sim.Scheduler.Dispatch.{
  World, Answers, CreateRunRequest, set_status, settle, follow, start_confirm, add_hook,
  dispatch_entry, request_of, posted, fetched,
}
use databus_sim.Scheduler.Statuses.{status_of-put, load-statuses, load-run_ids}
use databus_sim.Scheduler.Life.{Event, react_all, new_world, react_all-keeps}

module _ {F : Type 0} where
  -- The binder has a binding of the run.
  abbrev pub IsTracked : Binder F → String → Type 0
  IsTracked b run_id = (bound : BoundRun) × (get b.bindings run_id ≡ some bound)

  track-IsTracked :
      (run_id vehicle_id trip_id shape_id : String) (terminal : Option String) (now : ℕ)
      (b : Binder F)
      → IsTracked (track run_id vehicle_id trip_id shape_id terminal now b) run_id
  unfolding track
  track-IsTracked run_id vehicle_id trip_id shape_id terminal now b =
      (_, get-put_self b.bindings run_id _)

  track-keeps :
      (run_id vehicle_id trip_id shape_id : String) (terminal : Option String) (now : ℕ)
      (b : Binder F) (j : String)
      → IsTracked b j
      → IsTracked (track run_id vehicle_id trip_id shape_id terminal now b) j
  unfolding track
  track-keeps run_id vehicle_id trip_id shape_id terminal now b j (bound, found) =
      put-kept b.bindings run_id j _ bound found

  -- An entry that is initialized has a run, which the binder tracks; a confirmation and a delayed
  -- start are for tracked runs.
  pub record IsLinked (w : World F) : Type 0 where
    pub linked :
        (j : String)
        → status_of w.schedule.statuses j ≡ initialized
        → (run_id : String) × (get w.schedule.run_ids j ≡ some run_id) × IsTracked w.binder run_id
    pub confirms : All (λ c. IsTracked w.binder c.run_id) w.confirms
    pub hooks : All (λ h. IsTracked w.binder h.run_id) w.hooks

  set_status-IsLinked :
      (eid : String) (status : Status) (stamp : ℕ) (w : World F)
      → status ≢ initialized
      → IsLinked w
      → IsLinked (set_status eid status stamp w)
  unfolding set_status
  set_status-IsLinked eid status stamp w ne l = record {
    linked = λ j now.
        l.linked j (ground (arith, status_of-put w.schedule.statuses eid j status, ne, now));
    confirms = l.confirms;
    hooks = l.hooks;
  }

  start_confirm-IsLinked :
      (e : Entry) (run_id : String) (w : World F)
      → IsTracked w.binder run_id
      → IsLinked w
      → IsLinked (start_confirm e run_id w)
  unfolding start_confirm
  start_confirm-IsLinked e run_id w t l = elim (Bool-cases e.auto_confirm) [
    | inl confirmed ↦ rw confirmed (record {
      linked = l.linked;
      confirms = All-append _ w.confirms _ l.confirms (t, tt);
      hooks = l.hooks;
    })
    | inr manual ↦ rw manual l
  ]

  add_hook-IsLinked :
      (delay : Option ℕ) (run_id vehicle_id : String) (w : World F)
      → IsTracked w.binder run_id
      → IsLinked w
      → IsLinked (add_hook delay run_id vehicle_id w)
  unfolding add_hook
  add_hook-IsLinked none run_id vehicle_id w t l = l
  add_hook-IsLinked (some delay) run_id vehicle_id w t l = record {
    linked = l.linked;
    confirms = l.confirms;
    hooks = (t, l.hooks);
  }

  start_confirm-IsTracked :
      (e : Entry) (run_id j : String) (w : World F)
      → IsTracked w.binder j
      → IsTracked (start_confirm e run_id w).binder j
  unfolding start_confirm
  start_confirm-IsTracked e run_id j w t = elim (Bool-cases e.auto_confirm) [
    | inl confirmed ↦ rw confirmed t
    | inr manual ↦ rw manual t
  ]

  -- An entry gets its run.
  link :
      (eid run_id : String) (w w' : World F)
      → w'.schedule.statuses ≡ put w.schedule.statuses eid initialized
      → w'.schedule.run_ids ≡ put w.schedule.run_ids eid run_id
      → IsTracked w'.binder run_id
      → ((j : String) → IsTracked w.binder j → IsTracked w'.binder j)
      → w'.confirms ≡ w.confirms
      → w'.hooks ≡ w.hooks
      → IsLinked w
      → IsLinked w'
  link eid run_id w w' statuses run_ids new old confirms hooks l = record {
    linked = λ j now. elim (Bool-cases (str_eq eid j)) [
      | inl same ↦
          (run_id, rw run_ids (ground (arith, get-put w.schedule.run_ids eid j run_id)), new)
      | inr other ↦
          let now' : status_of w.schedule.statuses j ≡ initialized =
            (let n = now in
              let n' = rw statuses at n in
              ground (arith, status_of-put w.schedule.statuses eid j initialized)) in
          let (rid, found, tracked) = l.linked j now' in
          (
            rid,
            rw run_ids (ground (arith, get-put w.schedule.run_ids eid j run_id)),
            old rid tracked,
          )
    ];
    confirms = rw confirms (All-imp (λ c. old c.run_id) w.confirms l.confirms);
    hooks = rw hooks (All-imp (λ h. old h.run_id) w.hooks l.hooks);
  }

  follow-IsLinked :
      (eid : String) (e : Entry) (request : CreateRunRequest) (run_id : String)
      (terminal : Outcome (Option String)) (stamp : ℕ) (w : World F)
      → IsLinked w
      → IsLinked (follow eid e request run_id terminal stamp w)
  unfolding follow set_status
  follow-IsLinked eid e request run_id terminal stamp w l =
      let new =
        track-IsTracked run_id request.vehicle_id request.trip_id request.shape_id
          (fetched terminal) stamp w.binder in
      let old =
        track-keeps run_id request.vehicle_id request.trip_id request.shape_id (fetched terminal)
          stamp w.binder in
      add_hook-IsLinked e.auto_start_motion_after_s run_id request.vehicle_id _
        (start_confirm-IsTracked e run_id run_id _ new)
        (start_confirm-IsLinked e run_id _ new (link eid run_id w _ refl refl new old refl refl l))

  settle-IsLinked :
      (eid : String) (e : Entry) (request : CreateRunRequest) (created : Outcome CreateRunResponse)
      (terminal : Outcome (Option String)) (stamp : ℕ) (w : World F)
      → IsLinked w
      → IsLinked (settle eid e request created terminal stamp w).1
  unfolding settle
  settle-IsLinked eid e request (done response) terminal stamp w l =
      follow-IsLinked eid e request response.run_id terminal stamp w l
  settle-IsLinked eid e request (databus_error status) terminal stamp w l =
      set_status-IsLinked eid Scheduler.failed stamp w (λ h. cc) l
  settle-IsLinked eid e request raised terminal stamp w l = l

  dispatch_entry-IsLinked :
      (answers : Answers) (now : ℤ) (stamp : ℕ) (eid : String) (e : Entry) (w : World F)
      → IsLinked w
      → IsLinked (dispatch_entry answers now stamp eid e w).1
  unfolding dispatch_entry
  dispatch_entry-IsLinked answers now stamp eid e w l =
      let asked = set_status-IsLinked eid requested stamp w (λ h. cc) l in
      elim (Result-cases (request_of e)) [
        | inr (error, missing) ↦ rw (missing, dispatch_entry) asked
        | inl (request, complete) ↦
            rw (complete, dispatch_entry)
              (settle-IsLinked eid e request (answers.created request)
                (answers.terminal request.trip_id) stamp
                (posted eid request now (set_status eid requested stamp w))
                (record { linked = asked.linked; confirms = asked.confirms; hooks = asked.hooks }))
      ]

module _ {F : Type 0} (fromisoformat : String → Option Instant) where
  load-IsLinked :
      (document : Result Document) (w : World F)
      → IsLinked w
      → IsLinked (record w { schedule = (load fromisoformat document w.schedule).1 })
  load-IsLinked document w l = record {
    linked = λ j now.
        rw (load-run_ids fromisoformat document w.schedule)
          (l.linked j (sym (load-statuses fromisoformat document w.schedule j) ∙ now));
    confirms = l.confirms;
    hooks = l.hooks;
  }

  -- As long as only the scheduler acts on the binder, so that neither the poller nor a delayed
  -- call untracks a run: whatever is loaded and whatever the databus answers to the scheduler, an
  -- entry that is initialized has a run, and the binder tracks that run and each run for which a
  -- confirmation or a delayed start has been arranged.
  pub reachable-IsLinked :
      (vs : List Event) (binder : Binder F)
      → IsLinked (react_all fromisoformat vs (new_world binder))
  unfolding get new_schedule
  reachable-IsLinked vs binder =
      react_all-keeps fromisoformat IsLinked
        (λ answers now stamp eid e w free l. dispatch_entry-IsLinked answers now stamp eid e w l)
        load-IsLinked vs (new_world binder)
        (record { linked = λ j now. cc; confirms = tt; hooks = tt })
