-- ===== src/Scheduler/Stuck.antt =====
-- The entries of simulator_app/services/scheduler.py whose dispatch has raised.
use databus_sim.Prelude.{
  ℕ, String, ◌≡◌, ◌≢◌, refl, ◌∙◌, Option, none, List, arith, eq_iff, inl, inr,
}
use databus_sim.Prelude.Int.{ℤ}
use databus_sim.Effect.{ok, Result-cases}
use databus_sim.Databus.{Outcome, done, databus_error, raised, CreateRunResponse}
use databus_sim.Scheduler.{requested, Entry, Instant, status_of}
use databus_sim.Scheduler.Dispatch.{
  World, Answers, CreateRunRequest, set_status, settle, dispatch_entry, request_of, posted,
}
use databus_sim.Scheduler.Statuses.{status_of-put, load-statuses}
use databus_sim.Scheduler.Life.{Event, react_all, react_all-keeps}
use databus_sim.Scheduler.Once.{dispatch_entry-Dispatched}

module _ {F : Type 0} where
  asked-requested :
      (eid : String) (stamp : ℕ) (w : World F)
      → status_of (set_status eid requested stamp w).schedule.statuses eid ≡ requested
  unfolding set_status
  asked-requested eid stamp w =
      ground (arith, status_of-put w.schedule.statuses eid eid requested, eq_iff eid eid)

  settle-requested :
      (eid : String) (e : Entry) (request : CreateRunRequest) (created : Outcome CreateRunResponse)
      (terminal : Outcome (Option String)) (stamp : ℕ) (w : World F)
      → (settle eid e request created terminal stamp w).0 ≢ ok tt
      → status_of w.schedule.statuses eid ≡ requested
      → status_of (settle eid e request created terminal stamp w).1.schedule.statuses eid
        ≡ requested
  unfolding settle
  settle-requested eid e request (done response) terminal stamp w h before = absurd (h refl)
  settle-requested eid e request (databus_error status) terminal stamp w h before = absurd (h refl)
  settle-requested eid e request raised terminal stamp w h before = before

  dispatch_entry-requested :
      (answers : Answers) (now : ℤ) (stamp : ℕ) (eid : String) (e : Entry) (w : World F)
      → (dispatch_entry answers now stamp eid e w).0 ≢ ok tt
      → status_of (dispatch_entry answers now stamp eid e w).1.schedule.statuses eid ≡ requested
  unfolding dispatch_entry
  dispatch_entry-requested answers now stamp eid e w h = elim (Result-cases (request_of e)) [
    | inr (error, missing) ↦ rw (missing, dispatch_entry) (asked-requested eid stamp w)
    | inl (request, complete) ↦
        let h' = rw (complete, dispatch_entry) at h in
        rw (complete, dispatch_entry)
          (settle-requested eid e request _ _ stamp
            (posted eid request now (set_status eid requested stamp w)) h'
            (asked-requested eid stamp w))
  ]

-- A key that CreateRunRequest needs is missing.
pub data HasGap (e : Entry) : Type 0 where
  no_vehicle : e.vehicle_id ≡ none → HasGap e
  no_operator : e.operator_id ≡ none → HasGap e
  no_route : e.route_id ≡ none → HasGap e
  no_trip : e.trip_id ≡ none → HasGap e
  no_direction : e.direction_id ≡ none → HasGap e
  no_shape : e.shape_id ≡ none → HasGap e

complete-full : (e : Entry) (request : CreateRunRequest) → request_of e ≡ ok request → HasGap e → ⊥
unfolding request_of
complete-full e request full (no_vehicle h) = ground arith
complete-full e request full (no_operator h) = ground arith
complete-full e request full (no_route h) = ground arith
complete-full e request full (no_trip h) = ground arith
complete-full e request full (no_direction h) = ground arith
complete-full e request full (no_shape h) = ground arith

-- What makes the dispatch of an entry raise: a missing key, or a failure of `create_run` other
-- than a DatabusError, where no key is missing.
pub data Fails (answers : Answers) (e : Entry) : Type 0 where
  gap : HasGap e → Fails answers e
  outage : ((request : CreateRunRequest) → answers.created request ≡ raised) → Fails answers e

module _ {F : Type 0} where
  dispatch_entry-raises :
      (answers : Answers) (now : ℤ) (stamp : ℕ) (eid : String) (e : Entry) (w : World F)
      → Fails answers e
      → (dispatch_entry answers now stamp eid e w).0 ≢ ok tt
  unfolding dispatch_entry settle
  dispatch_entry-raises answers now stamp eid e w fails returned =
      elim (Result-cases (request_of e)) [
        | inr (error, missing) ↦ let r = rw (missing, dispatch_entry) at returned in cc
        | inl (request, complete) ↦ elim fails [
          | gap g ↦ complete-full e request complete g
          | outage broken ↦
              let b = broken request in
              let r = rw (complete, b, dispatch_entry, settle) at returned in cc
        ]
      ]

module _ {F : Type 0} (fromisoformat : String → Option Instant) where
  stuck_after :
      (answers : Answers) (now : ℤ) (stamp : ℕ) (eid : String) (e : Entry) (w : World F)
      → (dispatch_entry answers now stamp eid e w).0 ≢ ok tt
      → (vs : List Event)
      → status_of
          (react_all fromisoformat vs
            (dispatch_entry answers now stamp eid e w).1).schedule.statuses
          eid
        ≡ requested
  stuck_after answers now stamp eid e w h vs =
      react_all-keeps fromisoformat (λ w'. status_of w'.schedule.statuses eid ≡ requested)
        (λ answers' now' stamp' j f w' free before.
          (dispatch_entry-Dispatched answers' now' stamp' j f w').others eid (λ same. cc) ∙ before)
        (λ document w' before. load-statuses fromisoformat document w'.schedule eid ∙ before) vs _
        (dispatch_entry-requested answers now stamp eid e w h)

  -- Where a key that a run needs is missing in an entry, or every call of `create_run` fails with
  -- something else than a DatabusError, the dispatch of the entry raises, and then the entry
  -- stays requested, whatever is loaded and whatever the databus answers in any later rounds.
  pub dispatch_entry-stuck :
      (answers : Answers) (now : ℤ) (stamp : ℕ) (eid : String) (e : Entry) (w : World F)
      → Fails answers e
      → (vs : List Event)
      → ((dispatch_entry answers now stamp eid e w).0 ≢ ok tt)
        × (status_of
              (react_all fromisoformat vs
                (dispatch_entry answers now stamp eid e w).1).schedule.statuses
              eid
            ≡ requested)
  dispatch_entry-stuck answers now stamp eid e w fails vs =
      let raises = dispatch_entry-raises answers now stamp eid e w fails in
      (raises, stuck_after answers now stamp eid e w raises vs)
