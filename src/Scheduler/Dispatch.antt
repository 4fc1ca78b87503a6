-- ===== src/Scheduler/Dispatch.antt =====
-- The runner of simulator_app/services/scheduler.py, with the binder (and its fleet) that it
-- shares. The replies of the databus are arguments; nothing else runs while a dispatch waits for
-- them.
use databus_sim.Prelude.{
  ℕ, String, Bool, true, false, not, Option, none, some, List, [], ◌∷◌, ◌++◌, if◌then◌else◌,
}
use databus_sim.Prelude.Int.{ℤ, pos, ◌-ℤ◌, ◌*ℤ◌, ltb_ℤ}
use databus_sim.Dict.{put}
use databus_sim.Effect.{Result, ok, err, key_error, other_error, required, Exec, ◌>=>◌}
use databus_sim.RunBinder.{Binder, track}
use databus_sim.Databus.{Outcome, done, databus_error, raised, CreateRunResponse}
use databus_sim.Scheduler
use databus_sim.Scheduler.{
  Status, pending, requested, initialized, Entry, Instant, Schedule, Row, Defaults, relationship_of,
  parse_dt, status_of, snapshot,
}

pub record CreateRunRequest : Type 0 where
  pub vehicle_id : String
  pub operator_id : String
  pub route_id : String
  pub trip_id : String
  pub direction_id : ℤ
  pub shape_id : String
  pub schedule_relationship : Option String

-- A call of `create_run`, for an entry, at a time.
pub record Post : Type 0 where
  pub entry_id : String
  pub request : CreateRunRequest
  pub time : ℤ

-- A `_confirm` task that sleeps.
pub record Confirm : Type 0 where
  pub run_id : String
  pub delay_s : ℤ

-- An `_on_confirmed` in the chain of callbacks.
pub record Hook : Type 0 where
  pub run_id : String
  pub vehicle_id : String
  pub delay : ℕ

-- The scheduler, the binder, and what the scheduler has done: calls of `create_run`, the latest
-- first, published snapshots, tasks, and the chain of `on_state_change`, the outermost first.
pub record World (F : Type 0) : Type 0 where
  pub schedule : Schedule
  pub binder : Binder F
  pub posts : List Post
  pub published : List (Result (Defaults × List Row × ℕ))
  pub confirms : List Confirm
  pub hooks : List Hook

-- CreateRunRequest(...)
unfoldable pub request_of : Entry → Result CreateRunRequest
request_of e = required e.vehicle_id >=> λ vehicle_id. required e.operator_id >=> λ operator_id.
    required e.route_id >=> λ route_id. required e.trip_id >=> λ trip_id.
    required e.direction_id >=> λ direction_id. required e.shape_id >=> λ shape_id. ok (record {
      vehicle_id = vehicle_id;
      operator_id = operator_id;
      route_id = route_id;
      trip_id = trip_id;
      direction_id = direction_id;
      shape_id = shape_id;
      schedule_relationship = relationship_of e;
    })

-- The terminal stop, if it can be fetched.
abbrev pub fetched : Outcome (Option String) → Option String
fetched (done stop_id) = stop_id
fetched (databus_error status) = none
fetched raised = none

-- What the databus answers to the calls of one dispatch.
pub record Answers : Type 0 where
  pub created : CreateRunRequest → Outcome CreateRunResponse
  pub terminal : String → Outcome (Option String)

module _ {F : Type 0} where
  unfoldable pub publish_snapshot : ℕ → World F → World F
  publish_snapshot stamp w = record w { published = w.published ++ snapshot w.schedule stamp ∷ [] }

  -- An entry's status, and the snapshot that tells of it.
  unfoldable pub set_status : String → Status → ℕ → World F → World F
  unfolding publish_snapshot
  set_status eid status stamp w =
      publish_snapshot stamp (record w {
        schedule = record w.schedule { statuses = put w.schedule.statuses eid status };
      })

  unfoldable pub start_confirm : Entry → (run_id : String) → World F → World F
  start_confirm e run_id w =
      if e.auto_confirm
      then record w {
        confirms =
            w.confirms
            ++ record { run_id = run_id; delay_s = w.schedule.defaults.auto_confirm_delay_s } ∷ [];
      }
      else w

  unfoldable pub add_hook : Option ℕ → (run_id vehicle_id : String) → World F → World F
  add_hook none run_id vehicle_id w = w
  add_hook (some delay) run_id vehicle_id w = record w {
    hooks = record { run_id = run_id; vehicle_id = vehicle_id; delay = delay } ∷ w.hooks;
    binder = record w.binder { has_callback = true };
  }

  -- What follows on a run that has been created.
  unfoldable pub follow :
      (eid : String)
      → Entry
      → CreateRunRequest
      → (run_id : String) → Outcome (Option String)
      → ℕ
      → World F
      → World F
  unfolding set_status start_confirm
  follow eid e request run_id terminal stamp w =
      let w1 = set_status eid initialized stamp (record w {
        schedule = record w.schedule { run_ids = put w.schedule.run_ids eid run_id };
      }) in
      let w2 = record w1 {
        binder =
            track run_id request.vehicle_id request.trip_id request.shape_id (fetched terminal)
              stamp w1.binder;
      } in
      add_hook e.auto_start_motion_after_s run_id request.vehicle_id (start_confirm e run_id w2)

  -- The outcome of `create_run`. An exception other than DatabusError is not caught.
  unfoldable pub settle :
      (eid : String)
      → Entry
      → CreateRunRequest
      → Outcome CreateRunResponse
      → Outcome (Option String)
      → ℕ
      → Exec (World F) (Unit {0})
  unfolding set_status follow
  settle eid e request (done response) terminal stamp w =
      (ok tt, follow eid e request response.run_id terminal stamp w)
  settle eid e request (databus_error status) terminal stamp w =
      (ok tt, set_status eid Scheduler.failed stamp w)
  settle eid e request raised terminal stamp w = (err other_error, w)

  abbrev pub posted : String → CreateRunRequest → ℤ → World F → World F
  posted eid request now w = record w {
    posts = record { entry_id = eid; request = request; time = now } ∷ w.posts;
  }

  -- `_dispatch_entry`. A missing key of the entry raises KeyError.
  unfoldable pub dispatch_entry :
      Answers → (now : ℤ) → (stamp : ℕ) → String → Entry → Exec (World F) (Unit {0})
  dispatch_entry answers now stamp eid e w =
      let w1 = set_status eid requested stamp w in
      elim (request_of e) [
        | err error ↦ (err error, w1)
        | ok request ↦
            settle eid e request (answers.created request) (answers.terminal request.trip_id) stamp
              (posted eid request now w1)
      ]

-- now.timestamp() >= start.timestamp() - pre_idle
unfoldable pub is_due : (now : ℤ) → Instant → (pre_idle_s : ℤ) → Bool
is_due now start pre_idle_s = not (ltb_ℤ now (start.micros -ℤ pre_idle_s *ℤ pos 1000000))

abbrev pub is_pending : Status → Bool
is_pending pending = true
is_pending requested = false
is_pending initialized = false
is_pending Scheduler.failed = false

module _ (fromisoformat : String → Option Instant) where
  -- The time has come: the start can be read and lies no further ahead than the idle time.
  unfoldable pub has_come : (now : ℤ) → (pre_idle_s : ℤ) → Entry → Bool
  has_come now pre_idle_s e = elim (required e.start_time >=> parse_dt fromisoformat) [
    | err error ↦ false
    | ok start ↦ is_due now start pre_idle_s
  ]

module _ {F : Type 0} (fromisoformat : String → Option Instant) where
  -- One entry of a round of `run_loop`.
  unfoldable pub visit :
      Answers → (now : ℤ) → (stamp : ℕ) → (pre_idle_s : ℤ) → Entry → Exec (World F) (Unit {0})
  visit answers now stamp pre_idle_s e w = elim e.id [
    | none ↦ (err key_error, w)
    | some eid ↦
        if is_pending (status_of w.schedule.statuses eid)
        then (if has_come fromisoformat now pre_idle_s e
            then dispatch_entry answers now stamp eid e w
            else (ok tt, w))
        else (ok tt, w)
  ]

  unfoldable pub visit_all :
      Answers → (now : ℤ) → (stamp : ℕ) → (pre_idle_s : ℤ) → List Entry → Exec (World F) (Unit {0})
  visit_all answers now stamp pre_idle_s [] w = (ok tt, w)
  visit_all answers now stamp pre_idle_s (e ∷ entries) w =
      let (r, w') = visit answers now stamp pre_idle_s e w in
      let rest = visit_all answers now stamp pre_idle_s entries w' in
      elim r [ ok _ ↦ rest | err error ↦ (err error, w') ]

  -- A round of `run_loop`; an exception ends the task.
  unfoldable pub run_round : Answers → (now : ℤ) → (stamp : ℕ) → Exec (World F) (Unit {0})
  run_round answers now stamp w =
      visit_all answers now stamp w.schedule.defaults.pre_run_idle_s w.schedule.entries w
