-- ===== src/Scheduler/Tasks.antt =====
-- What simulator_app/services/scheduler.py does besides its loop: the callbacks and tasks that a
-- dispatch arranges, when their time comes, and `reload`.
use databus_sim.Prelude.{ℕ, String, true, Option, List, [], ◌∷◌, str_eq, if◌then◌else◌}
use databus_sim.Effect.{Result, ok, err, other_error, Exec}
use databus_sim.Fleet.{set_moving}
use databus_sim.RunBinder.{StateChange}
use databus_sim.Databus.{Outcome, done, databus_error, raised}
use databus_sim.Scheduler.{Instant, Document, load}
use databus_sim.Scheduler.Dispatch.{World, Hook, publish_snapshot}

-- The delayed starts of motion that a change of state sets off: the vehicle and its delay.
unfoldable pub run_hooks : List Hook → StateChange → List (String × ℕ)
run_hooks [] change = []
run_hooks (h ∷ hooks) change =
    let rest = run_hooks hooks change in
    if str_eq change.new "Confirmed"
    then (if str_eq change.run_id h.run_id then (h.vehicle_id, h.delay) ∷ rest else rest)
    else rest

-- `_confirm` behind its sleep, by what update_run comes to: only a DatabusError is caught.
unfoldable pub confirm_wakes : Outcome String → Result (Unit {0})
confirm_wakes (done state) = ok tt
confirm_wakes (databus_error status) = ok tt
confirm_wakes raised = err other_error

module _ {F : Type 0} where
  -- `_start` behind its sleep.
  unfoldable pub start_wakes : Hook → (now : ℕ) → Exec (World F) (Unit {0})
  start_wakes h now w =
      let (r, fleet) = set_moving h.vehicle_id true now w.binder.fleet in
      (r, record w { binder = record w.binder { fleet = fleet } })

  -- `reload`
  unfoldable pub reload :
      (fromisoformat : String → Option Instant)
      → Result Document
      → (stamp : ℕ) → Exec (World F) (Unit {0})
  reload fromisoformat document stamp w =
      let (r, schedule) = load fromisoformat document w.schedule in
      let w' : World F = record w { schedule = schedule } in
      elim r [ ok _ ↦ (ok tt, publish_snapshot stamp w') | err e ↦ (err e, w') ]
