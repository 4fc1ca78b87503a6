-- ===== src/Api/Events.antt =====
-- The requests of simulator_app/api/views.py and the rounds of `poll_loop` in
-- simulator_app/services/run_binder.py, one after the other, with what else happens between them.
use databus_sim.Prelude.{ℕ, String, Option, none, some, List, [], ◌∷◌}
use databus_sim.Float.{Float}
use databus_sim.Effect.{Exec, Result, ok, err}
use databus_sim.Fleet.Changes.{Change, perform}
use databus_sim.Databus.{Outcome}
use databus_sim.RunBinder.{BoundRun, Binder, Reply, poll_start, poll_finish, untrack}
use databus_sim.Api.{Service, TrackRequest, track_run_view}

-- What happens: a request to track a run, the start of a round of the poller for a run, the reply
-- that the round waits for, a call of a mutator, or the delayed untrack of a run that is over.
pub data Event (F : Type 0) : Type 0 where
  track_requested : Option TrackRequest → Outcome (Option String) → (now : ℕ) → Event F
  round_started : (run_id : String) → Event F
  reply_came : Reply → (now : ℕ) → Event F
  fleet_changed : Change F → Event F
  untrack_due : (run_id : String) → Event F

-- The service, and the binding for which the poller waits.
pub record Polling (F : Type 0) : Type 0 where
  pub service : Service F
  pub waiting : Option BoundRun

abbrev pub with_binder : {F : Type 0} → Service F → Binder F → Service F
with_binder s b = record s { binder = some b }

module _ {F : Type 0} ⦃fl : Float F⦄ where
  -- The poller starts a round when it waits for none, and goes on when a reply comes.
  unfoldable pub start_round : String → Binder F → Option BoundRun → Option BoundRun
  start_round run_id b none = poll_start run_id b
  start_round run_id b (some c) = some c

  unfoldable pub finish_round :
      Reply → ℕ → Binder F → Option BoundRun → Result (Unit {0}) × Binder F
  finish_round reply now b none = (ok tt, b)
  finish_round reply now b (some c) = poll_finish c reply now b

  -- Only an exception of a round ends the poller; a request and a call answer for themselves.
  unfoldable pub happen : Event F → Binder F → Exec (Polling F) (Unit {0})
  happen (track_requested q terminal now) b p =
      (ok tt, record p { service = (track_run_view q terminal now p.service).1 })
  happen (round_started run_id) b p = (ok tt, record p { waiting = start_round run_id b p.waiting })
  happen (reply_came reply now) b p =
      let (r, b') = finish_round reply now b p.waiting in
      (r, record { service = with_binder p.service b'; waiting = none })
  happen (fleet_changed c) b p = (
    ok tt,
    record p { service = with_binder p.service (record b { fleet = (perform c b.fleet).1 }) },
  )
  happen (untrack_due run_id) b p =
      (ok tt, record p { service = with_binder p.service (untrack run_id b) })

  unfoldable pub happen_on : Option (Binder F) → Event F → Exec (Polling F) (Unit {0})
  happen_on none e p = (ok tt, p)
  happen_on (some b) e p = happen e b p

  unfoldable pub happen_all : List (Event F) → Exec (Polling F) (Unit {0})
  happen_all [] p = (ok tt, p)
  happen_all (e ∷ es) p =
      let (r, p') = happen_on p.service.binder e p in
      let rest = happen_all es p' in elim r [ ok _ ↦ rest | err x ↦ (err x, p') ]
