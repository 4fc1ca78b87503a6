-- ===== src/Api/Office.antt =====
-- The service of simulator_app/api/views.py and the runner of simulator_app/services/scheduler.py
-- on the binder that they share, with the rounds of its poller, one after the other. A round of
-- the scheduler is one step: nothing else happens while it waits for the databus.
use databus_sim.Prelude.{String, ◌≡◌, Option, none, some, List, [], ◌∷◌, All}
use databus_sim.Float.{Float}
use databus_sim.Effect.{Exec, ok, err}
use databus_sim.Fleet.{FleetState}
use databus_sim.RunBinder.{Binder}
use databus_sim.RunBinder.Manned.{IsThere}
use databus_sim.Scheduler.{Entry, Instant}
use databus_sim.Scheduler.Dispatch.{World}
use databus_sim.Scheduler.Life
use databus_sim.Scheduler.Life.{loaded, round, react, new_world, visit_all-keeps}
use databus_sim.Api.Events
use databus_sim.Api.Events.{Polling, happen_on, with_binder}

-- What happens: the scheduler reads its file or makes a round, or one of the events of the
-- service.
pub data Happening (F : Type 0) : Type 0 where
  scheduled : Life.Event → Happening F
  served : Events.Event F → Happening F

-- The scheduler, and the service with its poller. The binder is the service's; the scheduler gets
-- it at each of its steps.
pub record Office (F : Type 0) : Type 0 where
  pub scheduler : World F
  pub polling : Polling F

module _ {F : Type 0} ⦃fl : Float F⦄ (fromisoformat : String → Option Instant) where
  unfoldable pub react_on : Option (Binder F) → Life.Event → Office F → Office F
  react_on none v o = o
  react_on (some b) v o =
      let w = react fromisoformat v (record o.scheduler { binder = b }) in
      record {
        scheduler = w;
        polling = record o.polling { service = with_binder o.polling.service w.binder };
      }

  -- Only an exception of a round of the poller ends it.
  unfoldable pub occur : Happening F → Exec (Office F) (Unit {0})
  occur (scheduled v) o = (ok tt, react_on o.polling.service.binder v o)
  occur (served e) o =
      let (r, p) = happen_on o.polling.service.binder e o.polling in (r, record o { polling = p })

  unfoldable pub occur_all : List (Happening F) → Exec (Office F) (Unit {0})
  occur_all [] o = (ok tt, o)
  occur_all (h ∷ hs) o =
      let (r, o') = occur h o in
      let rest = occur_all hs o' in elim r [ ok _ ↦ rest | err x ↦ (err x, o') ]

module _ {F : Type 0} where
  -- The vehicle of the entry, if it names one, is in the fleet.
  abbrev pub IsCrewed : FleetState F → Entry → Type 0
  IsCrewed s e = (vid : String) → e.vehicle_id ≡ some vid → IsThere vid s

  -- The file names only vehicles of the fleet, whenever the scheduler reads it.
  abbrev pub NamesOnly : FleetState F → Happening F → Type 0
  NamesOnly s (scheduled (loaded (ok document))) = All (IsCrewed s) document.runs
  NamesOnly s (scheduled (loaded (err e))) = Unit {0}
  NamesOnly s (scheduled (round answers now stamp)) = Unit {0}
  NamesOnly s (served e) = Unit {0}
