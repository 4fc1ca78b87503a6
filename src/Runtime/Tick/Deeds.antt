-- ===== src/Runtime/Tick/Deeds.antt =====
-- What the other tasks do to the fleet while `tick_loop` of simulator_app/runtime.py waits: calls
-- of mutators, and the `_apply_state` of simulator_app/services/run_binder.py, in which nothing
-- waits.
use databus_sim.Prelude.{ℕ, String, List, [], ◌∷◌}
use databus_sim.Float.{Float}
use databus_sim.Fleet.{FleetState}
use databus_sim.Fleet.Changes.{Change, perform}
use databus_sim.RunBinder.{BoundRun, apply_state}

pub data Deed (F : Type 0) : Type 0 where
  changed : Change F → Deed F
  applied : (binding : BoundRun) → (new_state : String) → (now : ℕ) → Deed F

module _ {F : Type 0} ⦃fl : Float F⦄ where
  unfoldable pub do_deed : Deed F → FleetState F → FleetState F
  do_deed (changed c) s = (perform c s).1
  do_deed (applied binding new_state now) s = (apply_state binding new_state now s).1

  -- An exception ends only its own deed.
  unfoldable pub do_all : List (Deed F) → FleetState F → FleetState F
  do_all [] s = s
  do_all (d ∷ ds) s = do_all ds (do_deed d s)
