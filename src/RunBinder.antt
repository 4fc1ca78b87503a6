-- ===== src/RunBinder.antt =====
-- simulator_app/services/run_binder.py: the tracked runs, and what their lifecycle does to the
-- fleet. A binding is an object: `ident` tells it from a later binding of the same run, so that a
-- poll which waits for its reply writes to the object that it read. Times are in microseconds.
pub mod Confirm
pub mod Release
pub mod Frame
pub mod Polling
pub mod Unknown
pub mod Manned
pub mod Survives
pub mod Bindings
pub mod Refinement
mod Tests
use mathlib.Core.Option
use databus_sim.Prelude.{
  ℕ, suc, ◌+◌, String, Bool, true, false, not, ◌||◌, Option, none, some, List, [], ◌∷◌, ◌++◌,
  str_eq, ltb, ◌==◌, if◌then◌else◌,
}
use databus_sim.Float.{Float, lit}
use databus_sim.Dict.{Dict, get, put, remove, keys}
use databus_sim.Effect.{Exec, Result, ok, err, pure, ◌>>=◌, ◌>>◌}
use databus_sim.Fleet.{
  FleetState, Vehicle, set_lifecycle_state, bind_run, unbind_run, set_moving, set_transmitting,
}

pub record BoundRun : Type 0 where
  pub ident : ℕ
  pub run_id : String
  pub vehicle_id : String
  pub trip_id : String
  pub shape_id : String
  pub terminal_stop_id : Option String
  pub lifecycle_state : Option String
  pub last_polled_at : Option ℕ
  pub tracked_since : ℕ

-- A call of `on_state_change`.
pub record StateChange : Type 0 where
  pub run_id : String
  pub old : Option String
  pub new : String

-- `untracks` are the runs whose `call_later(_UNTRACK_DELAY_S, untrack)` has been scheduled.
pub record Binder (F : Type 0) : Type 0 where
  pub fleet : FleetState F
  pub bindings : Dict BoundRun
  pub has_callback : Bool
  pub changes : List StateChange
  pub untracks : List String
  pub next_ident : ℕ

-- TERMINAL_STATES
unfoldable pub is_terminal : String → Bool
is_terminal state =
    str_eq state "Completed"
    || str_eq state "Cancelled"
    || str_eq state "Interrupted"
    || str_eq state "Short Turned"

module _ {F : Type 0} where
  unfoldable pub track :
      (run_id vehicle_id trip_id shape_id : String) (terminal_stop_id : Option String) (now : ℕ)
      → Binder F
      → Binder F
  track run_id vehicle_id trip_id shape_id terminal_stop_id now s = record s {
    bindings = put s.bindings run_id (record {
      ident = s.next_ident;
      run_id = run_id;
      vehicle_id = vehicle_id;
      trip_id = trip_id;
      shape_id = shape_id;
      terminal_stop_id = terminal_stop_id;
      lifecycle_state = none;
      last_polled_at = none;
      tracked_since = now;
    });
    next_ident = suc s.next_ident;
  }

  unfoldable pub untrack : String → Binder F → Binder F
  untrack run_id s = record s { bindings = remove s.bindings run_id }

  -- Runs a fleet method from the binder.
  unfoldable pub on_fleet : Exec (FleetState F) (Unit {0}) → Exec (Binder F) (Unit {0})
  on_fleet m s = let (r, fleet) = m s.fleet in (r, record s { fleet = fleet })

module _ {F : Type 0} ⦃fl : Float F⦄ where
  -- `v.progress_m = 0.0` on the vehicle object, if there is one; no callback is called.
  unfoldable pub reset_progress : String → Exec (FleetState F) (Unit {0})
  reset_progress vid s = elim (get s.by_id vid) [
    | none ↦ (ok tt, s)
    | some v ↦ (ok tt, record s { by_id = put s.by_id vid (record v { progress_m = lit 0 }) })
  ]

  -- The three steps of a confirmed run.
  unfoldable pub confirm : BoundRun → ℕ → Exec (FleetState F) (Unit {0})
  confirm b now = do
    bind_run b.vehicle_id b.run_id b.trip_id b.shape_id b.terminal_stop_id now
    set_moving b.vehicle_id false now
    reset_progress b.vehicle_id
    set_transmitting b.vehicle_id true now

  unfoldable pub release : BoundRun → ℕ → Exec (FleetState F) (Unit {0})
  release b now = do set_transmitting b.vehicle_id false now; unbind_run b.vehicle_id now

  -- The part of `_apply_state` that depends on the state.
  unfoldable pub act_on : BoundRun → String → ℕ → Exec (FleetState F) (Unit {0})
  act_on b new_state now =
      if str_eq new_state "Confirmed"
      then confirm b now
      else if str_eq new_state "Tracking"
          || str_eq new_state "In Progress"
          || str_eq new_state "No Signal"
      then pure tt
      else if is_terminal new_state
      then release b now
      else pure tt

  -- `_apply_state`
  unfoldable pub apply_state : BoundRun → String → ℕ → Exec (FleetState F) (Unit {0})
  apply_state b new_state now = do
    set_lifecycle_state b.vehicle_id (some new_state) now
    act_on b new_state now

  -- `_force_unbind`
  unfoldable pub force_unbind : BoundRun → ℕ → Exec (Binder F) (Unit {0})
  force_unbind b now = do on_fleet (unbind_run b.vehicle_id now); λ s. (ok tt, untrack b.run_id s)

  -- Assignments to the binding object `b`: they show in `_bindings` if it still holds that object.
  unfoldable pub write_back : BoundRun → Binder F → Binder F
  write_back b s = elim (get s.bindings b.run_id) [
    | none ↦ s
    | some c ↦ if c.ident == b.ident then record s { bindings = put s.bindings b.run_id b } else s
  ]

  -- The end of a round in which the state has changed: the callback and the delayed untrack.
  unfoldable pub announce : BoundRun → String → Binder F → Binder F
  announce b new_state s =
      let said =
        if s.has_callback
        then s.changes
          ++ record { run_id = b.run_id; old = b.lifecycle_state; new = new_state } ∷ []
        else s.changes in
      let later = if is_terminal new_state then s.untracks ++ b.run_id ∷ [] else s.untracks in
      record s { changes = said; untracks = later }

-- What `get_run_state` does: it raises, or returns a state or None.
pub data Reply : Type 0 where
  failed : Reply
  answered : Option String → Reply

-- The grace of a run that the databus does not know yet: 30 s.
abbrev pub grace_elapsed : BoundRun → ℕ → Bool
grace_elapsed b now = ltb (b.tracked_since + 30000000) now

-- `x != y` for texts or None
abbrev pub differs : Option String → String → Bool
differs none new = true
differs (some old) new = not (str_eq old new)

abbrev pub is_known : Option String → Bool
is_known none = false
is_known (some state) = true

module _ {F : Type 0} ⦃fl : Float F⦄ where
  -- The start of a round of `poll_loop`: the binding whose state is fetched, if any.
  unfoldable pub poll_start : String → Binder F → Option BoundRun
  poll_start run_id s = elim (get s.bindings run_id) [
    | none ↦ none
    | some b ↦ elim b.lifecycle_state [
      | none ↦ some b
      | some state ↦ if is_terminal state then none else some b
    ]
  ]

  -- The round behind the `await`, for the binding `b` and the reply; the state may have changed
  -- since.
  unfoldable pub poll_finish : BoundRun → Reply → ℕ → Exec (Binder F) (Unit {0})
  poll_finish b failed now s = (ok tt, s)
  poll_finish b (answered none) now s =
      if is_known b.lifecycle_state || grace_elapsed b now then force_unbind b now s else (ok tt, s)
  poll_finish b (answered (some new_state)) now s =
      if differs b.lifecycle_state new_state
      then (let b' = record b { last_polled_at = some now; lifecycle_state = some new_state } in
          let (r, s') = on_fleet (apply_state b new_state now) (write_back b' s) in
          elim r [ ok _ ↦ (ok tt, announce b new_state s') | err e ↦ (err e, s') ])
      else (ok tt, write_back (record b { last_polled_at = some now }) s)

  -- A round with nothing else happening during the `await`.
  unfoldable pub poll_one : String → Reply → ℕ → Exec (Binder F) (Unit {0})
  poll_one run_id reply now s = elim (poll_start run_id s) [
    | none ↦ (ok tt, s)
    | some b ↦ poll_finish b reply now s
  ]

  -- `for run_id in list(self._bindings)`; an exception leaves the loop, and ends the task.
  unfoldable pub poll_all : List String → (String → Reply) → ℕ → Exec (Binder F) (Unit {0})
  poll_all [] reply now s = (ok tt, s)
  poll_all (run_id ∷ ids) reply now s =
      let (r, s') = poll_one run_id (reply run_id) now s in
      let rest = poll_all ids reply now s' in elim r [ ok _ ↦ rest | err e ↦ (err e, s') ]

  unfoldable pub poll_pass : (String → Reply) → ℕ → Exec (Binder F) (Unit {0})
  poll_pass reply now s = poll_all (keys s.bindings) reply now s
