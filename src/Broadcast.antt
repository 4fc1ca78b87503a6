-- ===== src/Broadcast.antt =====
-- simulator_app/realtime/broadcast.py: the throttle of the fleet snapshots. Times are in
-- microseconds. A section under the lock runs with nothing else in between, since nothing in it
-- waits, and the send that follows is recorded at its time. `_throttle_task` is some task exactly
-- while that task waits.
pub mod Run
pub mod Spacing
pub mod Consumer
mod Tests
use databus_sim.Prelude.{
  ℕ, ◌+◌, ◌-◌, Bool, true, false, Option, none, some, List, [], ◌∷◌, leb, if◌then◌else◌,
}

-- THROTTLE_S
abbrev pub throttle : ℕ
throttle = 200000

-- A `_deferred` that sleeps: when it wakes at the earliest, and the snapshot that it holds.
pub record Deferred (A : Type 0) : Type 0 where
  pub due : ℕ
  pub snapshot : A

pub record Sent (A : Type 0) : Type 0 where
  pub time : ℕ
  pub payload : A

-- The module's variables, and what has been sent to the group, the latest first.
pub record Throttle (A : Type 0) : Type 0 where
  pub last_fleet_broadcast : ℕ
  pub fleet_dirty : Bool
  pub throttle_task : Option (Deferred A)
  pub sent : List (Sent A)

module _ {A : Type 0} where
  unfoldable pub new_throttle : Throttle A
  new_throttle = record {
    last_fleet_broadcast = 0;
    fleet_dirty = false;
    throttle_task = none;
    sent = [];
  }

  -- The task that is waiting, or a new one for the remainder of the window.
  unfoldable pub keep_task : Option (Deferred A) → (due : ℕ) → A → Deferred A
  keep_task (some task) due snapshot = task
  keep_task none due snapshot = record { due = due; snapshot = snapshot }

  unfoldable pub broadcast_fleet : (now : ℕ) → A → Throttle A → Throttle A
  broadcast_fleet now snapshot s =
      let elapsed = now - s.last_fleet_broadcast in
      let delay = throttle - elapsed in
      if leb throttle elapsed
      then record s {
        throttle_task = none;
        fleet_dirty = false;
        last_fleet_broadcast = now;
        sent = record { time = now; payload = snapshot } ∷ s.sent;
      }
      else record s {
        fleet_dirty = true;
        throttle_task = some (keep_task s.throttle_task (now + delay) snapshot);
      }

  -- `_deferred` behind its sleep.
  unfoldable pub deferred_wakes : (now : ℕ) → Deferred A → Throttle A → Throttle A
  deferred_wakes now task s =
      if s.fleet_dirty
      then record s {
        throttle_task = none;
        fleet_dirty = false;
        last_fleet_broadcast = now;
        sent = record { time = now; payload = task.snapshot } ∷ s.sent;
      }
      else record s { throttle_task = none }
