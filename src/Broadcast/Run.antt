-- ===== src/Broadcast/Run.antt =====
-- The runs of the throttle (simulator_app/realtime/broadcast.py): calls of `broadcast_fleet` and
-- wake-ups of the deferred task, at times that do not go back. A sleep is not cut short.
use databus_sim.Prelude.{ℕ, ◌≤◌, ◌≡◌, some}
use databus_sim.Broadcast.{Throttle, Deferred, new_throttle, broadcast_fleet, deferred_wakes}

-- The throttle together with the time of the latest event.
pub record Moment (A : Type 0) : Type 0 where
  pub clock : ℕ
  pub throttle : Throttle A

module _ {A : Type 0} where
  pub data Step (m : Moment A) : Moment A → Type 0 where
    call :
        (now : ℕ) (snapshot : A)
        → m.clock ≤ now
        → Step m (record { clock = now; throttle = broadcast_fleet now snapshot m.throttle })
    wake :
        (now : ℕ) (task : Deferred A)
        → m.throttle.throttle_task ≡ some task
        → m.clock ≤ now
        → task.due ≤ now
        → Step m (record { clock = now; throttle = deferred_wakes now task m.throttle })

  abbrev pub start : Moment A
  start = record { clock = 0; throttle = new_throttle }

  -- What can come about from the start of the module.
  pub data Reach : Moment A → Type 0 where
    here : Reach start
    next : {m n : Moment A} → Reach m → Step m n → Reach n
