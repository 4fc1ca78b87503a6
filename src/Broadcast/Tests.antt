-- ===== src/Broadcast/Tests.antt =====
-- The theorems on the broadcasts at concrete inputs.
use databus_sim.Prelude.{String, ◌≡◌, refl, some, [], ◌∷◌, arith}
use databus_sim.Broadcast.{Deferred, new_throttle, broadcast_fleet, deferred_wakes, keep_task}
use databus_sim.Broadcast.Run.{Moment, call, Reach, here, next}
use databus_sim.Broadcast.Spacing.{
  IsThrottled, reachable-IsThrottled, call_all, deferred_sends_first,
}

-- One send at 300 ms, and a snapshot held back at 350 ms.
abbrev held : Moment String
held = record {
  clock = 350000;
  throttle = broadcast_fleet 350000 "b" (broadcast_fleet 300000 "a" new_throttle);
}

held-Reach : Reach held
held-Reach = next (next here (call 300000 "a" (omega arith))) (call 350000 "b" (omega arith))

abbrev later : Deferred String
later = record { due = 500000; snapshot = "b" }

held-waits : held.throttle.throttle_task ≡ some later
unfolding broadcast_fleet new_throttle keep_task
held-waits = refl

reachable-IsThrottled_example : IsThrottled held
reachable-IsThrottled_example = reachable-IsThrottled held-Reach

deferred_sends_first_example :
    (call_all ((400000, "c") ∷ []) held.throttle ≡ held.throttle)
    × ((deferred_wakes 500000 later (call_all ((400000, "c") ∷ []) held.throttle)).sent
        ≡ record { time = 500000; payload = "b" } ∷ held.throttle.sent)
deferred_sends_first_example =
    deferred_sends_first ((400000, "c") ∷ []) later 500000 held-Reach held-waits (omega arith, tt)
