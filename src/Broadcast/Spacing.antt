-- ===== src/Broadcast/Spacing.antt =====
-- What the throttle of simulator_app/realtime/broadcast.py promises in every run.
use databus_sim.Prelude.{
  ℕ, ◌+◌, ◌-◌, ◌≤◌, ◌<◌, ◌≡◌, refl, Bool, true, false, Option, none, some, List, [], ◌∷◌, arith,
  inl, inr, Bool-cases, Option-cases, leb,
}
use databus_sim.Broadcast.{
  Throttle, Deferred, Sent, throttle, new_throttle, keep_task, broadcast_fleet, deferred_wakes,
}
use databus_sim.Broadcast.Run.{Moment, Step, call, wake, Reach, here, next}

module _ {A : Type 0} where
  -- Sends, the latest first, that lie at least one window apart; `last` is the time of the latest.
  abbrev pub IsSpaced : ℕ → List (Sent A) → Type 0
  IsSpaced last [] = Unit
  IsSpaced last (x ∷ []) = x.time ≡ last
  IsSpaced last (x ∷ y ∷ xs) =
      (x.time ≡ last) × (y.time + throttle ≤ x.time) × IsSpaced y.time (y ∷ xs)

  -- A deferred send waits for the end of the window and only while there is something to send.
  abbrev pub IsPending : ℕ → Bool → Option (Deferred A) → Type 0
  IsPending last dirty none = dirty ≡ false
  IsPending last dirty (some task) = (dirty ≡ true) × (task.due ≡ last + throttle)

  pub record IsThrottled (m : Moment A) : Type 0 where
    pub past : m.throttle.last_fleet_broadcast ≤ m.clock
    pub spaced : IsSpaced m.throttle.last_fleet_broadcast m.throttle.sent
    pub pending :
        IsPending m.throttle.last_fleet_broadcast m.throttle.fleet_dirty m.throttle.throttle_task

  IsSpaced-cons :
      (last now : ℕ) (payload : A) (sent : List (Sent A))
      → last + throttle ≤ now
      → IsSpaced last sent
      → IsSpaced now (record { time = now; payload = payload } ∷ sent)
  IsSpaced-cons last now payload [] h spaced = refl
  IsSpaced-cons last now payload (x ∷ []) h spaced = (refl, omega arith, refl)
  IsSpaced-cons last now payload (x ∷ y ∷ xs) h spaced =
      (refl, omega arith, (refl, spaced.1, spaced.2))

  call-IsThrottled :
      (m : Moment A) (now : ℕ) (snapshot : A)
      → m.clock ≤ now
      → IsThrottled m
      → IsThrottled (record { clock = now; throttle = broadcast_fleet now snapshot m.throttle })
  unfolding broadcast_fleet keep_task
  call-IsThrottled m now snapshot later h =
      let last = m.throttle.last_fleet_broadcast in
      elim (Bool-cases (leb throttle (now - m.throttle.last_fleet_broadcast))) [
        | inl free ↦ rw free (record {
          past = omega arith;
          spaced = IsSpaced-cons _ now snapshot _ (let p = h.past in ground arith) h.spaced;
          pending = refl;
        })
        | inr closed ↦ elim (Option-cases m.throttle.throttle_task) [
          | inl idle ↦
              rw (closed, idle)
                (record {
                  past = let p = h.past in omega arith;
                  spaced = h.spaced;
                  pending = (refl, let p = h.past in ground arith);
                })
          | inr (task, waiting) ↦
              rw (closed, waiting)
                (record {
                  past = let p = h.past in omega arith;
                  spaced = h.spaced;
                  pending = (refl, (let p = h.pending in rw waiting at p).1);
                })
        ]
      ]

  wake-IsThrottled :
      (m : Moment A) (now : ℕ) (task : Deferred A)
      → m.throttle.throttle_task ≡ some task
      → m.clock ≤ now
      → task.due ≤ now
      → IsThrottled m
      → IsThrottled (record { clock = now; throttle = deferred_wakes now task m.throttle })
  unfolding deferred_wakes
  wake-IsThrottled m now task waiting later due h =
      let p = h.pending in
      let (dirty, window) = rw waiting at p in
      rw dirty (record {
        past = omega arith;
        spaced = IsSpaced-cons _ now task.snapshot _ (omega arith) h.spaced;
        pending = refl;
      })

  Step-IsThrottled : {m n : Moment A} → Step m n → IsThrottled m → IsThrottled n
  Step-IsThrottled {m} (call now snapshot later) h = call-IsThrottled m now snapshot later h
  Step-IsThrottled {m} (wake now task waiting later due) h =
      wake-IsThrottled m now task waiting later due h

  -- In every run of calls and wake-ups the snapshots that are sent lie at least 200 ms apart, and
  -- a deferred send is waiting exactly while there is a snapshot held back: it is due at the end
  -- of the window of the latest send.
  pub reachable-IsThrottled : {m : Moment A} → Reach m → IsThrottled m
  unfolding new_throttle
  reachable-IsThrottled here = record { past = omega arith; spaced = tt; pending = refl }
  reachable-IsThrottled (next r st) = Step-IsThrottled st (reachable-IsThrottled r)

  unfoldable pub call_all : List (ℕ × A) → Throttle A → Throttle A
  call_all [] s = s
  call_all ((now, snapshot) ∷ calls) s = call_all calls (broadcast_fleet now snapshot s)

  -- All calls stand before `due`.
  abbrev pub IsBefore : ℕ → List (ℕ × A) → Type 0
  IsBefore due [] = Unit
  IsBefore due ((now, snapshot) ∷ calls) = (now < due) × IsBefore due calls

  call_waiting :
      (s : Throttle A) (task : Deferred A) (now : ℕ) (snapshot : A)
      → s.throttle_task ≡ some task
      → s.fleet_dirty ≡ true
      → task.due ≡ s.last_fleet_broadcast + throttle
      → now < task.due
      → broadcast_fleet now snapshot s ≡ s
  unfolding broadcast_fleet keep_task
  call_waiting s task now snapshot waiting dirty due early = ground arith

  call_all_waiting :
      (calls : List (ℕ × A)) (s : Throttle A) (task : Deferred A)
      → s.throttle_task ≡ some task
      → s.fleet_dirty ≡ true
      → task.due ≡ s.last_fleet_broadcast + throttle
      → IsBefore task.due calls
      → call_all calls s ≡ s
  unfolding call_all
  call_all_waiting [] s task waiting dirty due h = refl
  call_all_waiting ((now, snapshot) ∷ calls) s task waiting dirty due h =
      rw (call_waiting s task now snapshot waiting dirty due h.0)
        (call_all_waiting calls s task waiting dirty due h.1)

  -- While a deferred send waits in a run of the module, calls with newer snapshots change nothing:
  -- the send then delivers the snapshot of the call that started the wait, once.
  pub deferred_sends_first :
      {m : Moment A} (calls : List (ℕ × A)) (task : Deferred A) (now : ℕ)
      → Reach m
      → m.throttle.throttle_task ≡ some task
      → IsBefore task.due calls
      → (call_all calls m.throttle ≡ m.throttle)
        × ((deferred_wakes now task (call_all calls m.throttle)).sent
            ≡ record { time = now; payload = task.snapshot } ∷ m.throttle.sent)
  unfolding deferred_wakes
  deferred_sends_first {m} calls task now r waiting before =
      let p = (reachable-IsThrottled r).pending in
      let (dirty, due) = rw waiting at p in
      let same = call_all_waiting calls m.throttle task waiting dirty due before in
      (same, rw same (rw dirty))
