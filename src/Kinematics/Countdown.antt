-- ===== src/Kinematics/Countdown.antt =====
-- The two counters of `step_vehicle` (simulator_app/domain/kinematics.py) over many ticks: the
-- dwell and the idle countdown.
use databus_sim.Prelude.{
  ℕ, suc, ◌≡◌, refl, true, false, some, List, [], ◌∷◌, arith, inl, inr, subst, sym, length,
  Bool-cases, if◌then◌else◌,
}
use databus_sim.Prelude.Int.{ℤ, pos, ◌-ℤ◌, ltb_ℤ}
use databus_sim.Float.{Float, IsOrdered, lit, fmax, feq}
use databus_sim.Fleet.{Vehicle, Kin}
use databus_sim.Kinematics.{Shape, Stop, Draws, init_kin}
use databus_sim.Kinematics.Step.{step_vehicle, count_down, with_kin}

module _ {F : Type 0} ⦃fl : Float F⦄ (dt : F) (shape : Shape F) (stops : List (Stop F))
    (idle_s : ℤ) where
  -- Ticks of one vehicle, each with its own random draws.
  unfoldable pub ticks : List (Draws F) → Vehicle F → Vehicle F
  ticks [] v = v
  ticks (r ∷ rs) v = ticks rs (step_vehicle dt shape stops idle_s r v).1

  dwell_tick :
      (r : Draws F) (v : Vehicle F) (k : Kin F) (n : ℕ)
      → v.kin ≡ some k
      → k.dwell_remaining ≡ pos (suc n)
      → (step_vehicle dt shape stops idle_s r v).1
        ≡ with_kin v (record k { dwell_remaining = pos n })
  unfolding step_vehicle init_kin ◌-ℤ◌
  dwell_tick r v k n e d = ground arith

  -- A dwell of as many ticks as there are draws runs down to 0, and leaves all else of the vehicle
  -- and of its scratch space as it was, whether it is moving or not.
  pub ticks_dwell :
      (rs : List (Draws F)) (v : Vehicle F) (k : Kin F)
      → v.kin ≡ some k
      → k.dwell_remaining ≡ pos (length rs)
      → ticks rs v ≡ with_kin v (record k { dwell_remaining = pos 0 })
  unfolding ticks
  ticks_dwell [] v k e d = ground arith
  ticks_dwell (r ∷ rs) v k e d = rw (dwell_tick r v k (length rs) e d) (
      ticks_dwell rs (with_kin v (record k { dwell_remaining = pos (length rs) }))
        (record k { dwell_remaining = pos (length rs) }) refl refl)

  -- The countdown after some ticks.
  unfoldable pub drained : List (Draws F) → F → F
  drained [] idle = idle
  drained (r ∷ rs) idle = drained rs (fmax (lit 0) (fl.sub idle dt))

  still_silent :
      (r : Draws F) (v : Vehicle F)
      → v.moving ≡ false
      → v.transmitting ≡ false
      → ((step_vehicle dt shape stops idle_s r v).1.transmitting ≡ false)
        × ((step_vehicle dt shape stops idle_s r v).1.moving ≡ false)
  unfolding step_vehicle count_down
  still_silent r v still off = ground arith

  ticks_silent :
      (rs : List (Draws F)) (v : Vehicle F)
      → v.moving ≡ false
      → v.transmitting ≡ false
      → (ticks rs v).transmitting ≡ false
  unfolding ticks
  ticks_silent [] v still off = off
  ticks_silent (r ∷ rs) v still off =
      let (off', still') = still_silent r v still off in ticks_silent rs _ still' off'

  abbrev after_idle : Vehicle F → Kin F → Vehicle F
  after_idle v k = with_kin v (record k {
    post_run_idle_remaining_s = fmax (lit 0) (fl.sub k.post_run_idle_remaining_s dt);
  })

  idle_tick :
      (r : Draws F) (v : Vehicle F) (k : Kin F)
      → v.kin ≡ some k
      → ltb_ℤ (pos 0) k.dwell_remaining ≡ false
      → v.moving ≡ false
      → fl.lt (lit 0) k.post_run_idle_remaining_s ≡ true
      → (step_vehicle dt shape stops idle_s r v).1 ≡ (
          if feq (fmax (lit 0) (fl.sub k.post_run_idle_remaining_s dt)) (lit 0)
          then record (after_idle v k) { transmitting = false }
          else after_idle v k)
  unfolding step_vehicle init_kin count_down
  idle_tick r v k e awake still left = ground arith

  module _ (laws : IsOrdered F) where
    -- A countdown that has not ended still has time left.
    time_left :
        (x : F) → feq (fmax (lit 0) x) (lit 0) ≡ false → fl.lt (lit 0) (fmax (lit 0) x) ≡ true
    time_left x h =
        let zero_number = laws.lit_mono 0 0 (omega arith) (omega arith) in
        ground (arith, laws.le_of_lt (lit 0) x)

    -- Given the float laws, a parked vehicle that is not dwelling and has time left on its idle
    -- countdown stops transmitting: if the countdown, lowered by the
    -- tick length at each of these ticks and never below 0, has come to 0, the vehicle is silent.
    pub ticks_silence :
        (rs : List (Draws F)) (v : Vehicle F) (k : Kin F)
        → v.kin ≡ some k
        → ltb_ℤ (pos 0) k.dwell_remaining ≡ false
        → v.moving ≡ false
        → fl.lt (lit 0) k.post_run_idle_remaining_s ≡ true
        → feq (drained rs k.post_run_idle_remaining_s) (lit 0) ≡ true
        → (ticks rs v).transmitting ≡ false
    unfolding ticks drained
    ticks_silence [] v k e awake still left done =
        let zero_number = laws.lit_mono 0 0 (omega arith) (omega arith) in
        let idle = k.post_run_idle_remaining_s in
        let (_, number) =
          laws.refl_of_le (lit 0) k.post_run_idle_remaining_s (laws.le_of_lt _ _ left) in
        ground (arith, laws.lt-eq-not-le (lit 0) k.post_run_idle_remaining_s zero_number number)
    ticks_silence (r ∷ rs) v k e awake still left done =
        let rest = fmax (lit 0) (fl.sub k.post_run_idle_remaining_s dt) in
        let tick = idle_tick r v k e awake still left in
        elim (Bool-cases (feq (fmax (lit 0) (fl.sub k.post_run_idle_remaining_s dt)) (lit 0))) [
          | inl last ↦
              subst (λ w. (ticks rs w).transmitting ≡ false) (sym (rw last at tick))
                (ticks_silent rs (record (after_idle v k) { transmitting = false }) still refl)
          | inr more ↦
              subst (λ w. (ticks rs w).transmitting ≡ false) (sym (rw more at tick))
                (ticks_silence rs (after_idle v k) (record k { post_run_idle_remaining_s = rest })
                  refl awake still (time_left _ more) done)
        ]
