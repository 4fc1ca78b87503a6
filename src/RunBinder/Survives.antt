-- ===== src/RunBinder/Survives.antt =====
-- The passes of `poll_loop` (simulator_app/services/run_binder.py) over runs whose vehicles are
-- in the fleet.
use databus_sim.Prelude.{
  ℕ, String, ◌≡◌, refl, sym, subst, none, some, List, [], ◌∷◌, arith, inl, inr, ◌||◌, Bool-cases,
  Option-cases,
}
use databus_sim.Float.{Float}
use databus_sim.Dict.{get, keys}
use databus_sim.Effect.{Result, ok, Result-cases}
use databus_sim.Effect.Keeps.{Keeps, Keeps-then}
use databus_sim.Fleet.{unbind_run}
use databus_sim.RunBinder.{
  BoundRun, Binder, Reply, failed, answered, apply_state, write_back, on_fleet, force_unbind,
  announce, poll_start, poll_finish, poll_one, poll_all, poll_pass, differs, is_known,
  grace_elapsed, untrack,
}
use databus_sim.RunBinder.Manned.{
  IsThere, IsManned, mutate-IsThere, mutate-Returns, apply_state-Returns, apply_state-IsThere,
  write_back-IsManned, write_back-fleet, on_fleet-IsManned, untrack-IsManned,
}

module _ {F : Type 0} ⦃fl : Float F⦄ where
  abbrev pub Survives : Binder F → (Binder F → Result (Unit {0}) × Binder F) → Type 0
  Survives s m = ((m s).0 ≡ ok tt) × IsManned (m s).1

  announce-IsManned :
      (b : BoundRun) (new : String) (s : Binder F) → IsManned s → IsManned (announce b new s)
  unfolding announce
  announce-IsManned b new s h = record { there = h.there }

  pub poll_start-found :
      (run_id : String) (s : Binder F) (b : BoundRun)
      → poll_start run_id s ≡ some b
      → get s.bindings run_id ≡ some b
  unfolding poll_start
  poll_start-found run_id s b started = ground arith

  force_unbind-Survives :
      (b : BoundRun) (now : ℕ) (s : Binder F)
      → IsThere b.vehicle_id s.fleet
      → IsManned s
      → Survives s (force_unbind b now)
  unfolding force_unbind on_fleet unbind_run
  force_unbind-Survives b now s here h =
      let m = unbind_run {F = F} b.vehicle_id now in
      let returned : (m s.fleet).0 ≡ ok tt = (mutate-Returns b.vehicle_id _).at s.fleet here in
      let kept = on_fleet-IsManned m s (λ w. mutate-IsThere w b.vehicle_id _) h in
      rw returned (refl, untrack-IsManned b.run_id _ kept)

  pub poll_finish-Survives :
      (b : BoundRun) (reply : Reply) (now : ℕ) (s : Binder F)
      → IsThere b.vehicle_id s.fleet
      → IsManned s
      → Survives s (poll_finish b reply now)
  unfolding poll_finish on_fleet
  poll_finish-Survives b failed now s here h = (refl, h)
  poll_finish-Survives b (answered none) now s here h =
      elim (Bool-cases (is_known b.lifecycle_state || grace_elapsed b now)) [
        | inl lost ↦ rw (lost, poll_finish) (force_unbind-Survives b now s here h)
        | inr young ↦ rw (young, poll_finish) (refl, h)
      ]
  poll_finish-Survives b (answered (some new)) now s here h =
      elim (Bool-cases (differs b.lifecycle_state new)) [
        | inr same ↦
            rw (same, poll_finish)
              (refl, write_back-IsManned (record b { last_polled_at = some now }) s here h)
        | inl change ↦
            let b' : BoundRun = record b {
              last_polled_at = some now;
              lifecycle_state = some new;
            } in
            let noted = write_back b' s in
            let m = apply_state {F = F} b new now in
            let here' = subst (IsThere b.vehicle_id) (sym (write_back-fleet b' s)) here in
            let returned : (apply_state b new now (write_back b' s).fleet).0 ≡ ok tt =
              (apply_state-Returns b new now).at (write_back b' s).fleet here' in
            let kept =
              on_fleet-IsManned m noted (λ w. apply_state-IsThere w b new now)
                (write_back-IsManned b' s here h) in
            rw (change, poll_finish, returned) (refl, announce-IsManned b new _ kept)
      ]

  force_unbind-IsThere :
      (w : String) (b : BoundRun) (now : ℕ)
      → Keeps (λ s. IsThere {F = F} w s.fleet) (force_unbind b now)
  unfolding force_unbind on_fleet unbind_run untrack
  force_unbind-IsThere w b now =
      Keeps-then (on_fleet (unbind_run b.vehicle_id now)) _
        (record { at = λ s there. (mutate-IsThere w b.vehicle_id _).at s.fleet there })
        (record { at = λ s there. there })

  -- A round takes no vehicle out of the fleet.
  pub poll_finish-IsThere :
      (w : String) (b : BoundRun) (reply : Reply) (now : ℕ)
      → Keeps (λ s. IsThere {F = F} w s.fleet) (poll_finish b reply now)
  unfolding poll_finish on_fleet announce
  poll_finish-IsThere w b failed now = record { at = λ s there. there }
  poll_finish-IsThere w b (answered none) now = record {
    at = λ s there. elim (Bool-cases (is_known b.lifecycle_state || grace_elapsed b now)) [
      | inl lost ↦ rw (lost, poll_finish) ((force_unbind-IsThere w b now).at s there)
      | inr young ↦ rw (young, poll_finish) there
    ];
  }
  poll_finish-IsThere w b (answered (some new)) now = record {
    at = λ s there. elim (Bool-cases (differs b.lifecycle_state new)) [
      | inr same ↦ rw (same, poll_finish, write_back-fleet) there
      | inl change ↦
          let b' : BoundRun = record b { last_polled_at = some now; lifecycle_state = some new } in
          let kept =
            (apply_state-IsThere w b new now).at (write_back b' s).fleet
              (subst (IsThere w) (sym (write_back-fleet b' s)) there) in
          elim (Result-cases (apply_state b new now (write_back b' s).fleet).0) [
            | inl (a, returned) ↦ rw (change, poll_finish, returned) kept
            | inr (error, broke) ↦ rw (change, poll_finish, broke) kept
          ]
    ];
  }

  poll_one-Survives :
      (run_id : String) (reply : Reply) (now : ℕ) (s : Binder F)
      → IsManned s
      → Survives s (poll_one run_id reply now)
  unfolding poll_one
  poll_one-Survives run_id reply now s h = elim (Option-cases (poll_start run_id s)) [
    | inl skipped ↦ rw (skipped, poll_one) (refl, h)
    | inr (b, started) ↦
        rw (started, poll_one)
          (poll_finish-Survives b reply now s
            (h.there run_id b (poll_start-found run_id s b started)) h)
  ]

  -- One after the other, the rounds return.
  poll_all-Survives :
      (ids : List String) (reply : String → Reply) (now : ℕ) (s : Binder F)
      → IsManned s
      → Survives s (poll_all ids reply now)
  unfolding poll_all
  poll_all-Survives [] reply now s h = (refl, h)
  poll_all-Survives (run_id ∷ ids) reply now s h =
      let (returned, h') = poll_one-Survives run_id (reply run_id) now s h in
      rw (returned, poll_all) (poll_all-Survives ids reply now _ h')

  pub poll_pass-Survives :
      (reply : String → Reply) (now : ℕ) (s : Binder F)
      → IsManned s
      → ((poll_pass reply now s).0 ≡ ok tt) × IsManned (poll_pass reply now s).1
  unfolding poll_pass
  poll_pass-Survives reply now s h = poll_all-Survives (keys s.bindings) reply now s h
