-- ===== src/RunBinder/Manned.antt =====
-- Tracked runs whose vehicles are all in the fleet, in the passes of `poll_loop`
-- (simulator_app/services/run_binder.py).
use databus_sim.Prelude.{
  ℕ, String, ◌≡◌, refl, sym, ap, subst, ◌⊎◌, Bool, true, false, some, arith, inl, inr, str_eq, ◌||◌,
  ◌==◌, Bool-cases, Option-cases, if◌then◌else◌,
}
use databus_sim.Float.{Float, lit}
use databus_sim.Dict.{get, put-kept, put-found, get-remove}
use databus_sim.Effect.{Exec, ok, pure, ◌>>◌}
use databus_sim.Effect.Keeps.{Keeps}
use databus_sim.Fleet.{
  Vehicle, FleetState, mutate, notify, set_lifecycle_state, bind_run, unbind_run, set_moving,
  set_transmitting,
}
use databus_sim.Fleet.Changes.{mutate-known, mutate-unknown}
use databus_sim.RunBinder.{
  BoundRun, Binder, apply_state, act_on, confirm, release, reset_progress, is_terminal, write_back,
  on_fleet, untrack,
}
use databus_sim.RunBinder.Frame.{apply_state-Keeps}

module _ {F : Type 0} where
  abbrev pub IsThere : String → FleetState F → Type 0
  IsThere vid s = (v : Vehicle F) × (get s.by_id vid ≡ some v)

  pub mutate-IsThere :
      (w vid : String) (f : Vehicle F → Vehicle F) → Keeps (IsThere w) (mutate vid f)
  unfolding notify
  mutate-IsThere w vid f = record {
    at = λ s there. elim (Option-cases (get s.by_id vid)) [
      | inl missing ↦ subst (λ r. IsThere w r.1) (sym (mutate-unknown vid f s missing)) there
      | inr (v, known) ↦
          subst (λ r. IsThere w r.1) (sym (mutate-known vid f s v known))
            (put-kept s.by_id vid w (f v) there.0 there.1)
    ];
  }

  -- On a fleet with the vehicle, the method returns.
  pub record Returns (vid : String) (m : Exec (FleetState F) (Unit {0})) : Type 0 where
    pub at : (s : FleetState F) → IsThere vid s → (m s).0 ≡ ok tt

  Returns-then :
      (vid : String) (m n : Exec (FleetState F) (Unit {0}))
      → Returns vid m
      → Keeps (IsThere vid) m
      → Returns vid n
      → Returns vid (m >> n)
  Returns-then vid m n hm keep hn = record {
    at = λ s there. rw (hm.at s there) (hn.at (m s).1 (keep.at s there));
  }

  Returns-if :
      (vid : String) (b : Bool) (m n : Exec (FleetState F) (Unit {0}))
      → Returns vid m
      → Returns vid n
      → Returns vid (if b then m else n)
  Returns-if vid true m n hm hn = hm
  Returns-if vid false m n hm hn = hn

  pub mutate-Returns : (vid : String) (f : Vehicle F → Vehicle F) → Returns vid (mutate vid f)
  mutate-Returns vid f = record {
    at = λ s there. ap (λ r. r.0) (mutate-known vid f s there.0 there.1);
  }

module _ {F : Type 0} ⦃fl : Float F⦄ where
  reset_progress-IsThere : (w vid : String) → Keeps (IsThere {F = F} w) (reset_progress vid)
  unfolding reset_progress
  reset_progress-IsThere w vid = record {
    at = λ s there. elim (Option-cases (get s.by_id vid)) [
      | inl missing ↦ rw (missing, reset_progress) there
      | inr (v, known) ↦
          rw (known, reset_progress)
            (put-kept s.by_id vid w (record v { progress_m = lit 0 }) there.0 there.1)
    ];
  }

  reset_progress-Returns : (vid : String) → Returns {F = F} vid (reset_progress vid)
  unfolding reset_progress
  reset_progress-Returns vid = record { at = λ s there. rw (there.1, reset_progress) }

  -- No method of the fleet takes a vehicle out.
  pub apply_state-IsThere :
      (w : String) (b : BoundRun) (new : String) (now : ℕ)
      → Keeps (IsThere {F = F} w) (apply_state b new now)
  unfolding set_lifecycle_state bind_run set_moving set_transmitting unbind_run
  apply_state-IsThere w b new now =
      apply_state-Keeps b now (IsThere w)
        (record {
          state = λ state. mutate-IsThere w b.vehicle_id _;
          bind = mutate-IsThere w b.vehicle_id _;
          park = mutate-IsThere w b.vehicle_id _;
          reset = reset_progress-IsThere w b.vehicle_id;
          send = λ on. mutate-IsThere w b.vehicle_id _;
          unbind = mutate-IsThere w b.vehicle_id _;
        })
        new

  confirm-Returns : (b : BoundRun) (now : ℕ) → Returns {F = F} b.vehicle_id (confirm b now)
  unfolding confirm bind_run set_moving set_transmitting
  confirm-Returns b now =
      Returns-then b.vehicle_id _ _ (mutate-Returns b.vehicle_id _)
        (mutate-IsThere b.vehicle_id b.vehicle_id _)
        (Returns-then b.vehicle_id _ _ (mutate-Returns b.vehicle_id _)
          (mutate-IsThere b.vehicle_id b.vehicle_id _)
          (Returns-then b.vehicle_id _ _ (reset_progress-Returns b.vehicle_id)
            (reset_progress-IsThere b.vehicle_id b.vehicle_id) (mutate-Returns b.vehicle_id _)))

  release-Returns : (b : BoundRun) (now : ℕ) → Returns {F = F} b.vehicle_id (release b now)
  unfolding release set_transmitting unbind_run
  release-Returns b now =
      Returns-then b.vehicle_id _ _ (mutate-Returns b.vehicle_id _)
        (mutate-IsThere b.vehicle_id b.vehicle_id _) (mutate-Returns b.vehicle_id _)

  pure-Returns : (vid : String) → Returns {F = F} vid (pure tt)
  pure-Returns vid = record { at = λ s there. refl }

  -- `_apply_state` returns on a vehicle of the fleet.
  pub apply_state-Returns :
      (b : BoundRun) (new : String) (now : ℕ) → Returns {F = F} b.vehicle_id (apply_state b new now)
  unfolding apply_state act_on set_lifecycle_state
  apply_state-Returns b new now =
      Returns-then b.vehicle_id _ _ (mutate-Returns b.vehicle_id _)
        (mutate-IsThere b.vehicle_id b.vehicle_id _)
        (Returns-if b.vehicle_id (str_eq new "Confirmed") _ _ (confirm-Returns b now) (
          Returns-if b.vehicle_id
            (str_eq new "Tracking" || str_eq new "In Progress" || str_eq new "No Signal") _ _
            (pure-Returns b.vehicle_id)
            (Returns-if b.vehicle_id (is_terminal new) _ _ (release-Returns b now)
              (pure-Returns b.vehicle_id))))

  -- Every tracked run has its vehicle in the fleet.
  pub record IsManned (s : Binder F) : Type 0 where
    pub there :
        (run_id : String) (b : BoundRun)
        → get s.bindings run_id ≡ some b
        → IsThere b.vehicle_id s.fleet

  write_back-bindings :
      (b : BoundRun) (s : Binder F) (j : String) (c : BoundRun)
      → get (write_back b s).bindings j ≡ some c
      → (c ≡ b) ⊎ (get s.bindings j ≡ some c)
  unfolding write_back
  write_back-bindings b s j c found = elim (Option-cases (get s.bindings b.run_id)) [
    | inl gone ↦ inr (rw (gone, write_back) at found)
    | inr (d, held) ↦ elim (Bool-cases (d.ident == b.ident)) [
      | inl same ↦
          let found' = rw (held, same, write_back) at found in
          elim (put-found s.bindings b.run_id j b c found') [
            | inl (here, new) ↦ inl new
            | inr old ↦ inr old
          ]
      | inr other ↦ inr (rw (held, other, write_back) at found)
    ]
  ]

  pub write_back-fleet : (b : BoundRun) (s : Binder F) → (write_back b s).fleet ≡ s.fleet
  unfolding write_back
  write_back-fleet b s = ground arith

  pub write_back-IsManned :
      (b : BoundRun) (s : Binder F)
      → IsThere b.vehicle_id s.fleet
      → IsManned s
      → IsManned (write_back b s)
  write_back-IsManned b s here h = record {
    there = λ j c found. elim (write_back-bindings b s j c found) [
      | inl same ↦ rw (same, write_back-fleet b s) here
      | inr old ↦ rw (write_back-fleet b s) (h.there j c old)
    ];
  }

  -- A fleet method that takes no vehicle out.
  pub on_fleet-IsManned :
      (m : Exec (FleetState F) (Unit {0})) (s : Binder F)
      → ((w : String) → Keeps (IsThere w) m)
      → IsManned s
      → IsManned (on_fleet m s).1
  unfolding on_fleet
  on_fleet-IsManned m s keep h = record {
    there = λ j b found. (keep b.vehicle_id).at s.fleet (h.there j b found);
  }

  pub untrack-IsManned : (run_id : String) (s : Binder F) → IsManned s → IsManned (untrack run_id s)
  unfolding untrack
  untrack-IsManned run_id s h = record {
    there = λ j b found. elim (Bool-cases (str_eq run_id j)) [
      | inl same ↦ let e = get-remove s.bindings run_id j in absurd (ground arith)
      | inr other ↦ h.there j b (ground (arith, get-remove s.bindings run_id j))
    ];
  }
