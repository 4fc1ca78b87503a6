-- ===== src/RunBinder/Polling.antt =====
-- One round of `poll_loop`, for every reply and whatever happened while it waited.
use databus_sim.Prelude.{
  ℕ, ◌+◌, ◌<◌, ◌≤◌, String, ◌≡◌, ◌≢◌, refl, Bool, true, false, ◌||◌, none, some, [], ◌∷◌, ◌++◌,
  arith, eq_iff, inl, inr, ◌⊎◌, subst, sym, Bool-cases, if◌then◌else◌,
}
use databus_sim.Float.{Float, lit}
use databus_sim.Dict.{get, get-put, get-remove}
use databus_sim.Effect.{ok}
use databus_sim.Fleet.{Vehicle, FleetState, unbind_run}
use databus_sim.Fleet.Runs.{Ran, Runs, mutate-Runs}
use databus_sim.RunBinder.{
  BoundRun, Binder, Reply, failed, answered, apply_state, announce, write_back, on_fleet,
  poll_finish, force_unbind, untrack, is_terminal, is_known, grace_elapsed, differs,
}

-- A run that the databus does not find is lost if it had a state or its grace is over.
abbrev pub is_lost : BoundRun → ℕ → Bool
is_lost b now = is_known b.lifecycle_state || grace_elapsed b now

module _ {F : Type 0} ⦃fl : Float F⦄ where
  -- The vehicle of a lost run.
  abbrev pub unbound : Vehicle F → ℕ → Vehicle F
  unbound v now = record v {
    bound_run_id = none;
    bound_trip_id = none;
    bound_shape_id = none;
    terminal_stop_id = none;
    lifecycle_state = none;
    progress_m = lit 0;
    transmitting = false;
    moving = false;
    last_state_change_at = some now;
  }

  -- What the loss of a run does: its vehicle, as it was, has been unbound, the run is no longer
  -- tracked, and nothing else has changed.
  pub record Drops (b : BoundRun) (now : ℕ) (v : Vehicle F) (s s' : Binder F) : Type 0 where
    pub fleet : FleetState F
    pub ran : Ran b.vehicle_id (λ _. Unit) (unbound v now) s.fleet fleet
    pub same : s' ≡ record s { fleet = fleet; bindings = s'.bindings }
    pub untracked : get s'.bindings b.run_id ≡ none
    pub other_bindings : (j : String) → b.run_id ≢ j → get s'.bindings j ≡ get s.bindings j

  module _ (b : BoundRun) (now : ℕ) (s : Binder F) where
    force_unbind-eq :
        (t : FleetState F)
        → unbind_run b.vehicle_id now s.fleet ≡ (ok tt, t)
        → force_unbind b now s ≡ (ok tt, untrack b.run_id (record s { fleet = t }))
    unfolding force_unbind on_fleet
    force_unbind-eq t e = rw e

    unbind_run-Runs :
        (v : Vehicle F)
        → get s.fleet.by_id b.vehicle_id ≡ some v
        → Runs b.vehicle_id (λ _. Unit) (unbind_run b.vehicle_id now) (unbound v now) s.fleet
    unfolding unbind_run
    unbind_run-Runs v known =
        mutate-Runs b.vehicle_id (λ _. Unit) (λ u. unbound u now) v s.fleet known tt

    pub poll_finish-Drops :
        (v : Vehicle F)
        → get s.fleet.by_id b.vehicle_id ≡ some v
        → is_lost b now ≡ true
        → ((poll_finish b (answered none) now s).0 ≡ ok tt)
          × Drops b now v s (poll_finish b (answered none) now s).1
    unfolding poll_finish untrack
    poll_finish-Drops v known lost =
        let (t, e, ran) = unbind_run-Runs v known in
        rw lost (
          rw (force_unbind-eq t e) (
            refl,
            record {
              fleet = t;
              ran = ran;
              same = refl;
              untracked =
                  ground (arith, get-remove s.bindings b.run_id b.run_id, eq_iff b.run_id b.run_id);
              other_bindings =
                  λ j ne. ground (arith, get-remove s.bindings b.run_id j, eq_iff b.run_id j);
            },
          ))

    -- A run that is not found, of a known vehicle: where it has had no state and at most 30
    -- seconds have passed since it was tracked, nothing at all changes; where it has had a state,
    -- or more have passed, its vehicle is unbound and silenced and the run is no longer tracked,
    -- and nothing else changes: no other vehicle, no other binding, no callback and no delayed
    -- untrack. In both cases the round returns.
    pub poll_finish_not_found :
        (v : Vehicle F)
        → get s.fleet.by_id b.vehicle_id ≡ some v
        → ((b.lifecycle_state ≡ none)
            × (now ≤ b.tracked_since + 30000000)
            × (poll_finish b (answered none) now s ≡ (ok tt, s)))
          ⊎ (((b.lifecycle_state ≢ none) ⊎ (b.tracked_since + 30000000 < now))
              × ((poll_finish b (answered none) now s).0 ≡ ok tt)
              × Drops b now v s (poll_finish b (answered none) now s).1)
    unfolding poll_finish
    poll_finish_not_found v known = elim (Bool-cases (is_lost b now)) [
      | inl lost ↦
          let (returned, drops) = poll_finish-Drops v known lost in
          inr (ground arith, returned, drops)
      | inr young ↦ inl (ground arith, ground arith, rw (young, poll_finish))
    ]

    pub write_back_fields :
        ((write_back b s).fleet ≡ s.fleet)
        × ((write_back b s).changes ≡ s.changes)
        × ((write_back b s).untracks ≡ s.untracks)
        × ((write_back b s).has_callback ≡ s.has_callback)
    unfolding write_back
    write_back_fields = ground arith

    pub get-write_back :
        (j : String) → b.run_id ≢ j → get (write_back b s).bindings j ≡ get s.bindings j
    unfolding write_back
    get-write_back j ne = ground (arith, get-put s.bindings b.run_id j b, eq_iff b.run_id j)

    pub write_back_live :
        (c : BoundRun)
        → get s.bindings b.run_id ≡ some c
        → c.ident ≡ b.ident
        → get (write_back b s).bindings b.run_id ≡ some b
    unfolding write_back
    write_back_live c found same =
        ground (arith, get-put s.bindings b.run_id b.run_id b, eq_iff b.run_id b.run_id)

  module _ (b : BoundRun) (now : ℕ) (s : Binder F) where
    -- The fleet, the callbacks, the delayed untracks and the bindings of other runs are as before.
    pub record IsQuiet (s' : Binder F) : Type 0 where
      pub same_fleet : s'.fleet ≡ s.fleet
      pub same_changes : s'.changes ≡ s.changes
      pub same_untracks : s'.untracks ≡ s.untracks
      pub same_bindings : (j : String) → b.run_id ≢ j → get s'.bindings j ≡ get s.bindings j

    abbrev polled : BoundRun
    polled = record b { last_polled_at = some now }

    same_state-eq :
        (old : String)
        → b.lifecycle_state ≡ some old
        → poll_finish b (answered (some old)) now s ≡ (ok tt, write_back polled s)
    unfolding poll_finish
    same_state-eq old known = ground (arith, eq_iff old old)

    -- A poll that fails and a poll that finds the state of before both return, and leave the
    -- fleet, the callbacks, the delayed untracks and all bindings of other runs as they are.
    pub poll_finish_unchanged :
        (reply : Reply)
        → (reply ≡ failed)
          ⊎ ((old : String) × (b.lifecycle_state ≡ some old) × (reply ≡ answered (some old)))
        → ((poll_finish b reply now s).0 ≡ ok tt) × IsQuiet (poll_finish b reply now s).1
    unfolding poll_finish
    poll_finish_unchanged reply (inl e) = rw e (
      refl,
      record {
        same_fleet = refl;
        same_changes = refl;
        same_untracks = refl;
        same_bindings = λ j ne. refl;
      },
    )
    poll_finish_unchanged reply (inr (old, known, e)) =
        let fields = write_back_fields polled now s in
        subst (λ r. ((poll_finish b r now s).0 ≡ ok tt) × IsQuiet (poll_finish b r now s).1) (sym e)
          (subst (λ r. (r.0 ≡ ok tt) × IsQuiet r.1) (sym (same_state-eq old known))
            (
              refl,
              record {
                same_fleet = fields.0;
                same_changes = fields.1;
                same_untracks = fields.2;
                same_bindings = get-write_back polled now s;
              },
            ))

    abbrev pub noted : String → BoundRun
    noted new = record b { last_polled_at = some now; lifecycle_state = some new }

    -- What a change of state leaves behind.
    pub record Announced (new : String) (t : FleetState F) (s' : Binder F) : Type 0 where
      pub fleet_after : s'.fleet ≡ t
      pub said : s'.changes ≡ (
          if s.has_callback
          then s.changes ++ record { run_id = b.run_id; old = b.lifecycle_state; new = new } ∷ []
          else s.changes)
      pub later :
          s'.untracks ≡ (if is_terminal new then s.untracks ++ b.run_id ∷ [] else s.untracks)
      pub stored :
          (c : BoundRun)
          → get s.bindings b.run_id ≡ some c
          → c.ident ≡ b.ident
          → get s'.bindings b.run_id ≡ some (noted new)
      pub same_bindings : (j : String) → b.run_id ≢ j → get s'.bindings j ≡ get s.bindings j

    changed-eq :
        (new : String) (t : FleetState F)
        → differs b.lifecycle_state new ≡ true
        → apply_state b new now s.fleet ≡ (ok tt, t)
        → poll_finish b (answered (some new)) now s
          ≡ (ok tt, announce b new (record (write_back (noted new) s) { fleet = t }))
    unfolding poll_finish on_fleet
    changed-eq new t change applied =
        let fields = write_back_fields (noted new) now s in
        let applied' : apply_state b new now (write_back (noted new) s).fleet ≡ (ok tt, t) =
          rw fields.0 applied in
        ground arith

    -- When the state of a run changes and `_apply_state` returns, the round returns: the fleet is
    -- what `_apply_state` makes of it, the callback, if there is one, is called once with the old
    -- and the new state, an untrack is scheduled exactly for a terminal state, the binding takes
    -- the new state if it is still the object that was read, and no other binding changes.
    pub poll_finish_changed :
        (new : String) (t : FleetState F)
        → differs b.lifecycle_state new ≡ true
        → apply_state b new now s.fleet ≡ (ok tt, t)
        → ((poll_finish b (answered (some new)) now s).0 ≡ ok tt)
          × Announced new t (poll_finish b (answered (some new)) now s).1
    unfolding announce
    poll_finish_changed new t change applied =
        let fields = write_back_fields (noted new) now s in
        subst (λ r. (r.0 ≡ ok tt) × Announced new t r.1) (sym (changed-eq new t change applied))
          (
            refl,
            record {
              fleet_after = refl;
              said = ground arith;
              later = ground arith;
              stored = write_back_live (noted new) now s;
              same_bindings = get-write_back (noted new) now s;
            },
          )
