-- ===== src/RunBinder/Unknown.antt =====
-- A tracked run whose vehicle is not in the fleet, in a pass of `poll_loop`.
use databus_sim.Prelude.{ℕ, String, ◌≡◌, refl, true, none, some, List, ◌∷◌, arith, subst, sym}
use databus_sim.Float.{Float}
use databus_sim.Dict.{get}
use databus_sim.Effect.{err, key_error}
use databus_sim.Fleet.{FleetState, set_lifecycle_state}
use databus_sim.Fleet.Changes.{mutate-unknown}
use databus_sim.RunBinder.{
  BoundRun, Binder, Reply, answered, apply_state, write_back, on_fleet, poll_start, poll_finish,
  poll_one, poll_all, differs,
}
use databus_sim.RunBinder.Polling.{IsQuiet, noted, write_back_fields, get-write_back}

module _ {F : Type 0} ⦃fl : Float F⦄ where
  apply_state-unknown :
      (b : BoundRun) (new : String) (now : ℕ) (s : FleetState F)
      → get s.by_id b.vehicle_id ≡ none
      → apply_state b new now s ≡ (err key_error, s)
  unfolding apply_state set_lifecycle_state
  apply_state-unknown b new now s missing = rw (mutate-unknown b.vehicle_id _ s missing)

  poll_finish-unknown :
      (b : BoundRun) (new : String) (now : ℕ) (s : Binder F)
      → get s.fleet.by_id b.vehicle_id ≡ none
      → differs b.lifecycle_state new ≡ true
      → poll_finish b (answered (some new)) now s
        ≡ (err key_error, write_back (noted b now s new) s)
  unfolding poll_finish on_fleet
  poll_finish-unknown b new now s missing change =
      let fields = write_back_fields (noted b now s new) now s in
      let raised : apply_state b new now (write_back (noted b now s new) s).fleet
          ≡ (err key_error, (write_back (noted b now s new) s).fleet) =
        apply_state-unknown b new now _ (rw fields.0 missing) in
      ground arith

  -- One tracked run, next in the pass, with a new state whose vehicle the fleet does not know
  -- ends the whole polling pass with a KeyError: no later run of the pass is polled, whatever its
  -- reply.
  pub poll_all_aborts :
      (run_id : String) (ids : List String) (reply : String → Reply) (now : ℕ) (s : Binder F)
      (b : BoundRun) (new : String)
      → poll_start run_id s ≡ some b
      → get s.fleet.by_id b.vehicle_id ≡ none
      → reply run_id ≡ answered (some new)
      → differs b.lifecycle_state new ≡ true
      → ((poll_all (run_id ∷ ids) reply now s).0 ≡ err key_error)
        × IsQuiet b now s (poll_all (run_id ∷ ids) reply now s).1
  unfolding poll_all poll_one
  poll_all_aborts run_id ids reply now s b new started missing answer change =
      let fields = write_back_fields (noted b now s new) now s in
      let failed = poll_finish-unknown b new now s missing change in
      let e : poll_all (run_id ∷ ids) reply now s
          ≡ (err key_error, write_back (noted b now s new) s) =
        ground arith in
      subst (λ r. (r.0 ≡ err key_error) × IsQuiet b now s r.1) (sym e)
        (
          refl,
          record {
            same_fleet = fields.0;
            same_changes = fields.1;
            same_untracks = fields.2;
            same_bindings = get-write_back (noted b now s new) now s;
          },
        )
