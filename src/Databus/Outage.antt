-- ===== src/Databus/Outage.antt =====
-- `get_run_state` (simulator_app/services/databus_client.py) as `poll_loop`
-- (simulator_app/services/run_binder.py) uses it, while the databus is out of order.
use databus_sim.Prelude.{ℕ, String, ◌≡◌, refl, true, false, none, some, arith, ◌⊎◌, inl, inr}
use databus_sim.Float.{Float}
use databus_sim.Dict.{get}
use databus_sim.Effect.{ok}
use databus_sim.Fleet.{Vehicle}
use databus_sim.RunBinder.{BoundRun, Binder, poll_start, poll_one}
use databus_sim.RunBinder.Polling.{is_lost, Drops, poll_finish-Drops}
use databus_sim.Databus.{
  Exchange, http_error, other_error, response, done, RunBody, is_success, get_run, get_run_state,
  to_reply,
}

-- No answer about the run: the request fails, or the response is no success or no JSON.
abbrev pub IsOutage : Exchange RunBody → Type 0
IsOutage http_error = Unit
IsOutage other_error = ⊥
IsOutage (response r) = (is_success r.status_code ≡ false) ⊎ (r.json ≡ none)

get_run_state_outage :
    (exchange : Exchange RunBody) → IsOutage exchange → get_run_state exchange ≡ done none
unfolding get_run_state get_run
get_run_state_outage http_error h = refl
get_run_state_outage other_error h = elim h [ ]
get_run_state_outage (response r) (inl refused) = ground arith
get_run_state_outage (response r) (inr garbled) = ground arith

module _ {F : Type 0} ⦃fl : Float F⦄ where
  -- While the databus does not answer (its server cannot be reached, fails, or sends no JSON),
  -- one round for a run that is tracked with a known state and a known vehicle unbinds and
  -- silences the vehicle and forgets the run, and changes nothing else, as if the databus had said
  -- that there is no such run.
  pub poll_one_outage :
      (exchange : Exchange RunBody) (b : BoundRun) (v : Vehicle F) (run_id : String) (now : ℕ)
      (s : Binder F) (state : String)
      → IsOutage exchange
      → poll_start run_id s ≡ some b
      → b.lifecycle_state ≡ some state
      → get s.fleet.by_id b.vehicle_id ≡ some v
      → ((poll_one run_id (to_reply (get_run_state exchange)) now s).0 ≡ ok tt)
        × Drops b now v s (poll_one run_id (to_reply (get_run_state exchange)) now s).1
  unfolding poll_one
  poll_one_outage exchange b v run_id now s state outage started live known =
      let lost : is_lost b now ≡ true = ground arith in
      rw (get_run_state_outage exchange outage)
        (rw (started, poll_one) (poll_finish-Drops b now s v known lost))
