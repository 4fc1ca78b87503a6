-- ===== src/Databus.antt =====
-- simulator_app/services/databus_client.py with its client opened. What a request comes to is an
-- argument: an exception of httpx, another exception, or a response whose body has been read into
-- the keys that the code looks up, if it is JSON.
pub mod Terminal
pub mod Outage
pub mod Connection
mod Tests
use mathlib.Core.Option
use databus_sim.Prelude.{
  ℕ, String, Bool, true, false, ◌&&◌, ◌||◌, Option, none, some, List, [], ◌∷◌, leb, ltb, ◌==◌,
  str_eq, if◌then◌else◌,
}
use databus_sim.Prelude.Int.{ℤ, pos, ltb_ℤ}
use databus_sim.Dict.{Dict, put}
use databus_sim.RunBinder.{Reply, failed, answered}

pub record Response (B : Type 0) : Type 0 where
  pub status_code : ℕ
  pub json : Option B

pub data Exchange (B : Type 0) : Type 0 where
  http_error other_error : Exchange B
  response : Response B → Exchange B

-- How a method ends: it returns, raises DatabusError with the status if there is one, or lets
-- another exception through.
pub data Outcome (A : Type 0) : Type 0 where
  done : A → Outcome A
  databus_error : Option ℕ → Outcome A
  raised : Outcome A

-- resp.is_success
abbrev pub is_success : ℕ → Bool
is_success code = leb 200 code && ltb code 300

-- A JSON object with the keys of `CreateRunResponse`, each of them a text if it is there.
pub record CreateBody : Type 0 where
  pub status : Option String
  pub run_id : Option String
  pub run_lifecycle_state : Option String

pub record CreateRunResponse : Type 0 where
  pub run_id : String
  pub run_lifecycle_state : String

-- `model_validate`, which raises pydantic's ValidationError.
unfoldable pub validate_created :
    Option String → Option String → Option String → Outcome CreateRunResponse
validate_created (some status) (some run_id) (some state) =
    if str_eq status "success"
    then done (record { run_id = run_id; run_lifecycle_state = state })
    else raised
validate_created none run_id state = raised
validate_created (some status) none state = raised
validate_created (some status) (some run_id) none = raised

unfoldable pub create_run : Exchange CreateBody → Outcome CreateRunResponse
create_run http_error = raised
create_run other_error = raised
create_run (response r) =
    if is_success r.status_code
    then elim r.json [
      | none ↦ raised
      | some body ↦ validate_created body.status body.run_id body.run_lifecycle_state
    ]
    else databus_error (some r.status_code)

-- OPERATOR_EVENTS
unfoldable pub is_operator_event : String → Bool
is_operator_event event =
    str_eq event "run_confirmed_by_operator"
    || str_eq event "cancel_run"
    || str_eq event "interrupt_run"
    || str_eq event "short_turn_run"

pub record UpdateBody : Type 0 where
  pub status : Option String
  pub run_lifecycle_state : Option String

unfoldable pub validate_updated : Option String → Option String → Outcome String
validate_updated (some status) (some state) = if str_eq status "success" then done state else raised
validate_updated none state = raised
validate_updated (some status) none = raised

-- An event that is none of the operator's raises before any request is made. The result is the
-- lifecycle state of the response.
unfoldable pub update_run : (event : String) → Exchange UpdateBody → Outcome String
update_run event http_error = if is_operator_event event then raised else databus_error none
update_run event other_error = if is_operator_event event then raised else databus_error none
update_run event (response r) =
    if is_operator_event event
    then (if is_success r.status_code
        then elim r.json [
          | none ↦ raised
          | some body ↦ validate_updated body.status body.run_lifecycle_state
        ]
        else databus_error (some r.status_code))
    else databus_error none

-- The JSON of a run's state.
pub record RunBody : Type 0 where
  pub run_lifecycle_state : Option String
  pub fields : Option (Dict String)

-- `_get_run`
unfoldable pub get_run : Exchange RunBody → Outcome (Option RunBody)
get_run http_error = done none
get_run other_error = raised
get_run (response r) =
    if r.status_code == 404
    then done none
    else if is_success r.status_code
    then done r.json
    else done none

abbrev pub and_then : {A B : Type 0} → Outcome A → (A → Outcome B) → Outcome B
and_then (done a) f = f a
and_then (databus_error status) f = databus_error status
and_then raised f = raised

unfoldable pub get_run_state : Exchange RunBody → Outcome (Option String)
get_run_state exchange =
    and_then (get_run exchange)
      λ run. elim run [ none ↦ done none | some body ↦ done body.run_lifecycle_state ]

-- The fields of a run, or no field at all.
unfoldable pub hash_of : RunBody → Dict String
hash_of body =
    let fields = Option.get_or body.fields [] in
    elim body.run_lifecycle_state [
      | none ↦ fields
      | some state ↦ put fields "run_lifecycle_state" state
    ]

unfoldable pub get_run_hash : Exchange RunBody → Outcome (Dict String)
get_run_hash exchange =
    and_then (get_run exchange) λ run. elim run [ none ↦ done [] | some body ↦ done (hash_of body) ]

-- What `poll_loop` sees of `get_run_state`: any exception is caught there.
abbrev pub to_reply : Outcome (Option String) → Reply
to_reply (done state) = answered state
to_reply (databus_error status) = failed
to_reply raised = failed

pub record StopTime : Type 0 where
  pub stop_sequence : Option ℤ
  pub stop_id : Option String

-- The JSON of stop times: a list, an object with `results` (null counts as the empty list), an
-- empty object, or another object.
pub data StopTimes : Type 0 where
  listed results : List StopTime → StopTimes
  empty_object other_object : StopTimes

-- x.get("stop_sequence", 0)
abbrev pub sequence_of : StopTime → ℤ
sequence_of x = Option.get_or x.stop_sequence (pos 0)

-- `max(items, key=...)`: the first of the greatest, from `best` on.
unfoldable pub max_from : StopTime → List StopTime → StopTime
max_from best [] = best
max_from best (x ∷ xs) = max_from (if ltb_ℤ (sequence_of best) (sequence_of x) then x else best) xs

unfoldable pub terminal_of : List StopTime → Option String
terminal_of [] = none
terminal_of (x ∷ xs) = (max_from x xs).stop_id

-- An object without `results` is gone through itself: its keys have no `get`.
unfoldable pub terminal_in : StopTimes → Outcome (Option String)
terminal_in (listed items) = done (terminal_of items)
terminal_in (results items) = done (terminal_of items)
terminal_in empty_object = done none
terminal_in other_object = raised

unfoldable pub get_trip_terminal_stop : Exchange StopTimes → Outcome (Option String)
get_trip_terminal_stop http_error = raised
get_trip_terminal_stop other_error = raised
get_trip_terminal_stop (response r) =
    if is_success r.status_code
    then elim r.json [ none ↦ raised | some body ↦ terminal_in body ]
    else done none
