-- ===== src/Control.antt =====
-- simulator_app/domain/control.py: the dispatch of control requests, with the fleet in place. A
-- bool counts as the int that it equals, as in Python. What `load_shapes` gives is an argument:
-- the shapes and the stops, or the exception.
pub mod Dispatch
pub mod Parts
pub mod Confined
pub mod Bounds
mod Tests
use mathlib.Core.Option
use databus_sim.Prelude.{
  ℕ, String, Bool, true, false, ◌&&◌, Option, none, some, List, [], ◌∷◌, str_eq, if◌then◌else◌,
}
use databus_sim.Prelude.Int.{ℤ, pos, ltb_ℤ}
use databus_sim.Float.{Float, lit, fmax}
use databus_sim.Dict.{Dict, get, put}
use databus_sim.Effect.{
  Exec, Result, ok, err, type_error, overflow_error, key_error, pure, raise, try_except, ◌>>=◌,
  ◌>>◌, ◌>=>◌,
}
use databus_sim.Fleet.{
  FleetState, Vehicle, Kin, FaultKind, stale_ts, out_of_bounds, malformed, notify_all,
  set_transmitting, set_moving, set_speed_override, set_occupancy_override, set_dwell_override,
}
use databus_sim.Kinematics.{
  Shape, Stop, Point, Draws, total_dist_m, haversine_m, init_kin, get_shape,
}

-- A JSON value. `nested` is a list or an object, which the handlers do not look into.
pub data Json (F : Type 0) : Type 0 where
  null nested : Json F
  boolean : Bool → Json F
  int : ℤ → Json F
  number : F → Json F
  text : String → Json F

-- An int or a bool in 0..100.
unfoldable pub occupancy_value : Option ℤ → Option (Option ℤ)
occupancy_value none = none
occupancy_value (some z) =
    if ltb_ℤ z (pos 0) then none else if ltb_ℤ (pos 100) z then none else some (some z)

-- A counter: a non-negative int.
unfoldable pub requested_ticks : Option ℤ → Option ℤ
requested_ticks none = none
requested_ticks (some z) = if ltb_ℤ z (pos 0) then none else some z

-- _VALID_FAULT_KINDS
unfoldable pub fault_kind : String → Option FaultKind
fault_kind name =
    if str_eq name "stale_ts"
    then some stale_ts
    else if str_eq name "out_of_bounds"
    then some out_of_bounds
    else if str_eq name "malformed"
    then some malformed
    else none

-- What `load_shapes` returns, or the exception that it raises.
abbrev pub Files : Type 0 → Type 0
Files F = Result (Dict (Shape F) × List (Stop F))

module _ {F : Type 0} where
  -- payload.get(key)
  unfoldable pub item : Dict (Json F) → String → Json F
  item payload key = Option.get_or (get payload key) null

  -- payload.get(key, 0)
  unfoldable pub count_item : Dict (Json F) → String → Json F
  count_item payload key = Option.get_or (get payload key) (int (pos 0))

  -- The value if it is an `int`.
  abbrev pub as_int : Json F → Option ℤ
  as_int (int z) = some z
  as_int (boolean b) = some (if b then pos 1 else pos 0)
  as_int _ = none

  -- Assignments to the vehicle that `fleet.get` finds.
  unfoldable pub revise : String → (Vehicle F → Vehicle F) → Exec (FleetState F) (Unit {0})
  revise vid f s = elim (get s.by_id vid) [
    | none ↦ (ok tt, s)
    | some v ↦ (ok tt, record s { by_id = put s.by_id vid (f v) })
  ]

  -- `if not isinstance(on, bool): return`, and likewise for a text.
  unfoldable pub when_bool :
      (Bool → Exec (FleetState F) (Unit {0})) → Json F → Exec (FleetState F) (Unit {0})
  when_bool act (boolean on) = act on
  when_bool act _ = pure tt

  unfoldable pub when_text :
      (String → Exec (FleetState F) (Unit {0})) → Json F → Exec (FleetState F) (Unit {0})
  when_text act (text s) = act s
  when_text act _ = pure tt

  unfoldable pub handle_transmit : String → Dict (Json F) → ℕ → Exec (FleetState F) (Unit {0})
  handle_transmit vid payload now =
      when_bool (λ on. set_transmitting vid on now) (item payload "on")

  unfoldable pub handle_moving : String → Dict (Json F) → ℕ → Exec (FleetState F) (Unit {0})
  handle_moving vid payload now = when_bool (λ on. set_moving vid on now) (item payload "on")

  -- None is set too.
  unfoldable pub requested_occupancy : Json F → Option (Option ℤ)
  requested_occupancy null = some none
  requested_occupancy value = occupancy_value (as_int value)

  unfoldable pub handle_occupancy : String → Dict (Json F) → Exec (FleetState F) (Unit {0})
  handle_occupancy vid payload = elim (requested_occupancy (item payload "value")) [
    | none ↦ pure tt
    | some value ↦ set_occupancy_override vid value
  ]

  -- The stop id is stored unchecked. `show` gives the text that stands for a value that is no
  -- text, the empty one for a value that is false.
  unfoldable pub requested_stop : (show : Json F → String) → Json F → Option String
  requested_stop show null = none
  requested_stop show (text id) = some id
  requested_stop show value = some (show value)

  unfoldable pub handle_dwell :
      (show : Json F → String) → String → Dict (Json F) → Exec (FleetState F) (Unit {0})
  handle_dwell show vid payload = elim (requested_ticks (as_int (count_item payload "ticks"))) [
    | none ↦ pure tt
    | some ticks ↦ set_dwell_override vid (requested_stop show (item payload "stop_id")) ticks
  ]

  -- `kind not in _VALID_FAULT_KINDS` raises on a value with no hash.
  unfoldable pub requested_fault : Json F → Result (Option FaultKind)
  requested_fault (text name) = ok (fault_kind name)
  requested_fault nested = err type_error
  requested_fault _ = ok none

  -- `next((s for s in stops if s["stop_id"] == stop_id), None)`
  unfoldable pub find_stop : List (Stop F) → String → Option (Stop F)
  find_stop [] id = none
  find_stop (s ∷ stops) id = if str_eq s.stop_id id then some s else find_stop stops id

module _ {F : Type 0} ⦃fl : Float F⦄ where
  -- float(value), for an int: it raises where the int is too large.
  unfoldable pub float_of_int : ℤ → Result F
  float_of_int z =
      let x = fl.of_int z in
      if fl.lt x fl.infinity && fl.lt (fl.sub (lit 0) fl.infinity) x
      then ok x
      else err overflow_error

  unfoldable pub set_speed_value : String → Json F → Exec (FleetState F) (Unit {0})
  set_speed_value vid null = set_speed_override vid none
  set_speed_value vid (number x) = set_speed_override vid (some x)
  set_speed_value vid (int z) = elim (float_of_int z) [
    | ok x ↦ set_speed_override vid (some x)
    | err e ↦ raise e
  ]
  set_speed_value vid (boolean b) = set_speed_override vid (some (if b then lit 1 else lit 0))
  set_speed_value vid _ = pure tt

  unfoldable pub handle_speed : String → Dict (Json F) → Exec (FleetState F) (Unit {0})
  handle_speed vid payload = set_speed_value vid (item payload "value")

  -- `max(0.0, shape.total_dist_m - 1.0)`
  unfoldable pub terminal_progress : Files F → Vehicle F → Result F
  terminal_progress files v = files >=> λ f. get_shape v f.0 >=> λ shape.
      total_dist_m shape >=> λ total. ok (fmax (lit 0) (fl.sub total (lit 1)))

  abbrev pub go_to : F → Vehicle F → Vehicle F
  go_to x v = record v { progress_m = x; moving = true }

  unfoldable pub handle_jump_to_terminal : Files F → String → Exec (FleetState F) (Unit {0})
  handle_jump_to_terminal files vid s = elim (get s.by_id vid) [
    | none ↦ (ok tt, s)
    | some v ↦ elim (terminal_progress files v) [
      | err e ↦ (ok tt, s)
      | ok x ↦ (do revise vid (go_to x); notify_all) s
    ]
  ]

  -- The walk over the points for the one closest to the stop.
  unfoldable pub closest_m : List (Point F) → Stop F → (best_prog_m best_dist : F) → Result F
  closest_m [] stop best_prog_m best_dist = ok best_prog_m
  closest_m (p ∷ pts) stop best_prog_m best_dist =
      haversine_m p.lat p.lon stop.lat stop.lon >=> λ d.
      let closer = fl.lt d best_dist in
      closest_m pts stop (if closer then fl.mul p.dist_km (lit 1000) else best_prog_m)
        (if closer then d else best_dist)

  -- The progress at a stop; none for an unknown stop.
  unfoldable pub stop_progress : Files F → Vehicle F → String → Result (Option F)
  stop_progress files v id = files >=> λ f. get_shape v f.0 >=> λ shape. elim (find_stop f.1 id) [
    | none ↦ ok none
    | some stop ↦ closest_m shape.points stop (lit 0) fl.infinity >=> λ x. ok (some x)
  ]

  abbrev pub put_at : F → Vehicle F → Vehicle F
  put_at x v = record v { progress_m = x }

  unfoldable pub set_progress_to : Files F → String → String → Exec (FleetState F) (Unit {0})
  set_progress_to files vid id s = elim (get s.by_id vid) [
    | none ↦ (ok tt, s)
    | some v ↦ elim (stop_progress files v id) [
      | err e ↦ (ok tt, s)
      | ok none ↦ (ok tt, s)
      | ok (some x) ↦ (do revise vid (put_at x); notify_all) s
    ]
  ]

  unfoldable pub handle_set_progress :
      Files F → String → Dict (Json F) → Exec (FleetState F) (Unit {0})
  handle_set_progress files vid payload =
      when_text (set_progress_to files vid) (item payload "stop_id")

  abbrev pub inject : Draws F → FaultKind → ℤ → Vehicle F → Vehicle F
  inject r kind ticks v = record v {
    kin = some (record (init_kin r v.kin) { fault = some kind; fault_ticks = ticks });
  }

  unfoldable pub inject_requested :
      Draws F → String → Result (Option FaultKind) → Option ℤ → Exec (FleetState F) (Unit {0})
  inject_requested r vid (err e) ticks = raise e
  inject_requested r vid (ok none) ticks = pure tt
  inject_requested r vid (ok (some kind)) none = pure tt
  inject_requested r vid (ok (some kind)) (some ticks) =
      if ltb_ℤ (pos 0) ticks then revise vid (inject r kind ticks) else pure tt

  unfoldable pub handle_inject_fault :
      Draws F → String → Dict (Json F) → Exec (FleetState F) (Unit {0})
  handle_inject_fault r vid payload =
      inject_requested r vid (requested_fault (item payload "kind"))
        (as_int (count_item payload "duration_ticks"))
