-- ===== src/Api.antt =====
-- simulator_app/api/views.py and the validation in simulator_app/api/serializers.py. What the
-- fields of a serializer make of a request is an argument, `none` where they refuse it, and so
-- are the shapes file and the answers of the databus. The fleet, the binder and the channel come
-- with one start, so the fleet is that of the binder. A view that raises is an `err`; the texts
-- of errors are left out.
pub mod Edit
pub mod Serializer
pub mod Events
pub mod Polls
pub mod Office
pub mod Steady
pub mod Shared
mod Tests
use mathlib.Core.Option
use databus_sim.Prelude.{
  ℕ, String, Bool, true, false, not, ◌&&◌, ◌||◌, Option, none, some, List, [], ◌∷◌, str_eq,
  contains, if◌then◌else◌,
}
use databus_sim.Float.{Float, lit}
use databus_sim.Dict.{Dict, get}
use databus_sim.Effect.{Result, ok, err, Exec, ◌>=>◌}
use databus_sim.Fleet.{FleetState}
use databus_sim.Fleet.Roster.{Row}
use databus_sim.Fleet.Roster
use databus_sim.Control.{Json}
use databus_sim.Control.Dispatch.{
  Request, apply_control, apply_global_control, handle_global_reload_schedule,
}
use databus_sim.RunBinder.{Binder, track}
use databus_sim.Databus.{Outcome, done, databus_error, raised}
use databus_sim.Geometry.{RawPoint}
use databus_sim.Geometry.Route.{Route, RouteGeometry, build_route_geometry}
use databus_sim.Runtime.Start.{ShapesFile}
use databus_sim.Scheduler
use databus_sim.Scheduler.{
  Entry, Document, Schedule, Defaults, Instant, is_direction, load, write, snapshot,
}
use databus_sim.Scheduler.Dispatch.{fetched}

-- A response; `body` is `none` for an error.
pub record Answer (B : Type 0) : Type 0 where
  pub status : ℕ
  pub body : Option B

abbrev pub succeeded : {B : Type 0} → B → Answer B
succeeded body = record { status = 200; body = some body }

abbrev pub refused : {B : Type 0} → ℕ → Answer B
refused status = record { status = status; body = none }

-- The parts of the runtime that the views use, and the schedule file.
pub record Service (F : Type 0) : Type 0 where
  pub binder : Option (Binder F)
  pub scheduler : Option Schedule
  pub file : String
  pub has_databus : Bool

-- The fields of TrackRunRequestSerializer.
pub record TrackRequest : Type 0 where
  pub run_id : String
  pub vehicle_id : String
  pub trip_id : String
  pub shape_id : String

-- The loop of `validate`.
unfoldable pub has_fresh_ids : (ids_seen : List String) → List Entry → Bool
has_fresh_ids ids_seen [] = true
has_fresh_ids ids_seen (e ∷ runs) =
    let eid = Option.get_or e.id "" in
    let rest = has_fresh_ids (eid ∷ ids_seen) runs in
    if str_eq eid "" then false else if contains eid ids_seen then false else rest

-- `validate_direction_id`, for each run.
unfoldable pub has_directions : List Entry → Bool
has_directions [] = true
has_directions (e ∷ runs) = is_direction e.direction_id && has_directions runs

-- `is_valid` and `validated_data`, from what the fields give.
unfoldable pub validated : Option Document → Option Document
validated none = none
validated (some d) =
    if has_directions d.runs then (if has_fresh_ids [] d.runs then some d else none) else none

-- The answer of the health check: {"ok": true}
unfoldable pub healthz_view : Answer Bool
healthz_view = succeeded true

module _ {F : Type 0} ⦃fl : Float F⦄ where
  unfoldable pub fleet_view : (now : ℕ) → Service F → Answer (List (Row F) × Option ℕ)
  fleet_view now s = elim s.binder [
    | none ↦ succeeded ([], none)
    | some b ↦ let (rows, at) = Roster.snapshot b.fleet now in succeeded (rows, some at)
  ]

module _ {F : Type 0} where
  -- GET of `schedule_view`; without a scheduler the answer is empty.
  unfoldable pub schedule_view_get :
      (now : ℕ) → Service F → Result (Answer (Option (Defaults × List Scheduler.Row × ℕ)))
  schedule_view_get now s = elim s.scheduler [
    | none ↦ ok (succeeded none)
    | some schedule ↦ snapshot schedule now >=> λ shown. ok (succeeded (some shown))
  ]

  module _ (fromisoformat : String → Option Instant) (safe_dump : Document → String)
      (safe_load : String → Result Document) where
    -- `rt.scheduler.reload()` and what its exception is answered with.
    unfoldable pub reload : Schedule → Service F → Answer (Unit {0}) × Service F
    reload schedule s =
        let (r, schedule') = load fromisoformat (safe_load s.file) schedule in
        let s' : Service F = record s { scheduler = some schedule' } in
        elim r [ ok _ ↦ (succeeded tt, s') | err e ↦ (refused 400, s') ]

    unfoldable pub schedule_reload_view : Service F → Answer (Unit {0}) × Service F
    schedule_reload_view s = elim s.scheduler [
      | none ↦ (refused 503, s)
      | some schedule ↦ reload schedule s
    ]

    -- The `try` of a PUT.
    unfoldable pub store : Document → Schedule → Service F → Answer (Unit {0}) × Service F
    store d schedule s =
        let (written, file) = write fromisoformat safe_dump d s.file in
        let s' : Service F = record s { file = file } in
        elim written [ err e ↦ (refused 400, s') | ok _ ↦ reload schedule s' ]

    -- PUT of `schedule_view`, from what the fields of the serializer give.
    unfoldable pub schedule_view_put : Option Document → Service F → Answer (Unit {0}) × Service F
    schedule_view_put fields s = elim (validated fields) [
      | none ↦ (refused 422, s)
      | some d ↦ elim s.scheduler [ none ↦ (refused 503, s) | some schedule ↦ store d schedule s ]
    ]

  -- `run_detail_view`: `hash` is what get_run_hash gives.
  unfoldable pub run_detail_view :
      (run_id : String)
      → (hash : Dict String) → Service F
      → Answer (String × Option String × Dict String)
  run_detail_view run_id [] s = if s.has_databus then refused 404 else refused 503
  run_detail_view run_id (field ∷ fields) s =
      if s.has_databus
      then succeeded (run_id, get (field ∷ fields) "run_lifecycle_state", field ∷ fields)
      else refused 503

  -- The terminal stop, if there is a client and it gives one.
  abbrev terminal_at : Service F → Outcome (Option String) → Option String
  terminal_at s terminal = if s.has_databus then fetched terminal else none

  unfoldable pub track_run_view :
      Option TrackRequest
      → Outcome (Option String)
      → (now : ℕ) → Service F
      → Answer (String × Option String) × Service F
  track_run_view none terminal now s = (refused 400, s)
  track_run_view (some q) terminal now s = elim s.binder [
    | none ↦ (refused 404, s)
    | some b ↦ elim (get b.fleet.by_id q.vehicle_id) [
      | none ↦ (refused 404, s)
      | some v ↦
          let stop_id = terminal_at s terminal in
          (
            succeeded (q.run_id, stop_id),
            record s {
              binder = some (track q.run_id q.vehicle_id q.trip_id q.shape_id stop_id now b);
            },
          )
    ]
  ]

module _ {F : Type 0} ⦃fl : Float F⦄ where
  -- The request has the payload, or no items where the data is no object.
  unfoldable pub control_vehicle_view : Request F → Service F → Answer (Unit {0}) × Service F
  control_vehicle_view q s = elim s.binder [
    | none ↦ (succeeded tt, s)
    | some b ↦
        let (r, fleet) = apply_control q b.fleet in
        (succeeded tt, record s { binder = some (record b { fleet = fleet }) })
  ]

  -- `rt.scheduler.reload()` is that of the schedule file.
  unfoldable pub control_global_view :
      (fromisoformat : String → Option Instant) (safe_load : String → Result Document)
      (knob : String) (payload : Dict (Json F)) (now : ℕ)
      → Service F
      → Answer (Unit {0}) × Service F
  control_global_view fromisoformat safe_load knob payload now s =
      let again = load fromisoformat (safe_load s.file) in
      elim s.scheduler [
        | none ↦ elim s.binder [
          | none ↦ (succeeded tt, s)
          | some b ↦
              let (r, states) = apply_global_control none knob payload now (b.fleet, tt {0}) in
              (succeeded tt, record s { binder = some (record b { fleet = states.0 }) })
        ]
        | some schedule ↦ elim s.binder [
          | none ↦
              let schedule' = (handle_global_reload_schedule (some again) schedule).1 in
              if str_eq knob "reload_schedule"
              then (succeeded tt, record s { scheduler = some schedule' })
              else (succeeded tt, s)
          | some b ↦
              let (r, states) =
                apply_global_control (some again) knob payload now (b.fleet, schedule) in
              (
                succeeded tt,
                record s {
                  binder = some (record b { fleet = states.0 });
                  scheduler = some states.1;
                },
              )
        ]
      ]

  -- The loop over the routes.
  unfoldable pub route_geometries :
      ShapesFile F (RawPoint F) → List Route → Result (List (RouteGeometry F))
  route_geometries raw [] = ok []
  route_geometries raw (r ∷ routes) = build_route_geometry (lit 50) r raw.shapes raw.stops >=> λ g.
      route_geometries raw routes >=> λ rest. ok (g ∷ rest)

  -- With `_geometry_cache`. An exception of `build_route_geometry` is not caught.
  unfoldable pub geometry_view :
      Result (ShapesFile F (RawPoint F))
      → Option (List (RouteGeometry F))
      → Result (Answer (List (RouteGeometry F))) × Option (List (RouteGeometry F))
  geometry_view file (some routes_geo) = (ok (succeeded routes_geo), some routes_geo)
  geometry_view (err e) none = (ok (succeeded []), none)
  geometry_view (ok raw) none = elim (route_geometries raw raw.routes) [
    | err e ↦ (err e, none)
    | ok routes_geo ↦ (ok (succeeded routes_geo), some routes_geo)
  ]
