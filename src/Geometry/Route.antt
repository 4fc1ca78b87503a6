-- ===== src/Geometry/Route.antt =====
-- `build_route_geometry` of simulator_app/domain/progression/shapes.py. The route and the stops
-- are records with all their keys, so each `.get` finds its key.
use mathlib.Core.Option
use databus_sim.Prelude.{ℕ, suc, String, none, some, List, [], ◌∷◌, map, if◌then◌else◌}
use databus_sim.Prelude.Int.{pos}
use databus_sim.Float.{Float}
use databus_sim.Dict.{Dict, get, put, values}
use databus_sim.Effect.{Result, ok, ◌>=>◌}
use databus_sim.Kinematics.{Stop}
use databus_sim.Progression.{ShapeStop}
use databus_sim.Geometry.{RawPoint, Vertex, build_polyline, project_point_to_polyline}
use databus_sim.Geometry.Assign.{StopRow, BuiltStop, build_stops}

pub record Route : Type 0 where
  pub route_id : String
  pub short_name : String
  pub color : String
  pub text_color : String
  pub shape_ids : List String

pub record ShapeEntry (F : Type 0) : Type 0 where
  pub shape_id : String
  pub latlngs : List (F × F)
  pub stops : List (ShapeStop F)

pub record RouteGeometry (F : Type 0) : Type 0 where
  pub route_id : String
  pub short_name : String
  pub color : String
  pub text_color : String
  pub shapes : List (ShapeEntry F)
  pub stops : List (Stop F)

module _ {F : Type 0} where
  -- stop_name_map: a later stop of the same id wins.
  unfoldable pub name_map : List (Stop F) → Dict String → Dict String
  name_map [] names = names
  name_map (s ∷ stops) names = name_map stops (put names s.stop_id s.name)

  -- The candidates numbered from 1 on.
  unfoldable pub number_rows : ℕ → List (F × Stop F) → List (StopRow F)
  number_rows idx [] = []
  number_rows idx ((x, s) ∷ candidates) =
      record { stop_id = s.stop_id; stop_sequence = pos (suc idx); lat = s.lat; lon = s.lon }
      ∷ number_rows (suc idx) candidates

  unfoldable pub named : Dict String → BuiltStop F → ShapeStop F
  named names b = record {
    stop_id = b.stop_id;
    name = Option.get_or (get names b.stop_id) "";
    lat = b.lat;
    lon = b.lon;
    stop_sequence = b.stop_sequence;
    progress_m = b.progress_m;
  }

  -- The stops of one shape that are not there yet.
  unfoldable pub merge_stops : List (ShapeStop F) → Dict (Stop F) → Dict (Stop F)
  merge_stops [] merged = merged
  merge_stops (e ∷ entries) merged = elim (get merged e.stop_id) [
    | some s ↦ merge_stops entries merged
    | none ↦ merge_stops entries (
        put merged e.stop_id
          (record { stop_id = e.stop_id; name = e.name; lat = e.lat; lon = e.lon }))
  ]

module _ {F : Type 0} ⦃fl : Float F⦄ where
  -- The stops within the threshold, with their progress.
  unfoldable pub members :
      (threshold : F) → List (Vertex F) → List (Stop F) → Result (List (F × Stop F))
  members threshold polyline [] = ok []
  members threshold polyline (s ∷ stops) =
      project_point_to_polyline s.lat s.lon polyline >=> λ proj.
      members threshold polyline stops >=> λ rest.
      ok (if fl.le proj.cross_track_m threshold then (proj.progress_m, s) ∷ rest else rest)

  -- `candidates.sort(key=...)`, which is stable.
  unfoldable pub insert_candidate : F × Stop F → List (F × Stop F) → List (F × Stop F)
  insert_candidate c [] = c ∷ []
  insert_candidate c (d ∷ ds) =
      let rest = insert_candidate c ds in if fl.lt d.0 c.0 then d ∷ rest else c ∷ d ∷ ds

  unfoldable pub sort_candidates : List (F × Stop F) → List (F × Stop F)
  sort_candidates [] = []
  sort_candidates (c ∷ cs) = insert_candidate c (sort_candidates cs)

  -- The entry of one shape.
  unfoldable pub shape_entry :
      (threshold : F) (shape_id : String)
      → List (RawPoint F)
      → List (Stop F)
      → Result (ShapeEntry F)
  shape_entry threshold shape_id points stops = build_polyline points >=> λ polyline.
      members threshold polyline stops >=> λ candidates.
      build_stops (number_rows 0 (sort_candidates candidates)) polyline >=> λ built. ok (record {
        shape_id = shape_id;
        latlngs = map (λ v. (v.lat, v.lon)) polyline;
        stops = map (named (name_map stops [])) built;
      })

  -- The loop over the shapes of a route; an unknown shape is left out.
  unfoldable pub shape_entries :
      (threshold : F)
      → Dict (List (RawPoint F))
      → List (Stop F)
      → List String
      → Dict (Stop F)
      → Result (List (ShapeEntry F) × Dict (Stop F))
  shape_entries threshold shapes stops [] merged = ok ([], merged)
  shape_entries threshold shapes stops (shape_id ∷ ids) merged = elim (get shapes shape_id) [
    | none ↦ shape_entries threshold shapes stops ids merged
    | some points ↦ shape_entry threshold shape_id points stops >=> λ entry.
        shape_entries threshold shapes stops ids (merge_stops entry.stops merged) >=> λ rest.
        ok (entry ∷ rest.0, rest.1)
  ]

  unfoldable pub build_route_geometry :
      (threshold : F) → Route → Dict (List (RawPoint F)) → List (Stop F) → Result (RouteGeometry F)
  build_route_geometry threshold route shapes stops =
      shape_entries threshold shapes stops route.shape_ids [] >=> λ built. ok (record {
        route_id = route.route_id;
        short_name = route.short_name;
        color = route.color;
        text_color = route.text_color;
        shapes = built.0;
        stops = values built.1;
      })
