-- ===== src/Geometry/Assign.antt =====
-- `assign_stops_monotonic` of simulator_app/domain/progression/shapes.py: the assignment of the
-- stops to segments by dynamic programming. A subscript out of range raises.
pub mod Monotone
pub mod Price
pub mod Row
pub mod Below
pub mod Trace
pub mod Cheapest
pub mod Placed
pub mod Clamp
use databus_sim.Prelude.{
  ℕ, suc, String, Option, none, some, List, [], ◌∷◌, ◌++◌, map, length, get_elem?, if◌then◌else◌,
}
use databus_sim.Prelude.Int.{ℤ}
use databus_sim.Float.{Float, lit}
use databus_sim.Effect.{Result, ok, err, index_error, value_error, ◌>=>◌}
use databus_sim.Kinematics.{or_index_error}
use databus_sim.Geometry.{Vertex, segments_of, project_point_to_segment, project_point_to_polyline}

-- A stop of a route, in the order of the sequence.
pub record StopRow (F : Type 0) : Type 0 where
  pub stop_id : String
  pub stop_sequence : ℤ
  pub lat : F
  pub lon : F

pub record BuiltStop (F : Type 0) : Type 0 where
  pub stop_id : String
  pub stop_sequence : ℤ
  pub lat : F
  pub lon : F
  pub progress_m : F
  pub cross_track_m : F

module _ {F : Type 0} ⦃fl : Float F⦄ where
  -- A row of `dp` and `back` from the row of `dp` before, with the running prefix minimum.
  unfoldable pub next_row :
      (prefix_min : F) (prefix_arg j : ℕ) (prev cost : List F) → List F × List ℕ
  next_row prefix_min prefix_arg j [] cost = ([], [])
  next_row prefix_min prefix_arg j (d ∷ prev) [] = ([], [])
  next_row prefix_min prefix_arg j (d ∷ prev) (c ∷ cost) =
      let better = fl.lt d prefix_min in
      let new_min = if better then d else prefix_min in
      let new_arg = if better then j else prefix_arg in
      let (dps, backs) = next_row new_min new_arg (suc j) prev cost in
      (fl.add c new_min ∷ dps, new_arg ∷ backs)

  -- The rows of `back`, last stop first, and the last row of `dp`.
  unfoldable pub fill :
      (dp : List F) (back : List (List ℕ)) (costs : List (List F)) → List F × List (List ℕ)
  fill dp back [] = (dp, back)
  fill dp back (cost ∷ costs) =
      let (dp', row) = next_row fl.infinity 0 0 dp cost in fill dp' (row ∷ back) costs

  -- `min(range(M), key=...)`: the first best, from index `j` on.
  unfoldable pub arg_min : (best : F) (best_j j : ℕ) → List F → ℕ
  arg_min best best_j j [] = best_j
  arg_min best best_j j (d ∷ dp) =
      if fl.lt d best then arg_min d j (suc j) dp else arg_min best best_j (suc j) dp

-- The segments of the stops, recovered from the last one to the first.
unfoldable pub backtrack : (back : List (List ℕ)) (j : ℕ) (segments : List ℕ) → Result (List ℕ)
backtrack [] j segments = ok (j ∷ segments)
backtrack (row ∷ back) j segments =
    or_index_error (get_elem? row j) >=> λ i. backtrack back i (j ∷ segments)

module _ {F : Type 0} ⦃fl : Float F⦄ where
  -- From the best last segment on. `min` raises on an empty row.
  unfoldable pub backtrack_best : (dp : List F) (back : List (List ℕ)) → Result (List ℕ)
  backtrack_best [] back = err value_error
  backtrack_best (d ∷ dp) back = backtrack back (arg_min d 0 1 dp) []

  -- The segment of each stop, from the cost of each stop on each segment.
  unfoldable pub choose_segments : (cost : List F) (costs : List (List F)) → Result (List ℕ)
  choose_segments cost costs = let (dp, back) = fill cost [] costs in backtrack_best dp back

  -- The projections of a stop on all segments.
  unfoldable pub project_all : StopRow F → List (Vertex F × Vertex F) → Result (List (F × F))
  project_all row [] = ok []
  project_all row ((a, b) ∷ segs) = project_point_to_segment row.lat row.lon a b >=> λ p.
      project_all row segs >=> λ ps. ok (p ∷ ps)

  unfoldable pub project_rows :
      List (StopRow F) → List (Vertex F × Vertex F) → Result (List (List (F × F)))
  project_rows [] segs = ok []
  project_rows (row ∷ rows) segs =
      project_all row segs >=> λ ps. project_rows rows segs >=> λ pss. ok (ps ∷ pss)

  -- `[pos[k][segments[k]] for k in range(K)]`
  unfoldable pub read_off : List (List (F × F)) → List ℕ → Result (List F)
  read_off (ps ∷ pss) (j ∷ segments) =
      or_index_error (get_elem? ps j) >=> λ p. read_off pss segments >=> λ rest. ok (p.0 ∷ rest)
  read_off [] segments = ok []
  read_off (ps ∷ pss) [] = err index_error

  -- The final clamp, behind the progress `before`.
  unfoldable pub clamp_rising : F → List F → List F
  clamp_rising before [] = []
  clamp_rising before (p ∷ ps) =
      let p' = if fl.lt p before then before else p in p' ∷ clamp_rising p' ps

  unfoldable pub clamp_all : List F → List F
  clamp_all [] = []
  clamp_all (p ∷ ps) = p ∷ clamp_rising p ps

  -- From the rows of projections on at least one segment.
  unfoldable pub assign_rows : List (List (F × F)) → Result (List F)
  assign_rows [] = ok []
  assign_rows (ps ∷ pss) =
      choose_segments (map (λ p. p.1) ps) (map (map (λ p. p.1)) pss) >=> λ segments.
      read_off (ps ∷ pss) segments >=> λ progress. ok (clamp_all progress)

  -- Without segments every stop gets the distance of the single vertex, or 0.0.
  unfoldable pub assign_stops_monotonic : List (StopRow F) → List (Vertex F) → Result (List F)
  assign_stops_monotonic rows [] = ok (map (λ _. lit 0) rows)
  assign_stops_monotonic rows (v ∷ []) = ok (map (λ _. v.cum_m) rows)
  assign_stops_monotonic rows (v ∷ w ∷ vs) =
      project_rows rows (segments_of (v ∷ w ∷ vs)) >=> assign_rows

  -- `zip(stop_rows, progress_list)`, each stop with its own distance from the polyline.
  unfoldable pub join_stops :
      List (StopRow F) → List F → List (Vertex F) → Result (List (BuiltStop F))
  join_stops (row ∷ rows) (pm ∷ progress) polyline =
      project_point_to_polyline row.lat row.lon polyline >=> λ proj.
      join_stops rows progress polyline >=> λ rest. ok (
        record {
          stop_id = row.stop_id;
          stop_sequence = row.stop_sequence;
          lat = row.lat;
          lon = row.lon;
          progress_m = pm;
          cross_track_m = proj.cross_track_m;
        }
        ∷ rest)
  join_stops (row ∷ rows) [] polyline = ok []
  join_stops [] progress polyline = ok []

  unfoldable pub build_stops : List (StopRow F) → List (Vertex F) → Result (List (BuiltStop F))
  build_stops rows polyline =
      assign_stops_monotonic rows polyline >=> λ progress. join_stops rows progress polyline
