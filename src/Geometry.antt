-- ===== src/Geometry.antt =====
-- simulator_app/domain/progression/geo.py and the polylines of domain/progression/shapes.py. A
-- polyline vertex is a record; a shape point whose distance is None has no `km`.
pub mod Assign
pub mod Route
mod Tests
use mathlib.Core.Option
use databus_sim.Prelude.{
  ℕ, zero, suc, ◌+◌, Bool, true, false, ◌&&◌, Option, none, some, List, [], ◌∷◌, map, if◌then◌else◌,
}
use databus_sim.Float.{Float, lit, fmax, fmin, feq}
use databus_sim.Effect.{Result, ok, err, zero_division_error, ◌>=>◌}
use databus_sim.Kinematics.{haversine_m, last_of}

pub record Vertex (F : Type 0) : Type 0 where
  pub lat : F
  pub lon : F
  pub cum_m : F

pub record RawPoint (F : Type 0) : Type 0 where
  pub lat : F
  pub lon : F
  pub km : Option F

pub record Projection (F : Type 0) : Type 0 where
  pub progress_m : F
  pub cross_track_m : F
  pub segment_idx : ℕ

module _ {F : Type 0} where
  -- The pairs polyline[i], polyline[i + 1].
  unfoldable pub segments_of : List (Vertex F) → List (Vertex F × Vertex F)
  segments_of [] = []
  segments_of (a ∷ []) = []
  segments_of (a ∷ b ∷ vs) = (a, b) ∷ segments_of (b ∷ vs)

module _ {F : Type 0} ⦃fl : Float F⦄ where
  -- `_R * math.radians(x)`
  abbrev pub metres : F → F
  metres x = fl.mul (lit 6371000) (fl.radians x)

  -- `_R * cos_lat0 * math.radians(x)`
  abbrev pub metres_at : F → F → F
  metres_at cos_lat0 x = fl.mul (fl.mul (lit 6371000) cos_lat0) (fl.radians x)

  -- x / y
  abbrev pub quotient : F → F → Result F
  quotient x y = if feq y (lit 0) then err zero_division_error else ok (fl.div x y)

  -- (progress_m, cross_track_m)
  unfoldable pub project_point_to_segment : (lat lon : F) → Vertex F → Vertex F → Result (F × F)
  project_point_to_segment lat lon a b =
      if fl.lt (fl.sub b.cum_m a.cum_m) fl.nano
      then (haversine_m lat lon a.lat a.lon >=> λ d. ok (a.cum_m, d))
      else (fl.cos (fl.radians a.lat) >=> λ cos_lat0.
          let dx_seg = metres_at cos_lat0 (fl.sub b.lon a.lon) in
          let dy_seg = metres (fl.sub b.lat a.lat) in
          let dx_pt = metres_at cos_lat0 (fl.sub lon a.lon) in
          let dy_pt = metres (fl.sub lat a.lat) in
          fl.square dx_seg >=> λ dx_sq. fl.square dy_seg >=> λ dy_sq.
          let seg_len_sq = fl.add dx_sq dy_sq in
          quotient (fl.add (fl.mul dx_pt dx_seg) (fl.mul dy_pt dy_seg)) seg_len_sq >=> λ foot.
          let t = fmax (lit 0) (fmin (lit 1) foot) in
          fl.square (fl.sub dx_pt (fl.mul dx_seg t)) >=> λ fx_sq.
          fl.square (fl.sub dy_pt (fl.mul dy_seg t)) >=> λ fy_sq.
          fl.sqrt (fl.add fx_sq fy_sq) >=> λ cross_m.
          fl.sqrt seg_len_sq >=> λ seg_len. ok (fl.add a.cum_m (fl.mul t seg_len), cross_m))

  -- The loop of `project_point_to_polyline` from segment `i` on, with the best so far.
  pub project_from :
      (lat lon : F) → List (Vertex F × Vertex F) → ℕ → Projection F → Result (Projection F)
  project_from lat lon [] i best = ok best
  project_from lat lon ((a, b) ∷ segs) i best =
      project_point_to_segment lat lon a b >=> λ (progress_m, cross_m).
      project_from lat lon segs (suc i) (
        if fl.lt cross_m best.cross_track_m
        then record { progress_m = progress_m; cross_track_m = cross_m; segment_idx = i }
        else best)

  unfoldable pub project_point_to_polyline : (lat lon : F) → List (Vertex F) → Result (Projection F)
  unfolding project_from
  project_point_to_polyline lat lon [] =
      ok (record { progress_m = lit 0; cross_track_m = lit 0; segment_idx = 0 })
  project_point_to_polyline lat lon (only ∷ []) = haversine_m lat lon only.lat only.lon >=> λ d.
      ok (record { progress_m = only.cum_m; cross_track_m = d; segment_idx = 0 })
  project_point_to_polyline lat lon (a ∷ b ∷ vs) =
      project_from lat lon (segments_of (a ∷ b ∷ vs)) 0
        (record { progress_m = a.cum_m; cross_track_m = fl.infinity; segment_idx = 0 })

  -- The cumulative haversine distances behind a point.
  unfoldable pub haversine_from : F → RawPoint F → List (RawPoint F) → Result (List F)
  haversine_from cum a [] = ok []
  haversine_from cum a (b ∷ pts) = haversine_m a.lat a.lon b.lat b.lon >=> λ d.
      haversine_from (fl.add cum d) b pts >=> λ rest. ok (fl.add cum d ∷ rest)

  -- The given distances in metres; none if one of them is None.
  unfoldable pub given_dists_m : List (RawPoint F) → Option (List F)
  given_dists_m [] = some []
  given_dists_m (p ∷ pts) = elim p.km [
    | none ↦ none
    | some km ↦ Option.map (λ ds. fl.mul km (lit 1000) ∷ ds) (given_dists_m pts)
  ]

  -- No distance is less than the one before.
  unfoldable pub is_rising : List F → Bool
  is_rising [] = true
  is_rising (d ∷ []) = true
  is_rising (d ∷ e ∷ ds) = if fl.lt e d then false else is_rising (e ∷ ds)

  -- `_validate_dists_m` on distances that are all there, one for each point.
  unfoldable pub validate_dists_m : (first last haversine_total_m : F) → List F → Bool
  validate_dists_m first last haversine_total_m dists =
      let ratio = fl.div (fl.sub last first) haversine_total_m in
      if is_rising dists
      then (if fl.lt (lit 0) haversine_total_m
          then fl.le fl.half ratio && fl.le ratio (lit 2)
          else true)
      else false

  unfoldable pub with_dists : List (RawPoint F) → List F → List (Vertex F)
  with_dists (p ∷ pts) (d ∷ ds) = record { lat = p.lat; lon = p.lon; cum_m = d } ∷ with_dists pts ds
  with_dists [] ds = []
  with_dists (p ∷ pts) [] = []

  -- The distances that `build_polyline` uses, from the given ones and the haversine ones.
  unfoldable pub chosen_dists : Option (List F) → List F → List F
  chosen_dists none hav_cum = hav_cum
  chosen_dists (some []) hav_cum = hav_cum
  chosen_dists (some (d ∷ ds)) hav_cum =
      let last = Option.get_or (last_of (d ∷ ds)) d in
      let total = Option.get_or (last_of hav_cum) (lit 0) in
      if validate_dists_m d last total (d ∷ ds) then map (λ x. fl.sub x d) (d ∷ ds) else hav_cum

  unfoldable pub build_polyline : List (RawPoint F) → Result (List (Vertex F))
  build_polyline [] = ok []
  build_polyline (p ∷ pts) = haversine_from (lit 0) p pts >=> λ hav_cum.
      ok (with_dists (p ∷ pts) (chosen_dists (given_dists_m (p ∷ pts)) (lit 0 ∷ hav_cum)))
