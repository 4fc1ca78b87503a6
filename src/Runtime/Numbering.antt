-- ===== src/Runtime/Numbering.antt =====
-- The stop lists that simulator_app/runtime.py hands to the progression of the vehicles.
use databus_sim.Prelude.{
  ℕ, suc, String, ◌≡◌, refl, some, List, [], ◌∷◌, All, map, subst, arith, inl, inr, Option-cases,
}
use databus_sim.Prelude.Int.{pos}
use databus_sim.Float.{Float, lit}
use databus_sim.Dict.{Dict, get, put, put-found}
use databus_sim.Effect.{Result, ok, ◌>=>◌, bind-ok, map-ok, ok-inj, Result-cases}
use databus_sim.Kinematics.{Stop}
use databus_sim.Progression.{ShapeStop}
use databus_sim.Progression.Upcoming.{IsRising}
use databus_sim.Geometry.{RawPoint, Vertex, build_polyline, project_point_to_polyline}
use databus_sim.Geometry.Assign.{BuiltStop, build_stops, join_stops, assign_stops_monotonic}
use databus_sim.Geometry.Route.{
  Route, ShapeEntry, RouteGeometry, number_rows, named, members, sort_candidates, shape_entry,
  shape_entries, build_route_geometry, name_map, merge_stops,
}
use databus_sim.Runtime.Start.{ShapesFile, add_entries, add_routes, progression_geometry}

module _ {F : Type 0} where
  -- Numbered one after the other, from `n` on.
  abbrev pub IsNumbered : ℕ → List (ShapeStop F) → Type 0
  IsNumbered n [] = Unit
  IsNumbered n (s ∷ ss) = (s.stop_sequence ≡ pos n) × IsNumbered (suc n) ss

  abbrev IsNumberedBuilt : ℕ → List (BuiltStop F) → Type 0
  IsNumberedBuilt n [] = Unit
  IsNumberedBuilt n (s ∷ ss) = (s.stop_sequence ≡ pos n) × IsNumberedBuilt (suc n) ss

  named-IsNumbered :
      (names : Dict String) (n : ℕ) (bs : List (BuiltStop F))
      → IsNumberedBuilt n bs
      → IsNumbered n (map (named names) bs)
  unfolding named
  named-IsNumbered names n [] h = tt
  named-IsNumbered names n (b ∷ bs) h = (h.0, named-IsNumbered names (suc n) bs h.1)

module _ {F : Type 0} ⦃fl : Float F⦄ where
  IsNumbered-IsRising : (n : ℕ) (ss : List (ShapeStop F)) → IsNumbered n ss → IsRising ss
  IsNumbered-IsRising n [] h = tt
  IsNumbered-IsRising n (s ∷ []) h = tt
  IsNumbered-IsRising n (s ∷ t ∷ ss) h =
      (ground (arith, h.0, h.1.0), IsNumbered-IsRising (suc n) (t ∷ ss) h.1)

  join_stops-IsNumbered :
      (idx : ℕ) (candidates : List (F × Stop F)) (progress : List F) (polyline : List (Vertex F))
      (bs : List (BuiltStop F))
      → join_stops (number_rows idx candidates) progress polyline ≡ ok bs
      → IsNumberedBuilt (suc idx) bs
  unfolding join_stops number_rows
  join_stops-IsNumbered idx [] progress polyline [] h = tt
  join_stops-IsNumbered idx [] progress polyline (b ∷ bs) h = cc
  join_stops-IsNumbered idx (c ∷ cs) [] polyline [] h = tt
  join_stops-IsNumbered idx (c ∷ cs) [] polyline (b ∷ bs) h = cc
  join_stops-IsNumbered idx ((x, s) ∷ cs) (pm ∷ progress) polyline bs h =
      let (proj, projected, h1) = bind-ok (project_point_to_polyline s.lat s.lon polyline) _ bs h in
      let (rest, joined, e) =
        map-ok (join_stops (number_rows (suc idx) cs) progress polyline) _ bs h1 in
      subst (IsNumberedBuilt (suc idx)) e
        (refl, join_stops-IsNumbered (suc idx) cs progress polyline rest joined)

  shape_entry-IsNumbered :
      (threshold : F) (shape_id : String) (points : List (RawPoint F)) (stops : List (Stop F))
      (e : ShapeEntry F)
      → shape_entry threshold shape_id points stops ≡ ok e
      → IsNumbered 1 e.stops
  unfolding shape_entry build_stops
  shape_entry-IsNumbered threshold shape_id points stops e h =
      let (polyline, drawn, h0) = bind-ok (build_polyline points) _ e h in
      let (candidates, chosen, h1) = bind-ok (members threshold polyline stops) _ e h0 in
      let rows = number_rows 0 (sort_candidates candidates) in
      let (built, made, same) = map-ok (build_stops rows polyline) _ e h1 in
      let (progress, assigned, joined) =
        bind-ok (assign_stops_monotonic rows polyline) _ built made in
      let numbered =
        join_stops-IsNumbered 0 (sort_candidates candidates) progress polyline built joined in
      subst (λ x. IsNumbered 1 x.stops) same (named-IsNumbered (name_map stops []) 1 built numbered)

  shape_entries-IsNumbered :
      (threshold : F) (shapes : Dict (List (RawPoint F))) (stops : List (Stop F))
      (ids : List String) (merged : Dict (Stop F)) (r : List (ShapeEntry F) × Dict (Stop F))
      → shape_entries threshold shapes stops ids merged ≡ ok r
      → All (λ e. IsNumbered 1 e.stops) r.0
  unfolding shape_entries
  shape_entries-IsNumbered threshold shapes stops [] merged r h =
      subst (λ x. All (λ e. IsNumbered 1 e.stops) x.0) (ok-inj ([], merged) r h) tt
  shape_entries-IsNumbered threshold shapes stops (shape_id ∷ ids) merged r h =
      elim (Option-cases (get shapes shape_id)) [
        | inl unknown ↦
            let h' = rw (unknown, shape_entries) at h in
            shape_entries-IsNumbered threshold shapes stops ids merged r h'
        | inr (points, known) ↦
            let h' = rw (known, shape_entries) at h in
            let (entry, made, h1) = bind-ok (shape_entry threshold shape_id points stops) _ r h' in
            let (rest, others, same) =
              map-ok (shape_entries threshold shapes stops ids (merge_stops entry.stops merged)) _ r
                h1 in
            subst (λ x. All (λ e. IsNumbered 1 e.stops) x.0) same
              (
                shape_entry-IsNumbered threshold shape_id points stops entry made,
                shape_entries-IsNumbered threshold shapes stops ids (merge_stops entry.stops merged)
                    rest others,
              )
      ]

  build_route_geometry-IsNumbered :
      (threshold : F) (route : Route) (shapes : Dict (List (RawPoint F))) (stops : List (Stop F))
      (g : RouteGeometry F)
      → build_route_geometry threshold route shapes stops ≡ ok g
      → All (λ e. IsNumbered 1 e.stops) g.shapes
  unfolding build_route_geometry
  build_route_geometry-IsNumbered threshold route shapes stops g h =
      let (built, made, same) =
        map-ok (shape_entries threshold shapes stops route.shape_ids []) _ g h in
      subst (λ x. All (λ e. IsNumbered 1 e.stops) x.shapes) same
        (shape_entries-IsNumbered threshold shapes stops route.shape_ids [] built made)

  abbrev AllNumbered : Dict (List (ShapeStop F)) → Type 0
  AllNumbered d = (k : String) (ss : List (ShapeStop F)) → get d k ≡ some ss → IsNumbered 1 ss

  add_entries-AllNumbered :
      (entries : List (ShapeEntry F)) (geom : Dict (List (ShapeStop F)))
      → All (λ e. IsNumbered 1 e.stops) entries
      → AllNumbered geom
      → AllNumbered (add_entries entries geom)
  unfolding add_entries
  add_entries-AllNumbered [] geom hs hg = hg
  add_entries-AllNumbered (e ∷ entries) geom hs hg =
      add_entries-AllNumbered entries (put geom e.shape_id e.stops) hs.1 λ k ss found.
        elim (put-found geom e.shape_id k e.stops ss found) [
          | inl (here, new) ↦ rw new hs.0
          | inr old ↦ hg k ss old
        ]

  add_routes-AllNumbered :
      (raw : ShapesFile F (RawPoint F)) (routes : List Route)
      (geom geom' : Dict (List (ShapeStop F)))
      → AllNumbered geom
      → add_routes raw routes geom ≡ ok geom'
      → AllNumbered geom'
  unfolding add_routes
  add_routes-AllNumbered raw [] geom geom' hg h = subst AllNumbered (ok-inj geom geom' h) hg
  add_routes-AllNumbered raw (r ∷ routes) geom geom' hg h =
      let (g, built, h1) =
        bind-ok (build_route_geometry (lit 50) r raw.shapes raw.stops) _ geom' h in
      add_routes-AllNumbered raw routes (add_entries g.shapes geom) geom'
        (add_entries-AllNumbered g.shapes geom
          (build_route_geometry-IsNumbered (lit 50) r raw.shapes raw.stops g built) hg)
        h1

  -- Whatever the shapes file holds, and also where it cannot be read, each stop list that
  -- start-up puts into the progression geometry has its stops numbered 1, 2, 3 and so on, so that
  -- the numbers never fall along the list.
  pub progression_geometry-IsNumbered :
      (file : Result (ShapesFile F (RawPoint F))) (routes : List Route) (k : String)
      (ss : List (ShapeStop F))
      → get (progression_geometry file routes) k ≡ some ss
      → IsNumbered 1 ss × IsRising ss
  unfolding progression_geometry get
  progression_geometry-IsNumbered file routes k ss found =
      let numbered : IsNumbered 1 ss =
        elim (Result-cases (file >=> λ raw. add_routes raw routes [])) [
          | inl (geom, built) ↦
              let (raw, read, added) = bind-ok file _ geom built in
              let found' = rw (built, progression_geometry) at found in
              add_routes-AllNumbered raw routes [] geom (λ j ts none_there. cc) added k ss found'
          | inr (e, failed) ↦ let found' = rw (failed, progression_geometry) at found in cc
        ] in
      (numbered, IsNumbered-IsRising 1 ss numbered)
