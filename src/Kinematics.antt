-- ===== src/Kinematics.antt =====
-- simulator_app/domain/kinematics.py: shapes, distances, interpolation along a shape, the nearest
-- stop and the scratch space of a vehicle. The shapes file is a value: its points and stops are
-- records with all their fields.
pub mod Search
pub mod Placement
pub mod Motion
pub mod Rules
pub mod Countdown
pub mod Step
pub mod Payload
pub mod Faults
mod Tests
use mathlib.Core.Option
use databus_sim.Prelude.{
  ℕ, zero, suc, ◌+◌, ◌-◌, ◌/◌, String, Bool, Option, none, some, List, [], ◌∷◌, ltb, str_eq,
  get_elem?, length, if◌then◌else◌,
}
use Prim.Native.Nat.{max}
use databus_sim.Prelude.Int.{ℤ, pos}
use databus_sim.Float.{Float, lit, fmax, fmin}
use databus_sim.Dict.{Dict, get}
use databus_sim.Effect.{Result, ok, err, key_error, index_error, ◌>=>◌}
use databus_sim.Fleet.{Vehicle, Kin}

pub record Point (F : Type 0) : Type 0 where
  pub lat : F
  pub lon : F
  pub dist_km : F

pub record Shape (F : Type 0) : Type 0 where
  pub shape_id : String
  pub points : List (Point F)

pub record Stop (F : Type 0) : Type 0 where
  pub stop_id : String
  pub name : String
  pub lat : F
  pub lon : F

-- The values that `random` gives in one call.
pub record Draws (F : Type 0) : Type 0 where
  pub first_speed : F
  pub first_occupancy : ℤ
  pub speed_change : F
  pub occupancy_change : ℤ

-- xs[-1]
unfoldable pub last_of {ℓ} : {A : Type ℓ} → List A → Option A
last_of [] = none
last_of (x ∷ []) = some x
last_of (x ∷ y ∷ xs) = last_of (y ∷ xs)

-- A subscript that raises IndexError.
abbrev pub or_index_error {ℓ} : {A : Type ℓ} → Option A → Result A
or_index_error none = err index_error
or_index_error (some a) = ok a

-- `a or b`, for a text or None: None and the empty text are false.
abbrev pub or_else : Option String → String → String
or_else none b = b
or_else (some a) b = if str_eq a "" then b else a

module _ {F : Type 0} ⦃fl : Float F⦄ where
  -- MIN_SPEED, MAX_SPEED, STOP_DWELL_TICKS, STOP_RADIUS_M
  abbrev pub min_speed : F
  min_speed = lit 3

  abbrev pub max_speed : F
  max_speed = lit 12

  abbrev pub stop_radius_m : F
  stop_radius_m = lit 20

  unfoldable pub total_dist_m : Shape F → Result F
  unfolding last_of
  total_dist_m shape =
      or_index_error (last_of shape.points) >=> λ p. ok (fl.mul p.dist_km (lit 1000))

  unfoldable pub haversine_m : F → F → F → F → Result F
  haversine_m lat1 lon1 lat2 lon2 =
      let r = lit 6371000 in
      let p1 = fl.radians lat1 in
      let p2 = fl.radians lat2 in
      let dp = fl.radians (fl.sub lat2 lat1) in
      let dl = fl.radians (fl.sub lon2 lon1) in
      fl.sin (fl.div dp (lit 2)) >=> λ s. fl.square s >=> λ s2. fl.cos p1 >=> λ c1.
      fl.cos p2 >=> λ c2. fl.sin (fl.div dl (lit 2)) >=> λ u. fl.square u >=> λ u2.
      fl.sqrt (fl.add s2 (fl.mul (fl.mul c1 c2) u2)) >=> λ q.
      fl.asin q >=> λ d. ok (fl.mul (fl.mul (lit 2) r) d)

  unfoldable pub bearing_deg : F → F → F → F → Result F
  bearing_deg lat1 lon1 lat2 lon2 =
      let p1 = fl.radians lat1 in
      let p2 = fl.radians lat2 in
      let dl = fl.radians (fl.sub lon2 lon1) in
      fl.sin dl >=> λ sdl. fl.cos p2 >=> λ c2. fl.cos p1 >=> λ c1. fl.sin p2 >=> λ s2.
      fl.sin p1 >=> λ s1. fl.cos dl >=> λ cdl.
      let x = fl.mul sdl c2 in
      let y = fl.sub (fl.mul c1 s2) (fl.mul (fl.mul s1 c2) cdl) in
      ok (fl.modulo (fl.add (fl.degrees (fl.atan2 x y)) (lit 360)) (lit 360))

  -- The `while lo < hi` loop of `interpolate`; a subscript out of range raises. The fuel is the
  -- number of points, which is more than the rounds made.
  pub bisect : (fuel : ℕ) (pts : List (Point F)) (progress_km : F) (lo hi : ℕ) → Result ℕ
  bisect zero pts progress_km lo hi = ok lo
  bisect (suc fuel) pts progress_km lo hi =
      let mid = (lo + hi) / 2 in
      let upper = bisect fuel pts progress_km (mid + 1) hi in
      let lower = bisect fuel pts progress_km lo mid in
      if ltb lo hi
      then (or_index_error (get_elem? pts mid) >=> λ p.
          if fl.lt p.dist_km progress_km then upper else lower)
      else ok lo

  -- The part of `interpolate` behind the loop: between the points i - 1 and i.
  abbrev pub place_on : (a b : Point F) (progress_km : F) → F × F
  place_on a b progress_km =
      let span = fmax (fl.sub b.dist_km a.dist_km) fl.nano in
      let t = fl.div (fl.sub progress_km a.dist_km) span in
      (fl.add a.lat (fl.mul (fl.sub b.lat a.lat) t), fl.add a.lon (fl.mul (fl.sub b.lon a.lon) t))

  unfoldable pub on_segment : (a b : Point F) (progress_km : F) → Result (F × F × F)
  on_segment a b progress_km =
      let (lat, lon) = place_on a b progress_km in
      bearing_deg a.lat a.lon b.lat b.lon >=> λ brg. ok (lat, lon, brg)

  -- `max(0.0, min(progress_m / 1000.0, pts[-1][2]))`
  abbrev pub clamp_km : F → Point F → F
  clamp_km progress_m end = fmax (lit 0) (fmin (fl.div progress_m (lit 1000)) end.dist_km)

  unfoldable pub interpolate : Shape F → F → Result (F × F × F)
  interpolate shape progress_m = or_index_error (last_of shape.points) >=> λ end.
      let progress_km = clamp_km progress_m end in
      bisect (length shape.points) shape.points progress_km 0 (length shape.points - 1) >=> λ lo.
      let i = max 1 lo in
      or_index_error (get_elem? shape.points (i - 1)) >=> λ a.
      or_index_error (get_elem? shape.points i) >=> λ b. on_segment a b progress_km

  -- The loop of `_nearest_stop`, with the best stop so far.
  unfoldable pub nearest_from :
      List (Stop F) → (lat lon : F) → Option (Stop F) → F → Result (Option (Stop F) × F)
  nearest_from [] lat lon best best_d = ok (best, best_d)
  nearest_from (s ∷ stops) lat lon best best_d = haversine_m lat lon s.lat s.lon >=> λ d.
      let closer = fl.lt d best_d in
      nearest_from stops lat lon (if closer then some s else best) (if closer then d else best_d)

  unfoldable pub nearest_stop : List (Stop F) → (lat lon : F) → Result (Option (Stop F) × F)
  unfolding nearest_from
  nearest_stop stops lat lon = nearest_from stops lat lon none fl.infinity

  -- `_init_kin`: `setdefault` on each key fills an empty dict and leaves a filled one as it is.
  unfoldable pub init_kin : Draws F → Option (Kin F) → Kin F
  init_kin r (some k) = k
  init_kin r none = record {
    speed = r.first_speed;
    occupancy_pct = r.first_occupancy;
    dwell_remaining = pos 0;
    stop_sequence = 1;
    last_stop_id = "";
    post_run_idle_remaining_s = lit 0;
    fault = none;
    fault_ticks = pos 0;
    progression_prev = none;
  }

  -- `_get_shape`
  unfoldable pub get_shape : Vehicle F → Dict (Shape F) → Result (Shape F)
  get_shape v shapes = elim (get shapes (or_else v.bound_shape_id v.default_shape_id)) [
    | none ↦ err key_error
    | some shape ↦ ok shape
  ]
