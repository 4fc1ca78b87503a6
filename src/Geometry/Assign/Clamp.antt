-- ===== src/Geometry/Assign/Clamp.antt =====
-- The final clamp of `assign_stops_monotonic`.
use databus_sim.Prelude.{List, [], ◌∷◌, All, arith, Bool-cases, inl, inr}
use databus_sim.Float.{Float, IsOrdered, ◌≼◌}
use databus_sim.Geometry.Assign.{clamp_all, clamp_rising}

module _ {F : Type 0} ⦃fl : Float F⦄ where
  -- From `x` on, no distance is less than the one before.
  abbrev pub IsClimbing : F → List F → Type 0
  IsClimbing x [] = Unit
  IsClimbing x (y ∷ ys) = (x ≼ y) × IsClimbing y ys

  abbrev pub IsRising : List F → Type 0
  IsRising [] = Unit
  IsRising (x ∷ xs) = IsClimbing x xs

  -- Stop by stop, the second list is at or ahead of the first.
  abbrev pub IsAhead : List F → List F → Type 0
  IsAhead [] [] = Unit
  IsAhead (x ∷ xs) (y ∷ ys) = (x ≼ y) × IsAhead xs ys
  IsAhead [] (y ∷ ys) = ⊥
  IsAhead (x ∷ xs) [] = ⊥

  module _ (laws : IsOrdered F) where
    clamp_rising_lem :
        (before : F) (ps : List F)
        → before ≼ before
        → All (λ p. p ≼ p) ps
        → IsClimbing before (clamp_rising before ps) × IsAhead ps (clamp_rising before ps)
    unfolding clamp_rising
    clamp_rising_lem before [] hb hs = (tt, tt)
    clamp_rising_lem before (p ∷ ps) hb (hp, hs) = elim (Bool-cases (fl.lt p before)) [
      | inl back ↦
          let (up, ahead) = clamp_rising_lem before ps hb hs in
          rw back ((hb, up), (laws.le_of_lt p before back, ahead))
      | inr on ↦
          let (up, ahead) = clamp_rising_lem p ps hp hs in
          let le : before ≼ p = ground (arith, laws.lt-eq-not-le p before hp hb) in
          rw on ((le, up), (hp, ahead))
    ]

    -- Given the float laws, the final clamp of distances that are numbers gives distances that
    -- never fall from stop to stop, as many as there are stops, and moves no stop back.
    pub clamp_all-IsRising :
        (ps : List F) → All (λ p. p ≼ p) ps → IsRising (clamp_all ps) × IsAhead ps (clamp_all ps)
    unfolding clamp_all
    clamp_all-IsRising [] hs = (tt, tt)
    clamp_all-IsRising (p ∷ ps) hs =
        let (up, ahead) = clamp_rising_lem p ps hs.0 hs.1 in (up, (hs.0, ahead))
