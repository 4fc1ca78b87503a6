-- ===== src/Kinematics/Search.antt =====
-- The binary search of `interpolate` (simulator_app/domain/kinematics.py).
use databus_sim.Prelude.{
  ℕ, zero, suc, ◌+◌, ◌-◌, ◌/◌, ◌≤◌, ◌<◌, ◌≡◌, refl, true, false, some, List, [], ◌∷◌, arith, ltb,
  get_elem?, length, Bool-cases, inl, inr, subst, ltb→lt,
}
use databus_sim.Float.{Float, IsOrdered, ◌≼◌}
use databus_sim.Float.Order.{lt_of_le_of_lt}
use databus_sim.Effect.{ok}
use databus_sim.Kinematics.{Point, bisect}

pub get_elem?-of_lt {ℓ} :
    {A : Type ℓ} (xs : List A) (i : ℕ) → i < length xs → (a : A) × (get_elem? xs i ≡ some a)
get_elem?-of_lt [] i h = elim h [ ]
get_elem?-of_lt (x ∷ xs) zero h = (x, refl)
get_elem?-of_lt (x ∷ xs) (suc i) h = get_elem?-of_lt xs i (omega arith)

module _ {F : Type 0} ⦃fl : Float F⦄ where
  -- The distances never fall along the shape.
  abbrev pub IsSorted : List (Point F) → Type 0
  IsSorted pts =
      (i j : ℕ) (a b : Point F)
      → get_elem? pts i ≡ some a
      → get_elem? pts j ≡ some b
      → i ≤ j
      → a.dist_km ≼ b.dist_km

  -- The answer lies in lo..hi.
  pub record Bracket (pts : List (Point F)) (km : F) (lo hi : ℕ) : Type 0 where
    pub ordered : lo ≤ hi
    pub inside : hi < length pts
    pub behind :
        (j : ℕ) (q : Point F) → get_elem? pts j ≡ some q → j < lo → fl.lt q.dist_km km ≡ true
    pub reached : (q : Point F) → get_elem? pts hi ≡ some q → fl.lt q.dist_km km ≡ false

  -- The first point that is not behind `km`.
  abbrev pub IsFirst : List (Point F) → F → ℕ → Type 0
  IsFirst pts km i = Bracket pts km i i

  module _ (laws : IsOrdered F) (pts : List (Point F)) (km : F) (sorted : IsSorted pts) where
    upper-Bracket :
        (lo mid hi : ℕ) (a : Point F)
        → mid < hi
        → Bracket pts km lo hi
        → get_elem? pts mid ≡ some a
        → fl.lt a.dist_km km ≡ true
        → Bracket pts km (mid + 1) hi
    upper-Bracket lo mid hi a room b here behind = record {
      ordered = omega arith;
      inside = b.inside;
      behind = λ j q found h.
          lt_of_le_of_lt laws q.dist_km a.dist_km km (sorted j mid q a found here (omega arith))
            behind;
      reached = b.reached;
    }

    lower-Bracket :
        (lo mid hi : ℕ) (a : Point F)
        → lo ≤ mid
        → mid < hi
        → Bracket pts km lo hi
        → get_elem? pts mid ≡ some a
        → fl.lt a.dist_km km ≡ false
        → Bracket pts km lo mid
    lower-Bracket lo mid hi a low room b here ahead = record {
      ordered = low;
      inside = let h = b.inside in omega arith;
      behind = b.behind;
      reached = λ q found. ground arith;
    }

    pub bisect_lem :
        (fuel lo hi : ℕ)
        → hi - lo ≤ fuel
        → Bracket pts km lo hi
        → (i : ℕ) × (bisect fuel pts km lo hi ≡ ok i) × IsFirst pts km i
    unfolding bisect
    bisect_lem zero lo hi room b = (lo, refl, subst (Bracket pts km lo) (omega arith) b)
    bisect_lem (suc fuel) lo hi room b = elim (Bool-cases (ltb lo hi)) [
      | inr done ↦ (lo, rw done, subst (Bracket pts km lo) (ground (arith, b.ordered)) b)
      | inl more ↦
          let mid = (lo + hi) / 2 in
          let low : lo < hi = ltb→lt lo hi more in
          let (a, here) = get_elem?-of_lt pts ((lo + hi) / 2) (let h = b.inside in omega arith) in
          elim (Bool-cases (fl.lt a.dist_km km)) [
            | inl behind ↦
                let (i, e, f) =
                  bisect_lem fuel ((lo + hi) / 2 + 1) hi (omega arith)
                    (upper-Bracket lo ((lo + hi) / 2) hi a (omega arith) b here behind) in
                (i, rw (more, here, behind) e, f)
            | inr ahead ↦
                let (i, e, f) = bisect_lem fuel lo ((lo + hi) / 2) (omega arith) (
                  lower-Bracket lo ((lo + hi) / 2) hi a (omega arith) (omega arith) b here ahead) in
                (i, rw (more, here, ahead) e, f)
          ]
    ]
