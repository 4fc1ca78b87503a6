-- ===== src/Float/Order.antt =====
-- Consequences of the order laws, for values that may be NaN.
use databus_sim.Prelude.{◌≡◌, true, false, inl, inr, arith, Bool-cases}
use databus_sim.Float.{Float, IsOrdered, ◌≼◌, fmax, fmin}

module _ {F : Type 0} ⦃fl : Float F⦄ (laws : IsOrdered F) where
  pub le_of_not_lt : (x y : F) → x ≼ x → y ≼ y → fl.lt x y ≡ false → y ≼ x
  le_of_not_lt x y hx hy h = ground (arith, laws.lt-eq-not-le x y hx hy)

  pub lt_of_le_of_lt : (x y z : F) → x ≼ y → fl.lt y z ≡ true → fl.lt x z ≡ true
  lt_of_le_of_lt x y z h k =
      let (hx, hy) = laws.refl_of_le x y h in
      let (_, hz) = laws.refl_of_le y z (laws.le_of_lt y z k) in
      elim (Bool-cases (fl.le z x)) [
        | inl wrong ↦ ground (arith, laws.lt-eq-not-le y z hy hz, laws.le_trans z x y wrong h)
        | inr right ↦ ground (arith, laws.lt-eq-not-le x z hx hz)
      ]

  -- max(lo, min(x, hi)) is at least `lo`, and `hi` is not below it, also where x is NaN.
  pub clamp_bounds :
      (lo hi x : F)
      → lo ≼ hi
      → (lo ≼ fmax lo (fmin x hi)) × (fl.lt hi (fmax lo (fmin x hi)) ≡ false)
  clamp_bounds lo hi x h =
      let (hlo, hhi) = laws.refl_of_le lo hi h in
      let below = laws.lt-eq-not-le hi lo hhi hlo in
      let self = laws.lt-eq-not-le hi hi hhi hhi in let above = laws.le_of_lt lo x in ground arith
