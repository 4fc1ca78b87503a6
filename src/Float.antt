-- ===== src/Float.antt =====
-- All that the code does with a `float`: its order, its arithmetic, `round`, the functions of
-- Python's `math` module, and the constants that are no whole numbers. The type and its operations
-- are parameters, and `IsOrdered` holds the facts of IEEE arithmetic that the proofs rely on.
pub mod Sample
pub mod Order
use databus_sim.Prelude.{ℕ, ◌≤◌, ◌≡◌, Bool, true, false, not, ◌⊎◌, arith, if◌then◌else◌}
use databus_sim.Prelude.Int.{ℤ, pos}
use databus_sim.Effect.{Result}

pub record Float (F : Type 0) : Type 0 where
  pub le : F → F → Bool
  pub lt : F → F → Bool
  pub add : F → F → F
  pub sub : F → F → F
  pub mul : F → F → F
  pub div : F → F → F
  -- `float(n)`, and the literals 3.0, 1000.0, ...
  pub of_int : ℤ → F
  -- 1e-9, 0.5, float("inf")
  pub nano : F
  pub half : F
  pub infinity : F
  -- round(x, digits)
  pub round : F → ℕ → F
  pub radians : F → F
  pub degrees : F → F
  -- math.sin and math.cos of an infinity, math.asin outside -1 .. 1 and math.sqrt of a negative
  -- number raise ValueError, and x ** 2 raises OverflowError where the square of a finite x is
  -- too large.
  pub sin : F → Result F
  pub cos : F → Result F
  pub asin : F → Result F
  pub sqrt : F → Result F
  pub square : F → Result F
  pub atan2 : F → F → F
  -- x % y
  pub modulo : F → F → F

infix 4 ◌≼◌
abbrev pub ◌≼◌ : {F : Type 0} ⦃fl : Float F⦄ → F → F → Type 0
◌≼◌ ⦃fl⦄ x y = fl.le x y ≡ true

module _ {F : Type 0} ⦃fl : Float F⦄ where
  -- The literal n.0
  abbrev pub lit : ℕ → F
  lit n = fl.of_int (pos n)

  -- `max(a, b)` and `min(a, b)`: the later argument is taken only if it is strictly better.
  abbrev pub fmax : F → F → F
  fmax a b = if fl.lt a b then b else a

  abbrev pub fmin : F → F → F
  fmin a b = if fl.lt b a then b else a

  -- `x == y`
  abbrev pub feq : F → F → Bool
  feq a b = if fl.le a b then fl.le b a else false

-- NaN is the value that is not `<=` itself. Sums of non-negative values are no NaN, products of
-- finite ones neither.
pub record IsOrdered (F : Type 0) ⦃fl : Float F⦄ : Type 0 where
  pub refl_of_le : (x y : F) → x ≼ y → (x ≼ x) × (y ≼ y)
  pub le_trans : (x y z : F) → x ≼ y → y ≼ z → x ≼ z
  pub le_total : (x y : F) → x ≼ x → y ≼ y → (x ≼ y) ⊎ (y ≼ x)
  pub lt-eq-not-le : (x y : F) → x ≼ x → y ≼ y → fl.lt x y ≡ not (fl.le y x)
  pub le_of_lt : (x y : F) → fl.lt x y ≡ true → x ≼ y
  -- Whole numbers up to the largest literal of the code are exact.
  pub lit_mono : (a b : ℕ) → a ≤ b → b ≤ 6371000 → lit {F = F} a ≼ lit b
  pub lit_finite : (a : ℕ) → a ≤ 6371000 → fl.lt (lit a) fl.infinity ≡ true
  pub le_infinity : (x : F) → x ≼ x → x ≼ fl.infinity
  pub le-add : (x y : F) → lit 0 ≼ x → lit 0 ≼ y → x ≼ fl.add x y
  pub add_mono : (c x y : F) → lit 0 ≼ c → lit 0 ≼ x → x ≼ y → fl.add c x ≼ fl.add c y
  pub mul_nonneg :
      (x y : F)
      → lit 0 ≼ x
      → lit 0 ≼ y
      → fl.lt x fl.infinity ≡ true
      → fl.lt y fl.infinity ≡ true
      → lit 0 ≼ fl.mul x y
