-- ===== src/Float/Sample.antt =====
-- Whole numbers with an infinity: values that meet the laws, for the tests.
use databus_sim.Prelude.{
  ℕ, ◌+◌, ◌-◌, ◌*◌, ◌/◌, Bool, true, false, Option, none, some, arith, ltb, leb,
}
use databus_sim.Prelude.Int.{pos_part}
use databus_sim.Effect.{Result, ok, err, value_error, ◌>=>◌}
use databus_sim.Float.{Float, IsOrdered}

-- `none` is the infinity.
abbrev pub Sample : Type 0
Sample = Option ℕ

abbrev le : Sample → Sample → Bool
le (some a) (some b) = leb a b
le (some a) none = true
le none (some b) = false
le none none = true

abbrev lt : Sample → Sample → Bool
lt (some a) (some b) = ltb a b
lt (some a) none = true
lt none y = false

abbrev lift : (ℕ → ℕ → ℕ) → Sample → Sample → Sample
lift f (some a) (some b) = some (f a b)
lift f (some a) none = none
lift f none y = none

-- Infinity is out of the domain of the sine.
abbrev in_range : Sample → Result Sample
in_range (some a) = ok (some a)
in_range none = err value_error

instance abbrev pub sample_float : Float Sample
sample_float = record {
  le = le;
  lt = lt;
  add = lift ◌+◌;
  sub = lift ◌-◌;
  mul = lift ◌*◌;
  div = lift ◌/◌;
  of_int = λ a. some (pos_part a);
  nano = some 1;
  half = some 0;
  infinity = none;
  round = λ x digits. x;
  radians = λ x. x;
  degrees = λ x. x;
  sin = in_range;
  cos = λ x. in_range x >=> λ y. ok (some 1);
  asin = ok;
  sqrt = ok;
  square = λ x. ok (lift ◌*◌ x x);
  atan2 = λ x y. x;
  modulo = λ x y. x;
}

pub Sample-IsOrdered : IsOrdered Sample
Sample-IsOrdered = ground arith
