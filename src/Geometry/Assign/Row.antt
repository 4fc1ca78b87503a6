-- ===== src/Geometry/Assign/Row.antt =====
-- A row of the dynamic program of simulator_app/domain/progression/shapes.py.
use databus_sim.Prelude.{
  ℕ, zero, suc, ◌+◌, ◌≤◌, ◌<◌, ◌≡◌, refl, subst, List, [], ◌∷◌, All, length, get_elem?, some, arith,
  Bool-cases, inl, inr, if◌then◌else◌,
}
use mathlib.Core.Option.{some-injective}
use databus_sim.Float.{Float, IsOrdered, ◌≼◌, lit}
use databus_sim.Float.Order.{le_of_not_lt}
use databus_sim.Geometry.Assign.{next_row}
use databus_sim.Geometry.Assign.Price.{IsCost, number, IsCost-add}

-- The entry `i` of a row of `dp`, built behind the minimum `mn` from `prev`: the least entry of
-- the row before (`full`) up to there, which stands at `a`, with the cost of the segment.
pub record IsStep {F : Type 0} ⦃fl : Float F⦄ (mn : F) (full prev cost dps : List F)
    (backs : List ℕ) (i : ℕ) : Type 0 where
  pub least : F
  pub arg : ℕ
  pub source : F
  pub own : F
  pub costs : get_elem? cost i ≡ some own
  pub adds : get_elem? dps i ≡ some (fl.add own least)
  pub points : get_elem? backs i ≡ some arg
  pub there : get_elem? full arg ≡ some source
  pub reached : source ≼ least
  pub is_cost : lit 0 ≼ least
  pub below_start : least ≼ mn
  pub below : (k : ℕ) (x : F) → k ≤ i → get_elem? prev k ≡ some x → least ≼ x

-- The running minimum `least` and its place `arg` once the entry `d` is read.
record IsLeast {F : Type 0} ⦃fl : Float F⦄ (mn : F) (full : List F) (d least : F) (arg : ℕ)
    : Type 0 where
  source : F
  there : get_elem? full arg ≡ some source
  reached : source ≼ least
  is_cost : lit 0 ≼ least
  below_start : least ≼ mn
  below_here : least ≼ d

module _ {F : Type 0} ⦃fl : Float F⦄ (laws : IsOrdered F) where
  update-IsLeast :
      (full : List F) (mn : F) (arg j : ℕ) (d source : F)
      → IsCost d
      → get_elem? full j ≡ some d
      → get_elem? full arg ≡ some source
      → source ≼ mn
      → IsCost mn
      → IsLeast mn full d (if fl.lt d mn then d else mn) (if fl.lt d mn then j else arg)
  update-IsLeast full mn arg j d source hd here there reached hm = elim (Bool-cases (fl.lt d mn)) [
    | inl better ↦ rw better (record {
      source = d;
      there = here;
      reached = number laws d hd;
      is_cost = hd;
      below_start = laws.le_of_lt d mn better;
      below_here = number laws d hd;
    })
    | inr worse ↦ rw worse (record {
      source = source;
      there = there;
      reached = reached;
      is_cost = hm;
      below_start = number laws mn hm;
      below_here = le_of_not_lt laws d mn (number laws d hd) (number laws mn hm) worse;
    })
  ]

  pub next_row-IsStep :
      (full : List F) (mn : F) (arg j : ℕ) (prev cost : List F) (source : F) (i : ℕ)
      → All IsCost prev
      → length prev ≡ length cost
      → ((k : ℕ) (x : F) → get_elem? prev k ≡ some x → get_elem? full (j + k) ≡ some x)
      → get_elem? full arg ≡ some source
      → source ≼ mn
      → IsCost mn
      → i < length prev
      → IsStep mn full prev cost (next_row mn arg j prev cost).0 (next_row mn arg j prev cost).1 i
  unfolding next_row
  next_row-IsStep full mn arg j [] cost source i hs e at there reached hm h = absurd (omega arith)
  next_row-IsStep full mn arg j (d ∷ prev) [] source i hs e at there reached hm h =
      absurd (omega arith)
  next_row-IsStep full mn arg j (d ∷ prev) (c ∷ cost) source zero hs e at there reached hm h =
      let here : get_elem? full j ≡ some d =
        subst (λ n. get_elem? full n ≡ some d) (omega arith) (at 0 d refl) in
      let u = update-IsLeast full mn arg j d source hs.0 here there reached hm in
      record {
        least = if fl.lt d mn then d else mn;
        arg = if fl.lt d mn then j else arg;
        source = u.source;
        own = c;
        costs = refl;
        adds = refl;
        points = refl;
        there = u.there;
        reached = u.reached;
        is_cost = u.is_cost;
        below_start = u.below_start;
        below = elim [
          | zero ↦ λ x low g.
              subst (λ y. (if fl.lt d mn then d else mn) ≼ y) (some-injective _ _ g) u.below_here
          | suc k ↦ λ x low g. absurd (omega arith)
        ];
      }
  next_row-IsStep full mn arg j (d ∷ prev) (c ∷ cost) source (suc i) hs e at there reached hm h =
      let here : get_elem? full j ≡ some d =
        subst (λ n. get_elem? full n ≡ some d) (omega arith) (at 0 d refl) in
      let u = update-IsLeast full mn arg j d source hs.0 here there reached hm in
      let s =
        next_row-IsStep full (if fl.lt d mn then d else mn) (if fl.lt d mn then j else arg) (suc j)
          prev cost u.source i hs.1 (omega arith)
          (λ k x g. subst (λ n. get_elem? full n ≡ some x) (omega arith) (at (suc k) x g)) u.there
          u.reached u.is_cost (omega arith) in
      record {
        least = s.least;
        arg = s.arg;
        source = s.source;
        own = s.own;
        costs = s.costs;
        adds = s.adds;
        points = s.points;
        there = s.there;
        reached = s.reached;
        is_cost = s.is_cost;
        below_start = laws.le_trans _ _ _ s.below_start u.below_start;
        below = elim [
          | zero ↦ λ x low g.
              subst (λ y. s.least ≼ y) (some-injective _ _ g)
                (laws.le_trans _ _ _ s.below_start u.below_here)
          | suc k ↦ λ x low g. s.below k x (omega arith) g
        ];
      }

  pub next_row-IsCost :
      (mn : F) (arg j : ℕ) (prev cost : List F)
      → IsCost mn
      → All IsCost prev
      → All IsCost cost
      → All IsCost (next_row mn arg j prev cost).0
  unfolding next_row
  next_row-IsCost mn arg j [] cost h hs hc = tt
  next_row-IsCost mn arg j (d ∷ prev) [] h hs hc = tt
  next_row-IsCost mn arg j (d ∷ prev) (c ∷ cost) h hs hc = elim (Bool-cases (fl.lt d mn)) [
    | inl better ↦
        rw better
          (IsCost-add laws c d hc.0 hs.0, next_row-IsCost d j (suc j) prev cost hs.0 hs.1 hc.1)
    | inr worse ↦
        rw worse (IsCost-add laws c mn hc.0 h, next_row-IsCost mn arg (suc j) prev cost h hs.1 hc.1)
  ]

  IsCost-infinity : IsCost fl.infinity
  IsCost-infinity = laws.le_infinity _ (laws.lit_mono 0 0 (omega arith) (omega arith))

  -- Row by row from the infinite start, for at least one segment.
  pub row-IsStep :
      (dp cost : List F) (i : ℕ)
      → All IsCost dp
      → length dp ≡ length cost
      → i < length dp
      → IsStep fl.infinity dp dp cost
          (next_row fl.infinity 0 0 dp cost).0
          (next_row fl.infinity 0 0 dp cost).1
          i
  row-IsStep [] cost i hs e h = absurd (omega arith)
  row-IsStep (d ∷ dp) cost i hs e h =
      next_row-IsStep (d ∷ dp) fl.infinity 0 0 (d ∷ dp) cost d i hs e
        (λ k x g. subst (λ n. get_elem? (d ∷ dp) n ≡ some x) (omega arith) g) refl
        (laws.le_infinity d (number laws d hs.0)) IsCost-infinity h

  pub row-IsCost :
      (dp cost : List F)
      → All IsCost dp
      → All IsCost cost
      → All IsCost (next_row fl.infinity 0 0 dp cost).0
  row-IsCost dp cost = next_row-IsCost fl.infinity 0 0 dp cost IsCost-infinity
