-- ===== src/Progression/Upcoming.antt =====
-- The candidate stop of simulator_app/domain/progression/compute.py.
use databus_sim.Prelude.{
  ◌≡◌, refl, true, false, some, List, [], ◌∷◌, ◌++◌, arith, inl, inr, ◌⊎◌, ap, All, Bool-cases,
  if◌then◌else◌,
}
use databus_sim.Prelude.Int.{◌≤ℤ◌}
use databus_sim.Float.{Float, IsOrdered, ◌≼◌}
use databus_sim.Kinematics.{last_of}
use databus_sim.Progression.{ShapeStop, first_ahead, pick_upcoming_stop}

module _ {F : Type 0} ⦃fl : Float F⦄ where
  -- The sequence numbers never fall along the list, as `build_route_geometry` gives them.
  abbrev pub IsRising : List (ShapeStop F) → Type 0
  IsRising [] = Unit
  IsRising (s ∷ []) = Unit
  IsRising (s ∷ t ∷ ss) = (s.stop_sequence ≤ℤ t.stop_sequence) × IsRising (t ∷ ss)

  pick-cons :
      (s t : ShapeStop F) (ss : List (ShapeStop F)) (x : F)
      → pick_upcoming_stop (s ∷ t ∷ ss) x
        ≡ (if fl.le x s.progress_m then some s else pick_upcoming_stop (t ∷ ss) x)
  unfolding pick_upcoming_stop first_ahead last_of
  pick-cons s t ss x = ground arith

  pick-last : (s : ShapeStop F) (x : F) → pick_upcoming_stop (s ∷ []) x ≡ some s
  unfolding pick_upcoming_stop first_ahead last_of
  pick-last s x = ground arith

  -- The stop behind which all of `before` lies, and which is ahead of `x` or the last one.
  pub record IsUpcoming (stops : List (ShapeStop F)) (x : F) (a : ShapeStop F) : Type 0 where
    pub before : List (ShapeStop F)
    pub after : List (ShapeStop F)
    pub split : stops ≡ before ++ a ∷ after
    pub passed : All (λ s. fl.le x s.progress_m ≡ false) before
    pub next : (fl.le x a.progress_m ≡ true) ⊎ (after ≡ [])

  -- `_pick_upcoming_stop` finds a stop in every non-empty list: the first one at or ahead of the
  -- vehicle, and the last one if all are behind it.
  pub pick-IsUpcoming :
      (s : ShapeStop F) (ss : List (ShapeStop F)) (x : F)
      → (a : ShapeStop F) × (pick_upcoming_stop (s ∷ ss) x ≡ some a) × IsUpcoming (s ∷ ss) x a
  pick-IsUpcoming s [] x = (
    s,
    pick-last s x,
    record { before = []; after = []; split = refl; passed = tt; next = inr refl },
  )
  pick-IsUpcoming s (t ∷ ss) x = elim (Bool-cases (fl.le x s.progress_m)) [
    | inl ahead ↦ (
      s,
      rw (pick-cons, ahead),
      record { before = []; after = t ∷ ss; split = refl; passed = tt; next = inl ahead },
    )
    | inr behind ↦
        let (a, found, u) = pick-IsUpcoming t ss x in
        (
          a,
          rw (pick-cons, behind) found,
          record {
            before = s ∷ u.before;
            after = u.after;
            split = ap (λ l. s ∷ l) u.split;
            passed = (behind, u.passed);
            next = u.next;
          },
        )
  ]

  head-le-pick :
      (s : ShapeStop F) (ss : List (ShapeStop F)) (x : F) (b : ShapeStop F)
      → IsRising (s ∷ ss)
      → pick_upcoming_stop (s ∷ ss) x ≡ some b
      → s.stop_sequence ≤ℤ b.stop_sequence
  head-le-pick s [] x b up e = ground (arith, pick-last s x)
  head-le-pick s (t ∷ ss) x b up e = ground (arith, pick-cons s t ss x, head-le-pick t ss x b up.1)

  module _ (laws : IsOrdered F) where
    pub pick_mono :
        (stops : List (ShapeStop F)) (x y : F) (a b : ShapeStop F)
        → IsRising stops
        → x ≼ y
        → pick_upcoming_stop stops x ≡ some a
        → pick_upcoming_stop stops y ≡ some b
        → a.stop_sequence ≤ℤ b.stop_sequence
    unfolding pick_upcoming_stop first_ahead last_of
    pick_mono [] x y a b up h ea eb = cc
    pick_mono (s ∷ []) x y a b up h ea eb = ground arith
    pick_mono (s ∷ t ∷ ss) x y a b up h ea eb = elim (Bool-cases (fl.le x s.progress_m)) [
      | inl ahead ↦ ground (arith, pick-cons s t ss x, head-le-pick s (t ∷ ss) y b up)
      | inr behind ↦ ground (
        arith,
        pick-cons s t ss x,
        pick-cons s t ss y,
        laws.le_trans x y s.progress_m,
        pick_mono (t ∷ ss) x y a b up.1,
      )
    ]
