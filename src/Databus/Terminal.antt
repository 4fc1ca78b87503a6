-- ===== src/Databus/Terminal.antt =====
-- The terminal stop that simulator_app/services/databus_client.py picks.
use databus_sim.Prelude.{
  ℕ, ◌≡◌, refl, ap, true, false, some, List, [], ◌∷◌, ◌++◌, All, arith, Bool-cases, inl, inr,
}
use databus_sim.Prelude.Int.{◌≤ℤ◌, ltb_ℤ}
use databus_sim.Databus.{
  response, done, is_success, StopTime, listed, sequence_of, max_from, terminal_of, terminal_in,
  get_trip_terminal_stop,
}

-- The item of the highest sequence, the first one if there are several.
pub record IsTerminal (items : List StopTime) (x : StopTime) : Type 0 where
  pub before : List StopTime
  pub after : List StopTime
  pub split : items ≡ before ++ x ∷ after
  pub above : All (λ y. ltb_ℤ (sequence_of y) (sequence_of x) ≡ true) before
  pub not_below : All (λ y. sequence_of y ≤ℤ sequence_of x) after

-- A list that starts with `first` has its terminal at or above `first`.
first-le-max_from :
    (best : StopTime) (xs : List StopTime) → sequence_of best ≤ℤ sequence_of (max_from best xs)
unfolding max_from
first-le-max_from best [] = omega arith
first-le-max_from best (x ∷ xs) = elim (Bool-cases (ltb_ℤ (sequence_of best) (sequence_of x))) [
  | inl higher ↦ rw (higher, max_from) (let p = first-le-max_from x xs in ground arith)
  | inr not_higher ↦ rw (not_higher, max_from) (first-le-max_from best xs)
]

-- A lower item in front changes nothing.
cons_above :
    (y : StopTime) (items : List StopTime) (x : StopTime)
    → ltb_ℤ (sequence_of y) (sequence_of x) ≡ true
    → IsTerminal items x
    → IsTerminal (y ∷ items) x
cons_above y items x low t = record {
  before = y ∷ t.before;
  after = t.after;
  split = ap (λ l. y ∷ l) t.split;
  above = (low, t.above);
  not_below = t.not_below;
}

-- An item that is not higher behind the first one changes nothing.
insert_second :
    (best y : StopTime) (xs : List StopTime) (x : StopTime)
    → ltb_ℤ (sequence_of best) (sequence_of y) ≡ false
    → sequence_of best ≤ℤ sequence_of x
    → IsTerminal (best ∷ xs) x
    → IsTerminal (best ∷ y ∷ xs) x
insert_second best y xs x low le t = split_on t.before t.split t.above
  where
    split_on :
        (before : List StopTime)
        → best ∷ xs ≡ before ++ x ∷ t.after
        → All (λ z. ltb_ℤ (sequence_of z) (sequence_of x) ≡ true) before
        → IsTerminal (best ∷ y ∷ xs) x
    split_on [] e above = record {
      before = [];
      after = y ∷ t.after;
      split = cc;
      above = tt;
      not_below = (let e' : best ≡ x = cc in ground arith, t.not_below);
    }
    split_on (z ∷ before) e above = record {
      before = best ∷ y ∷ before;
      after = t.after;
      split = cc;
      above = (
        let e' : z ≡ best = cc in ground arith,
        (let e' : z ≡ best = cc in ground arith, above.1),
      );
      not_below = t.not_below;
    }

max_from-IsTerminal :
    (best : StopTime) (xs : List StopTime) → IsTerminal (best ∷ xs) (max_from best xs)
unfolding max_from
max_from-IsTerminal best [] = record {
  before = [];
  after = [];
  split = refl;
  above = tt;
  not_below = tt;
}
max_from-IsTerminal best (x ∷ xs) = elim (Bool-cases (ltb_ℤ (sequence_of best) (sequence_of x))) [
  | inl higher ↦ rw higher (
      cons_above best (x ∷ xs) (max_from x xs) (let p = first-le-max_from x xs in ground arith)
        (max_from-IsTerminal x xs))
  | inr not_higher ↦ rw not_higher (
      insert_second best x xs (max_from best xs) not_higher (first-le-max_from best xs)
        (max_from-IsTerminal best xs))
]

-- A successful response with a list of stop times that is not empty gives the stop id of the item
-- of the highest sequence, the first one if there are several; an item without a sequence counts
-- as 0.
pub get_trip_terminal_stop-IsTerminal :
    (code : ℕ) (x : StopTime) (xs : List StopTime)
    → is_success code ≡ true
    → (t : StopTime) × IsTerminal (x ∷ xs) t
      × (get_trip_terminal_stop
            (response (record { status_code = code; json = some (listed (x ∷ xs)) }))
          ≡ done t.stop_id)
unfolding get_trip_terminal_stop terminal_in terminal_of
get_trip_terminal_stop-IsTerminal code x xs good =
    (max_from x xs, max_from-IsTerminal x xs, rw good)
