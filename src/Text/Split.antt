-- ===== src/Text/Split.antt =====
-- `split(",")` on a text of parts with commas between them.
use databus_sim.Prelude.{String, ◌≡◌, refl, false, List, [], ◌∷◌, All, ap}
use databus_sim.Text.{append, is_char, split_comma}
use databus_sim.Text.Strip.{AllIs}

abbrev pub NoComma : String → Type 0
NoComma s = AllIs (is_char b',') false s

unfoldable pub join_comma : List String → String
join_comma [] = ""
join_comma (x ∷ []) = x
join_comma (x ∷ y ∷ xs) = append x (append "," (join_comma (y ∷ xs)))

split_comma-one : (s : String) → NoComma s → split_comma s ≡ s ∷ []
unfolding split_comma
split_comma-one String.[] h = refl
split_comma-one (String.◌∷◌ c s) h = rw (h.0, split_comma-one s h.1)

split_comma-append :
    (s t : String) → NoComma s → split_comma (append s (append "," t)) ≡ s ∷ split_comma t
unfolding split_comma
split_comma-append String.[] t h = refl
split_comma-append (String.◌∷◌ c s) t h = rw (h.0, split_comma-append s t h.1)

-- The parts of a text are found again.
pub split_comma-join :
    (x : String) (xs : List String)
    → All NoComma (x ∷ xs)
    → split_comma (join_comma (x ∷ xs)) ≡ x ∷ xs
unfolding join_comma
split_comma-join x [] h = split_comma-one x h.0
split_comma-join x (y ∷ xs) h =
    rw (split_comma-append x (join_comma (y ∷ xs)) h.0)
      (ap (λ ys. x ∷ ys) (split_comma-join y xs h.1))

pub NoComma-append : (s t : String) → NoComma s → NoComma t → NoComma (append s t)
NoComma-append String.[] t h k = k
NoComma-append (String.◌∷◌ c s) t h k = (h.0, NoComma-append s t h.1 k)
