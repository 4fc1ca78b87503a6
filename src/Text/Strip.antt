-- ===== src/Text/Strip.antt =====
-- `strip` on a text with spaces around it.
use Prim.Native.Char.{Char}
use databus_sim.Prelude.{String, ◌≡◌, refl, Bool, true, false}
use databus_sim.Text.{append, is_space, lstrip, rstrip_if, strip}

-- The test holds of each character.
abbrev pub AllIs : (Char → Bool) → Bool → String → Type 0
AllIs test b String.[] = Unit
AllIs test b (String.◌∷◌ c s) = (test c ≡ b) × AllIs test b s

-- The first character, and the last one: there is one, and the test fails on it.
abbrev pub Starts : (Char → Bool) → String → Type 0
Starts test String.[] = ⊥
Starts test (String.◌∷◌ c s) = test c ≡ false

abbrev pub Ends : (Char → Bool) → String → Type 0
Ends test String.[] = ⊥
Ends test (String.◌∷◌ c String.[]) = test c ≡ false
Ends test (String.◌∷◌ c (String.◌∷◌ d s)) = Ends test (String.◌∷◌ d s)

lstrip-append : (l t : String) → AllIs is_space true l → lstrip (append l t) ≡ lstrip t
unfolding lstrip
lstrip-append String.[] t h = refl
lstrip-append (String.◌∷◌ c l) t h = rw h.0 (lstrip-append l t h.1)

lstrip-same : (s t : String) → Starts is_space s → lstrip (append s t) ≡ append s t
unfolding lstrip
lstrip-same String.[] t h = elim h [ ]
lstrip-same (String.◌∷◌ c s) t h = rw h

rstrip-all : (test : Char → Bool) (r : String) → AllIs test true r → rstrip_if test r ≡ ""
unfolding rstrip_if
rstrip-all test String.[] h = refl
rstrip-all test (String.◌∷◌ c r) h = rw (rstrip-all test r h.1, h.0)

pub rstrip-append :
    (test : Char → Bool) (s r : String)
    → Ends test s
    → AllIs test true r
    → rstrip_if test (append s r) ≡ s
unfolding rstrip_if
rstrip-append test String.[] r e h = elim e [ ]
rstrip-append test (String.◌∷◌ c String.[]) r e h = rw (rstrip-all test r h, e)
rstrip-append test (String.◌∷◌ c (String.◌∷◌ d s)) r e h =
    rw (rstrip-append test (String.◌∷◌ d s) r e h)

-- Spaces around a text that neither starts nor ends with one are dropped.
pub strip-padded :
    (l s r : String)
    → AllIs is_space true l
    → Starts is_space s
    → Ends is_space s
    → AllIs is_space true r
    → strip (append l (append s r)) ≡ s
unfolding strip
strip-padded l s r hl starts ends hr =
    rw (lstrip-append l (append s r) hl, lstrip-same s r starts)
      (rstrip-append is_space s r ends hr)
