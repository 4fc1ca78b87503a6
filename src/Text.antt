-- ===== src/Text.antt =====
-- What the code does with the text of a setting or a URL: Python's `split(",")`, `strip()`,
-- `rstrip("/")` and `lower()`.
pub mod Strip
pub mod Split
use Prim.Native.Char.{Char, code}
use databus_sim.Prelude.{
  ℕ, ◌+◌, String, Bool, true, false, ◌&&◌, ◌||◌, List, [], ◌∷◌, map, ◌==◌, leb, if◌then◌else◌,
  contains,
}

-- s + t
abbrev pub append : String → String → String
append String.[] t = t
append (String.◌∷◌ c s) t = String.◌∷◌ c (append s t)

-- str.isspace
unfoldable pub is_space : Char → Bool
is_space c =
    let n = code c in
    leb 9 n && leb n 13
    || leb 28 n && leb n 32
    || n == 133
    || n == 160
    || n == 5760
    || leb 8192 n && leb n 8202
    || n == 8232
    || n == 8233
    || n == 8239
    || n == 8287
    || n == 12288

abbrev pub is_empty : String → Bool
is_empty String.[] = true
is_empty (String.◌∷◌ c s) = false

-- A space in front is dropped.
unfoldable pub lstrip : String → String
lstrip String.[] = ""
lstrip (String.◌∷◌ c s) = let rest = lstrip s in if is_space c then rest else String.◌∷◌ c s

-- What `test` holds of is dropped from the end.
unfoldable pub rstrip_if : (test : Char → Bool) → String → String
rstrip_if test String.[] = ""
rstrip_if test (String.◌∷◌ c s) =
    let rest = rstrip_if test s in if is_empty rest && test c then "" else String.◌∷◌ c rest

unfoldable pub strip : String → String
strip s = rstrip_if is_space (lstrip s)

abbrev pub is_char : ℕ → Char → Bool
is_char n c = code c == n

-- s.rstrip("/")
unfoldable pub rstrip_slash : String → String
rstrip_slash s = rstrip_if (is_char b'/') s

abbrev onto_first : Char → List String → List String
onto_first c [] = []
onto_first c (s ∷ parts) = String.◌∷◌ c s ∷ parts

-- s.split(",")
unfoldable pub split_comma : String → List String
split_comma String.[] = "" ∷ []
split_comma (String.◌∷◌ c s) =
    let parts = split_comma s in if is_char b',' c then "" ∷ parts else onto_first c parts

-- set(xs), in the order of the first occurrences behind `seen`
unfoldable pub to_set : (seen : List String) → List String → List String
to_set seen [] = []
to_set seen (x ∷ xs) =
    let new = x ∷ to_set (x ∷ seen) xs in
    let old = to_set seen xs in if contains x seen then old else new

-- The code points of `s.lower()`, for a text in ASCII.
abbrev pub lower_code : ℕ → ℕ
lower_code n = if leb b'A' n && leb n b'Z' then n + 32 else n

abbrev pub codes : String → List ℕ
codes String.[] = []
codes (String.◌∷◌ c s) = code c ∷ codes s

unfoldable pub lower : String → List ℕ
lower s = map lower_code (codes s)
