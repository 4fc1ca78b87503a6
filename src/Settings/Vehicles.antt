-- ===== src/Settings/Vehicles.antt =====
-- The lists of vehicles in the environment (sim_project/settings.py), and what the tick loop of
-- simulator_app/runtime.py makes of SIM_ONLY_VEHICLES.
use databus_sim.Prelude.{
  String, ◌≡◌, refl, ap, ◌∙◌, true, false, not, ◌||◌, some, List, [], ◌∷◌, map, All, arith,
  contains, eq_iff, Bool-cases, inl, inr,
}
use Prim.Native.Char.{Char}
use databus_sim.Prelude.Int.{ℤ, pos}
use databus_sim.Dict.{Dict, get}
use databus_sim.Effect.{Result, ok}
use databus_sim.Fleet.{Vehicle}
use databus_sim.Text.{append, strip, to_set, is_char, is_space}
use databus_sim.Text.Strip.{AllIs, Starts, Ends, strip-padded}
use databus_sim.Text.Split.{NoComma, NoComma-append, join_comma, split_comma-join}
use databus_sim.Settings.{Settings, env, not_empty, vehicles, read_settings, tick_settings}
use databus_sim.Runtime.Tick.{Chance, is_skipped}

-- A name with what stands around it, between two commas.
pub record Item : Type 0 where
  pub left : String
  pub name : String
  pub right : String

abbrev pub written : Item → String
written i = append i.left (append i.name i.right)

-- Spaces around a name that neither starts nor ends with one and has no comma.
pub record IsPadded (i : Item) : Type 0 where
  pub spaces_left : AllIs is_space true i.left
  pub starts : Starts is_space i.name
  pub ends : Ends is_space i.name
  pub spaces_right : AllIs is_space true i.right
  pub no_comma : NoComma i.name

abbrev pub names : List Item → List String
names items = map (λ i. i.name) items

space_no_comma : (c : Char) → is_space c ≡ true → is_char b',' c ≡ false
unfolding is_space
space_no_comma c h = ground arith

spaces-NoComma : (s : String) → AllIs is_space true s → NoComma s
spaces-NoComma String.[] h = tt
spaces-NoComma (String.◌∷◌ c s) h = (space_no_comma c h.0, spaces-NoComma s h.1)

written-NoComma : (i : Item) → IsPadded i → NoComma (written i)
written-NoComma i h =
    NoComma-append i.left (append i.name i.right) (spaces-NoComma i.left h.spaces_left)
      (NoComma-append i.name i.right h.no_comma (spaces-NoComma i.right h.spaces_right))

all_written : (items : List Item) → All IsPadded items → All NoComma (map written items)
all_written [] h = tt
all_written (i ∷ items) h = (written-NoComma i h.0, all_written items h.1)

strip-written :
    (items : List Item) → All IsPadded items → map strip (map written items) ≡ names items
strip-written [] h = refl
strip-written (i ∷ items) h =
    let p = h.0 in
    rw (strip-padded i.left i.name i.right p.spaces_left p.starts p.ends p.spaces_right)
      (ap (λ xs. i.name ∷ xs) (strip-written items h.1))

not_empty-cons :
    (s : String) (xs : List String) → Starts is_space s → not_empty (s ∷ xs) ≡ s ∷ not_empty xs
not_empty-cons String.[] xs h = elim h [ ]
not_empty-cons (String.◌∷◌ c s) xs h = refl

not_empty-names : (items : List Item) → All IsPadded items → not_empty (names items) ≡ names items
not_empty-names [] h = refl
not_empty-names (i ∷ items) h =
    not_empty-cons i.name (names items) h.0.starts
    ∙ ap (λ xs. i.name ∷ xs) (not_empty-names items h.1)

contains-to_set :
    (v : String) (seen xs : List String)
    → (contains v seen || contains v (to_set seen xs)) ≡ (contains v seen || contains v xs)
unfolding contains to_set
contains-to_set v seen [] = refl
contains-to_set v seen (x ∷ xs) = elim (Bool-cases (contains x seen)) [
  | inl old ↦ rw old (ground (arith, eq_iff x v, contains-to_set v seen xs))
  | inr new ↦ rw new (ground (arith, contains-to_set v (x ∷ seen) xs))
]

vehicles-written :
    (i : Item) (items : List Item)
    → All IsPadded (i ∷ items)
    → vehicles (join_comma (map written (i ∷ items))) ≡ i.name ∷ to_set (i.name ∷ []) (names items)
unfolding vehicles to_set contains
vehicles-written i items h =
    ap (λ parts. to_set [] (not_empty (map strip parts)))
      (split_comma-join (written i) (map written items) (all_written (i ∷ items) h))
    ∙ ap (λ ns. to_set [] (not_empty ns)) (strip-written (i ∷ items) h)
    ∙ ap (to_set []) (not_empty-names (i ∷ items) h)

-- Any name that is listed is found, and no other.
pub contains-vehicles :
    (i : Item) (items : List Item) (v : String)
    → All IsPadded (i ∷ items)
    → contains v (vehicles (join_comma (map written (i ∷ items)))) ≡ contains v (names (i ∷ items))
unfolding contains
contains-vehicles i items v h =
    rw (vehicles-written i items h) (ground (arith, contains-to_set v (i.name ∷ []) (names items)))

module _ {F : Type 0} (int : String → Result ℤ) (float : String → Result F)
    (default_shapes_path default_schedule_path : String) where
  read_settings-only :
      (e : Dict String) (s : Settings F)
      → read_settings int float default_shapes_path default_schedule_path e ≡ ok s
      → s.sim_only_vehicles ≡ vehicles (env e "SIM_ONLY_VEHICLES" "")
  unfolding read_settings
  read_settings-only e s read = ground arith

  -- Where SIM_ONLY_VEHICLES lists names with commas between them, and spaces around them or not,
  -- and the settings can be read with a drop rate of 0, the tick loop skips exactly the vehicles
  -- whose id is none of the names.
  pub is_skipped-named :
      (e : Dict String) (s : Settings F) (i : Item) (items : List Item) (chance : Chance F)
      (v : Vehicle F)
      → read_settings int float default_shapes_path default_schedule_path e ≡ ok s
      → get e "SIM_ONLY_VEHICLES" ≡ some (join_comma (map written (i ∷ items)))
      → All IsPadded (i ∷ items)
      → s.sim_random_drop_rate ≡ pos 0
      → is_skipped (tick_settings s) chance v ≡ not (contains v.vehicle_id (names (i ∷ items)))
  unfolding is_skipped tick_settings env
  is_skipped-named e s i items chance v read listed padded sure =
      let only : s.sim_only_vehicles ≡ vehicles (join_comma (map written (i ∷ items))) =
        read_settings-only e s read ∙ rw listed in
      let only' = only ∙ vehicles-written i items padded in
      let found = contains-vehicles i items v.vehicle_id padded in ground arith
