-- ===== src/Scheduler.antt =====
-- simulator_app/services/scheduler.py: the schedule, its validation, its file and its snapshot.
-- The entries of the YAML document are records: a key that is missing is `none`, and the
-- values have the documented types. A key that the code reads without a default is `none` also
-- where it is null; a null relationship is `some none`; a null among the defaults, which int(None)
-- refuses, is no value of the model. Times are in microseconds. `fromisoformat` is a parameter,
-- and so is YAML.
pub mod Dispatch
pub mod Tasks
pub mod Statuses
pub mod Life
pub mod Once
pub mod Validation
pub mod Reload
pub mod Links
pub mod Stuck
mod Tests
use mathlib.Core.Option
use databus_sim.Prelude.{
  ℕ, zero, suc, String, Bool, true, false, contains, not, ◌||◌, Option, none, some, List, [], ◌∷◌,
  map, str_eq, if◌then◌else◌,
}
use databus_sim.Prelude.Int.{ℤ, pos}
use databus_sim.Dict.{Dict, get, put}
use databus_sim.Effect.{Result, ok, err, type_error, value_error, required, Exec, ◌>=>◌}

pub data Status : Type 0 where
  pending requested initialized failed : Status

-- A datetime: its time, and whether it has a timezone.
pub record Instant : Type 0 where
  pub micros : ℤ
  pub aware : Bool

-- YAML gives a datetime, or a text that is to be read as one.
pub data StartTime : Type 0 where
  moment : Instant → StartTime
  text : String → StartTime

pub record Entry : Type 0 where
  pub id : Option String
  pub vehicle_id : Option String
  pub operator_id : Option String
  pub route_id : Option String
  pub trip_id : Option String
  pub shape_id : Option String
  pub direction_id : Option ℤ
  pub schedule_relationship : Option (Option String)
  pub start_time : Option StartTime
  pub auto_confirm : Bool
  pub auto_start_motion_after_s : Option ℕ

-- The `defaults` of a document: `none` where the key is missing, `some none` where it is null,
-- and else a whole number.
pub record RawDefaults : Type 0 where
  pub pre_run_idle_s : Option (Option ℤ)
  pub post_run_idle_s : Option (Option ℤ)
  pub auto_confirm_delay_s : Option (Option ℤ)

pub record Document : Type 0 where
  pub defaults : RawDefaults
  pub runs : List Entry

pub record Defaults : Type 0 where
  pub pre_run_idle_s : ℤ
  pub post_run_idle_s : ℤ
  pub auto_confirm_delay_s : ℤ

pub record Schedule : Type 0 where
  pub entries : List Entry
  pub statuses : Dict Status
  pub run_ids : Dict String
  pub defaults : Defaults

unfoldable pub new_schedule : Schedule
new_schedule = record {
  entries = [];
  statuses = [];
  run_ids = [];
  defaults = record {
    pre_run_idle_s = pos 30;
    post_run_idle_s = pos 30;
    auto_confirm_delay_s = pos 5;
  };
}

-- VALID_SCHEDULE_RELATIONSHIPS
unfoldable pub is_relationship : Option String → Bool
is_relationship none = false
is_relationship (some rel) = contains rel ("SCHEDULED" ∷ "ADDED" ∷ "UNSCHEDULED" ∷ [])

-- VALID_DIRECTION_IDS
unfoldable pub is_direction : Option ℤ → Bool
is_direction (some (pos zero)) = true
is_direction (some (pos (suc zero))) = true
is_direction _ = false

-- entry.get("schedule_relationship", "SCHEDULED")
abbrev pub relationship_of : Entry → Option String
relationship_of e = Option.get_or e.schedule_relationship (some "SCHEDULED")

unfoldable pub with_zone : Instant → Result Instant
with_zone t = if t.aware then ok t else err value_error

-- The entries that are new are pending.
unfoldable pub add_statuses : List Entry → Dict Status → Dict Status
add_statuses [] statuses = statuses
add_statuses (e ∷ entries) statuses = elim e.id [
  | none ↦ add_statuses entries statuses
  | some eid ↦ elim (get statuses eid) [
    | some status ↦ add_statuses entries statuses
    | none ↦ add_statuses entries (put statuses eid pending)
  ]
]

-- int(defaults.get(key, default))
unfoldable pub default_of : Option (Option ℤ) → ℤ → Result ℤ
default_of none default = ok default
default_of (some none) default = err type_error
default_of (some (some n)) default = ok n

unfoldable pub read_defaults : RawDefaults → Result Defaults
read_defaults raw = default_of raw.pre_run_idle_s (pos 30) >=> λ pre.
    default_of raw.post_run_idle_s (pos 30) >=> λ post.
    default_of raw.auto_confirm_delay_s (pos 5) >=> λ confirm.
    ok (record { pre_run_idle_s = pre; post_run_idle_s = post; auto_confirm_delay_s = confirm })

module _ (fromisoformat : String → Option Instant) where
  unfoldable pub parse_dt : StartTime → Result Instant
  parse_dt (moment t) = with_zone t
  parse_dt (text s) = elim (fromisoformat s) [ none ↦ err value_error | some t ↦ with_zone t ]

  unfoldable pub validate_entry : Entry → Result (Unit {0})
  validate_entry e = required e.start_time >=> λ start. parse_dt start >=> λ _.
      if is_direction e.direction_id
      then (if is_relationship (relationship_of e) then ok tt else err value_error)
      else err value_error

  -- The loop over the runs of a document, in `load` and in `write`.
  unfoldable pub validate_runs : List String → List Entry → Result (Unit {0})
  validate_runs ids_seen [] = ok tt
  validate_runs ids_seen (e ∷ runs) = elim e.id [
    | none ↦ err value_error
    | some eid ↦
        if str_eq eid ""
        then err value_error
        else if contains eid ids_seen
        then err value_error
        else validate_entry e >=> λ _. validate_runs (eid ∷ ids_seen) runs
  ]

  -- `load`, from what reading the file comes to. The defaults are assigned before the runs are
  -- validated.
  unfoldable pub load : Result Document → Exec Schedule (Unit {0})
  load (err e) s = (err e, s)
  load (ok document) s = elim (read_defaults document.defaults) [
    | err e ↦ (err e, s)
    | ok defaults ↦
        let s' = record s { defaults = defaults } in
        elim (validate_runs [] document.runs) [
          | err e ↦ (err e, s')
          | ok _ ↦ (
            ok tt,
            record s' {
              entries = document.runs;
              statuses = add_statuses document.runs s'.statuses;
            },
          )
        ]
  ]

  -- `write`: the file is replaced by the dump of the document, if its runs are valid.
  unfoldable pub write : (safe_dump : Document → String) → Document → Exec String (Unit {0})
  write safe_dump document file = elim (validate_runs [] document.runs) [
    | err e ↦ (err e, file)
    | ok _ ↦ (ok tt, safe_dump document)
  ]

-- self._statuses.get(eid, _PENDING)
abbrev pub status_of : Dict Status → String → Status
status_of statuses eid = Option.get_or (get statuses eid) pending

pub record Row : Type 0 where
  pub entry : Entry
  pub status : Status
  pub bound_run_id : Option String

unfoldable pub row_of : Schedule → Entry → Result Row
row_of s e = required e.id >=> λ eid.
    ok (record { entry = e; status = status_of s.statuses eid; bound_run_id = get s.run_ids eid })

unfoldable pub rows_of : Schedule → List Entry → Result (List Row)
rows_of s [] = ok []
rows_of s (e ∷ entries) = row_of s e >=> λ row. rows_of s entries >=> λ rows. ok (row ∷ rows)

unfoldable pub snapshot : Schedule → ℕ → Result (Defaults × List Row × ℕ)
snapshot s now = rows_of s s.entries >=> λ rows. ok (s.defaults, rows, now)
