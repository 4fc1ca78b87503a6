-- ===== src/Scheduler/Validation.antt =====
-- Which documents simulator_app/services/scheduler.py accepts, and what it reads back.
use mathlib.Core.Option
use databus_sim.Prelude.{
  contains, zero, suc, String, ◌≡◌, ◌≢◌, refl, ◌↔◌, ◌⊎◌, inl, inr, true, false, Option, none, some,
  List, [], ◌∷◌, map, All, arith, eq_iff, str_eq, Bool-cases, Option-cases, if◌then◌else◌,
}
use databus_sim.Prelude.Int.{ℤ, pos, negsuc}
use databus_sim.Effect.{Result, ok, err, value_error, required, bind-ok, required-ok, ◌>=>◌}
use databus_sim.Scheduler.{
  Entry, Instant, StartTime, moment, text, is_relationship, is_direction, relationship_of,
  with_zone, parse_dt, validate_entry, validate_runs,
}
use databus_sim.Scheduler.Once.{IsDistinct}

contains-cons :
    (x y : String) (ys : List String)
    → contains x (y ∷ ys) ≡ false
    → (str_eq y x ≡ false) × (contains x ys ≡ false)
unfolding contains
contains-cons x y ys h = ground arith

-- Not to be among the ids seen, when one more has been seen.
new_of_cons :
    (x : String) (seen ids : List String)
    → All (λ i. contains i (x ∷ seen) ≡ false) ids
    → All (λ i. contains i seen ≡ false) ids × (contains x ids ≡ false)
unfolding contains
new_of_cons x seen [] h = (tt, refl)
new_of_cons x seen (i ∷ ids) h =
    let rest = new_of_cons x seen ids h.1 in
    let first = contains-cons i x seen h.0 in
    ((first.1, rest.0), ground (arith, eq_iff x i, eq_iff i x, first.0, rest.1))

cons_of_new :
    (x : String) (seen ids : List String)
    → All (λ i. contains i seen ≡ false) ids
    → contains x ids ≡ false
    → All (λ i. contains i (x ∷ seen) ≡ false) ids
unfolding contains
cons_of_new x seen [] h n = tt
cons_of_new x seen (i ∷ ids) h n =
    let ne = contains-cons x i ids n in
    (ground (arith, eq_iff x i, eq_iff i x, h.0, ne.0), cons_of_new x seen ids h.1 ne.1)

-- What the three tests of a run with an id have found, when they let it pass.
passed :
    (eid : String) (seen : List String) (entry rest : Result (Unit {0}))
    → (if str_eq eid ""
        then err value_error
        else if contains eid seen
        then err value_error
        else entry >=> λ _. rest)
      ≡ ok tt
    → (eid ≢ "") × (contains eid seen ≡ false) × (entry ≡ ok tt) × (rest ≡ ok tt)
passed eid seen entry rest h = elim (Bool-cases (str_eq eid "")) [
  | inl empty ↦ ground arith
  | inr filled ↦ elim (Bool-cases (contains eid seen)) [
    | inl old ↦ ground arith
    | inr new ↦
        let (a, valid, later) = bind-ok entry (λ _. rest) tt (ground arith) in
        ((ground (arith, eq_iff eid "")), new, valid, later)
  ]
]

module _ (fromisoformat : String → Option Instant) where
  -- The datetime that a start time stands for.
  abbrev pub Reads : StartTime → Instant → Type 0
  Reads (moment t) t' = t ≡ t'
  Reads (text s) t' = fromisoformat s ≡ some t'

  -- An entry with a start time in a timezone, one of the two directions, and one of the three
  -- schedule relationships, or no key for it.
  pub record IsEntry (e : Entry) : Type 0 where
    pub start : StartTime
    pub instant : Instant
    pub starts : e.start_time ≡ some start
    pub reads : Reads start instant
    pub aware : instant.aware ≡ true
    pub direction : (e.direction_id ≡ some (pos 0)) ⊎ (e.direction_id ≡ some (pos 1))
    pub relationship :
        (e.schedule_relationship ≡ none)
        ⊎ (e.schedule_relationship ≡ some (some "SCHEDULED"))
        ⊎ (e.schedule_relationship ≡ some (some "ADDED"))
        ⊎ (e.schedule_relationship ≡ some (some "UNSCHEDULED"))

  is_direction-cases :
      (d : Option ℤ) → is_direction d ≡ true → (d ≡ some (pos 0)) ⊎ (d ≡ some (pos 1))
  unfolding is_direction
  is_direction-cases (some (pos zero)) h = inl refl
  is_direction-cases (some (pos (suc zero))) h = inr refl
  is_direction-cases (some (pos (suc (suc n)))) h = cc
  is_direction-cases (some (negsuc n)) h = cc
  is_direction-cases none h = cc

  pub parse_dt-Reads :
      (s : StartTime) (t : Instant) → Reads s t → t.aware ≡ true → parse_dt fromisoformat s ≡ ok t
  unfolding parse_dt with_zone
  parse_dt-Reads (moment t) t' e aware = ground arith
  parse_dt-Reads (text s) t e aware = ground arith

  Reads-parse_dt :
      (s : StartTime) (t : Instant) → parse_dt fromisoformat s ≡ ok t → Reads s t × (t.aware ≡ true)
  unfolding parse_dt with_zone
  Reads-parse_dt (moment t) t' h = ground arith
  Reads-parse_dt (text s) t h = ground arith

  is_relationship-of :
      (rel : Option (Option String))
      → (rel ≡ none)
        ⊎ (rel ≡ some (some "SCHEDULED"))
        ⊎ (rel ≡ some (some "ADDED"))
        ⊎ (rel ≡ some (some "UNSCHEDULED"))
      → is_relationship (Option.get_or rel (some "SCHEDULED")) ≡ true
  unfolding is_relationship contains
  is_relationship-of rel (inl e) = rw e refl
  is_relationship-of rel (inr (inl e)) = rw e refl
  is_relationship-of rel (inr (inr (inl e))) = rw e refl
  is_relationship-of rel (inr (inr (inr e))) = rw e refl

  validate_entry-IsEntry : (e : Entry) → IsEntry e → validate_entry fromisoformat e ≡ ok tt
  unfolding validate_entry is_direction
  validate_entry-IsEntry e v =
      let read = parse_dt-Reads v.start v.instant v.reads v.aware in
      let starts = v.starts in
      let rel = is_relationship-of e.schedule_relationship v.relationship in
      ground (arith, v.direction)

  is_relationship-cases :
      (rel : Option (Option String))
      → is_relationship (Option.get_or rel (some "SCHEDULED")) ≡ true
      → (rel ≡ none)
        ⊎ (rel ≡ some (some "SCHEDULED"))
        ⊎ (rel ≡ some (some "ADDED"))
        ⊎ (rel ≡ some (some "UNSCHEDULED"))
  unfolding is_relationship contains
  is_relationship-cases none h = inl refl
  is_relationship-cases (some none) h = cc
  is_relationship-cases (some (some rel)) h =
      ground (arith, eq_iff "SCHEDULED" rel, eq_iff "ADDED" rel, eq_iff "UNSCHEDULED" rel)

  -- The two tests of an entry besides its start time.
  validate_entry-tests :
      (e : Entry)
      → (if is_direction e.direction_id
          then (if is_relationship (relationship_of e) then ok tt else err value_error)
          else err value_error)
        ≡ ok (tt {0})
      → (is_direction e.direction_id ≡ true) × (is_relationship (relationship_of e) ≡ true)
  validate_entry-tests e h = elim (Bool-cases (is_direction e.direction_id)) [
    | inr n ↦ ground arith
    | inl d ↦ elim (Bool-cases (is_relationship (relationship_of e))) [
      | inl r ↦ (d, r)
      | inr n ↦ ground arith
    ]
  ]

  IsEntry-validate_entry : (e : Entry) → validate_entry fromisoformat e ≡ ok tt → IsEntry e
  unfolding validate_entry
  IsEntry-validate_entry e h =
      let (start, starts, h1) = bind-ok (required e.start_time) _ tt h in
      let (instant, parsed, h2) = bind-ok (parse_dt fromisoformat start) _ tt h1 in
      let (reads, aware) = Reads-parse_dt start instant parsed in
      let (d, r) = validate_entry-tests e h2 in
      record {
        start = start;
        instant = instant;
        starts = required-ok e.start_time start starts;
        reads = reads;
        aware = aware;
        direction = is_direction-cases e.direction_id d;
        relationship = is_relationship-cases e.schedule_relationship r;
      }

  -- The runs of a document that may be loaded: they have ids, none empty and no two the same, and
  -- each run is a valid entry.
  pub record IsSchedule (runs : List Entry) (ids : List String) : Type 0 where
    pub named : map (λ e. e.id) runs ≡ map some ids
    pub nonempty : All (λ i. i ≢ "") ids
    pub distinct : IsDistinct ids
    pub valid : All IsEntry runs

  validate_runs-IsSchedule :
      (seen : List String) (runs : List Entry) (ids : List String)
      → IsSchedule runs ids
      → All (λ i. contains i seen ≡ false) ids
      → validate_runs fromisoformat seen runs ≡ ok tt
  unfolding validate_runs
  validate_runs-IsSchedule seen [] ids v new = refl
  validate_runs-IsSchedule seen (e ∷ runs) [] v new = cc
  validate_runs-IsSchedule seen (e ∷ runs) (i ∷ ids) v new =
      let named = v.named in
      let head : e.id ≡ some i = cc in
      let tail : map (λ e'. e'.id) runs ≡ map some ids = cc in
      let rest =
        validate_runs-IsSchedule (i ∷ seen) runs ids
          (record {
            named = tail;
            nonempty = v.nonempty.1;
            distinct = v.distinct.1;
            valid = v.valid.1;
          })
          (cons_of_new i seen ids new.1 v.distinct.0) in
      let entry = validate_entry-IsEntry e v.valid.0 in
      rw head (ground (arith, eq_iff i "", entry, rest, new.0, v.nonempty.0))

  IsSchedule-validate_runs :
      (seen : List String) (runs : List Entry)
      → validate_runs fromisoformat seen runs ≡ ok tt
      → (ids : List String) × IsSchedule runs ids × All (λ i. contains i seen ≡ false) ids
  unfolding validate_runs
  IsSchedule-validate_runs seen [] h =
      ([], record { named = refl; nonempty = tt; distinct = tt; valid = tt }, tt)
  IsSchedule-validate_runs seen (e ∷ runs) h = elim (Option-cases e.id) [
    | inl missing ↦ cc
    | inr (eid, named) ↦
        let h' : (if str_eq eid ""
              then err value_error
              else if contains eid seen
              then err value_error
              else validate_entry fromisoformat e >=> λ _.
                  validate_runs fromisoformat (eid ∷ seen) runs)
            ≡ ok tt =
          cc in
        let (filled, fresh, valid, rest) = passed eid seen _ _ h' in
        let (ids, v, new) = IsSchedule-validate_runs (eid ∷ seen) runs rest in
        let (new', other) = new_of_cons eid seen ids new in
        (
          eid ∷ ids,
          record {
            named = cc;
            nonempty = (filled, v.nonempty);
            distinct = (other, v.distinct);
            valid = (IsEntry-validate_entry e valid, v.valid);
          },
          (fresh, new'),
        )
  ]

  all_new : (ids : List String) → All (λ i. contains i [] ≡ false) ids
  unfolding contains
  all_new [] = tt
  all_new (i ∷ ids) = (refl, all_new ids)

  -- The runs of a document are accepted exactly when each has an id, no id is empty and no two
  -- are the same, and each run is a valid entry.
  pub validate_runs_iff :
      (runs : List Entry)
      → (validate_runs fromisoformat [] runs ≡ ok tt) ↔ ((ids : List String) × IsSchedule runs ids)
  validate_runs_iff runs = (
    (λ h. let (ids, v, new) = IsSchedule-validate_runs [] runs h in (ids, v)),
    (λ v. validate_runs-IsSchedule [] runs v.0 v.1 (all_new v.0)),
  )
