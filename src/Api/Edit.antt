-- ===== src/Api/Edit.antt =====
-- The schedule through simulator_app/api/views.py: what a PUT stores and a GET shows.
use databus_sim.Prelude.{
  ℕ, String, ◌≡◌, ◌≢◌, refl, sym, ap, ◌⊎◌, inl, inr, Option, none, some, List, [], ◌∷◌, map, arith,
  Option-cases,
}
use databus_sim.Prelude.Int.{ℤ, pos}
use databus_sim.Dict.{get}
use databus_sim.Effect.{Error, Result, ok, err, Result-cases}
use databus_sim.Scheduler
use databus_sim.Scheduler.{
  Entry, RawDefaults, Document, Schedule, Defaults, Instant, load, write, snapshot, row_of, rows_of,
  status_of, validate_runs, default_of, read_defaults, add_statuses,
}
use databus_sim.Scheduler.Validation.{validate_runs_iff}
use databus_sim.Api.{
  Service, succeeded, refused, validated, schedule_view_get, schedule_view_put, store, reload,
}

-- A schedule whose entries have ids is shown entry by entry.
rows_of-entries :
    (s : Schedule) (es : List Entry) (ids : List String)
    → map (λ e. e.id) es ≡ map some ids
    → (rows : List Scheduler.Row) × (rows_of s es ≡ ok rows) × (map (λ r. r.entry) rows ≡ es)
unfolding rows_of row_of
rows_of-entries s [] ids h = ([], refl, refl)
rows_of-entries s (e ∷ es) [] h = cc
rows_of-entries s (e ∷ es) (i ∷ ids) h =
    let head : e.id ≡ some i = cc in
    let tail : map (λ e'. e'.id) es ≡ map some ids = cc in
    let (rows, shown, same) = rows_of-entries s es ids tail in
    let row : Scheduler.Row = record {
      entry = e;
      status = status_of s.statuses i;
      bound_run_id = get s.run_ids i;
    } in
    (row ∷ rows, rw (head, shown), ap (λ xs. e ∷ xs) same)

validated-some :
    (fields : Option Document) (d : Document) → validated fields ≡ some d → fields ≡ some d
unfolding validated
validated-some none d h = cc
validated-some (some c) d h = ground arith

-- A default of the document is null.
abbrev pub HasNull : RawDefaults → Type 0
HasNull raw =
    (raw.pre_run_idle_s ≡ some none)
    ⊎ (raw.post_run_idle_s ≡ some none)
    ⊎ (raw.auto_confirm_delay_s ≡ some none)

default_of-null :
    (raw : Option (Option ℤ)) (default : ℤ)
    → ((n : ℤ) × (default_of raw default ≡ ok n)) ⊎ (raw ≡ some none)
unfolding default_of
default_of-null none default = inl (default, refl)
default_of-null (some none) default = inr refl
default_of-null (some (some n)) default = inl (n, refl)

read_defaults-cases :
    (raw : RawDefaults)
    → ((defaults : Defaults) × (read_defaults raw ≡ ok defaults))
      ⊎ ((e : Error) × (read_defaults raw ≡ err e) × HasNull raw)
unfolding read_defaults
read_defaults-cases raw = elim (Result-cases (read_defaults raw)) [
  | inl given ↦ inl given
  | inr (e, null) ↦ inr (
    e,
    null,
    elim (default_of-null raw.pre_run_idle_s (pos 30)) [
      | inr pre ↦ inl pre
      | inl (_, pre) ↦ elim (default_of-null raw.post_run_idle_s (pos 30)) [
        | inr post ↦ inr (inl post)
        | inl (_, post) ↦ elim (default_of-null raw.auto_confirm_delay_s (pos 5)) [
          | inr confirm ↦ inr (inr confirm)
          | inl (_, confirm) ↦ (let r = rw (pre, post, confirm) at null in cc)
        ]
      ]
    ],
  )
]

-- The schedule after a document has been stored.
abbrev stored : Document → Defaults → Schedule → Schedule
stored d defaults schedule = record schedule {
  entries = d.runs;
  statuses = add_statuses d.runs schedule.statuses;
  defaults = defaults;
}

module _ (fromisoformat : String → Option Instant) where
  load-stored :
      (d : Document) (defaults : Defaults) (schedule : Schedule)
      → read_defaults d.defaults ≡ ok defaults
      → validate_runs fromisoformat [] d.runs ≡ ok tt
      → load fromisoformat (ok d) schedule ≡ (ok tt, stored d defaults schedule)
  unfolding load
  load-stored d defaults schedule given valid = rw (given, load, valid)

  load-null :
      (d : Document) (schedule : Schedule) (e : Error)
      → read_defaults d.defaults ≡ err e
      → load fromisoformat (ok d) schedule ≡ (err e, schedule)
  unfolding load
  load-null d schedule e null = rw (null, load)

  write-accepted :
      (safe_dump : Document → String) (d : Document) (file : String)
      → validate_runs fromisoformat [] d.runs ≡ ok tt
      → write fromisoformat safe_dump d file ≡ (ok tt, safe_dump d)
  unfolding write
  write-accepted safe_dump d file valid = rw (valid, write)

  write-rejected :
      (safe_dump : Document → String) (d : Document) (file : String) (e : Error)
      → validate_runs fromisoformat [] d.runs ≡ err e
      → write fromisoformat safe_dump d file ≡ (err e, file)
  unfolding write
  write-rejected safe_dump d file e invalid = rw (invalid, write)

module _ {F : Type 0} (fromisoformat : String → Option Instant) (safe_dump : Document → String)
    (safe_load : String → Result Document) (d : Document) (schedule : Schedule)
    (s : Service F) where
  reload-stored :
      (defaults : Defaults) (file : String)
      → read_defaults d.defaults ≡ ok defaults
      → safe_load file ≡ ok d
      → validate_runs fromisoformat [] d.runs ≡ ok tt
      → reload fromisoformat safe_dump safe_load schedule (record s { file = file })
        ≡ (succeeded tt, record s { file = file; scheduler = some (stored d defaults schedule) })
  unfolding reload
  reload-stored defaults file given read valid =
      let loaded = load-stored fromisoformat d defaults schedule given valid in
      rw (read, loaded, reload, read, loaded)

  store-stored :
      (defaults : Defaults)
      → read_defaults d.defaults ≡ ok defaults
      → safe_load (safe_dump d) ≡ ok d
      → validate_runs fromisoformat [] d.runs ≡ ok tt
      → store fromisoformat safe_dump safe_load d schedule s ≡ (
        succeeded tt,
        record s { file = safe_dump d; scheduler = some (stored d defaults schedule) },
      )
  unfolding store
  store-stored defaults given read valid =
      let written = write-accepted fromisoformat safe_dump d s.file valid in
      let again = reload-stored defaults (safe_dump d) given read valid in
      rw (written, store, written) again

  reload-null :
      (e : Error) (file : String)
      → read_defaults d.defaults ≡ err e
      → safe_load file ≡ ok d
      → reload fromisoformat safe_dump safe_load schedule (record s { file = file })
        ≡ (refused 400, record s { file = file; scheduler = some schedule })
  unfolding reload
  reload-null e file null read =
      let loaded = load-null fromisoformat d schedule e null in
      rw (read, loaded, reload, read, loaded)

  store-null :
      (e : Error)
      → read_defaults d.defaults ≡ err e
      → safe_load (safe_dump d) ≡ ok d
      → validate_runs fromisoformat [] d.runs ≡ ok tt
      → store fromisoformat safe_dump safe_load d schedule s
        ≡ (refused 400, record s { file = safe_dump d; scheduler = some schedule })
  unfolding store
  store-null e null read valid =
      let written = write-accepted fromisoformat safe_dump d s.file valid in
      let again = reload-null e (safe_dump d) null read in rw (written, store, written) again

  store-refused :
      (e : Error)
      → validate_runs fromisoformat [] d.runs ≡ err e
      → store fromisoformat safe_dump safe_load d schedule s ≡ (refused 400, s)
  unfolding store
  store-refused e invalid =
      let written = write-rejected fromisoformat safe_dump d s.file e invalid in
      rw (written, store, written)

  put-store :
      (fields : Option Document)
      → validated fields ≡ some d
      → s.scheduler ≡ some schedule
      → schedule_view_put fromisoformat safe_dump safe_load fields s
        ≡ store fromisoformat safe_dump safe_load d schedule s
  unfolding schedule_view_put
  put-store fields accepted there = ground arith

module _ {F : Type 0} (fromisoformat : String → Option Instant) (safe_dump : Document → String)
    (safe_load : String → Result Document) where
  -- What a GET shows of a document that has been stored.
  pub record IsShown (d : Document) (now : ℕ) (s : Service F) : Type 0 where
    pub rows : List Scheduler.Row
    pub defaults : Defaults
    pub given : read_defaults d.defaults ≡ ok defaults
    pub shown : schedule_view_get now s ≡ ok (succeeded (some (defaults, rows, now)))
    pub entries : map (λ r. r.entry) rows ≡ d.runs

  stored-IsShown :
      (d : Document) (defaults : Defaults) (now : ℕ) (s : Service F) (schedule : Schedule)
      → read_defaults d.defaults ≡ ok defaults
      → validate_runs fromisoformat [] d.runs ≡ ok tt
      → IsShown d now
          (record s { file = safe_dump d; scheduler = some (stored d defaults schedule) })
  unfolding schedule_view_get snapshot
  stored-IsShown d defaults now s schedule given valid =
      let (ids, listed) = (validate_runs_iff fromisoformat d.runs).0 valid in
      let (rows, shown, same) =
        rows_of-entries (stored d defaults schedule) d.runs ids listed.named in
      record { rows = rows; defaults = defaults; given = given; shown = rw (shown); entries = same }

  -- When YAML reads back what it dumps: a PUT of a document either answers with another status
  -- than 200 and changes nothing, neither the file nor the schedule, or it answers with 200, and
  -- then a GET shows the defaults of the document and exactly its runs, in order; or, where a
  -- default of the document is null, it may also answer with 400 and replace the file alone.
  pub schedule_view_put-get :
      (fields : Option Document) (s : Service F) (now : ℕ)
      → ((d : Document) → fields ≡ some d → safe_load (safe_dump d) ≡ ok d)
      → (let (answer, s') = schedule_view_put fromisoformat safe_dump safe_load fields s in
          ((answer.status ≢ 200) × (s' ≡ s))
          ⊎ ((answer.status ≡ 200)
              × ((d : Document) × (fields ≡ some d) × (s'.file ≡ safe_dump d) × IsShown d now s'))
          ⊎ ((answer.status ≡ 400)
              × ((d : Document) × (fields ≡ some d)
                  × HasNull d.defaults
                  × (s' ≡ record s { file = safe_dump d }))))
  unfolding schedule_view_put
  schedule_view_put-get fields s now read = elim (Option-cases (validated fields)) [
    | inl invalid ↦ rw (invalid, schedule_view_put) (inl (omega arith, refl))
    | inr (d, accepted) ↦ elim (Option-cases s.scheduler) [
      | inl missing ↦
          let none_there : schedule_view_put fromisoformat safe_dump safe_load fields s
              ≡ (refused 503, s) =
            ground arith in
          rw none_there (inl (omega arith, refl))
      | inr (schedule, there) ↦
          let put =
            put-store fromisoformat safe_dump safe_load d schedule s fields accepted there in
          elim (Result-cases (validate_runs fromisoformat [] d.runs)) [
            | inr (e, invalid) ↦
                let kept = store-refused fromisoformat safe_dump safe_load d schedule s e invalid in
                rw (put, kept) (inl (omega arith, refl))
            | inl (a, valid) ↦
                let same = validated-some fields d accepted in
                elim (read_defaults-cases d.defaults) [
                  | inl (defaults, given) ↦
                      let new =
                        store-stored fromisoformat safe_dump safe_load d schedule s defaults given
                          (read d same) valid in
                      let shows = stored-IsShown d defaults now s schedule given valid in
                      rw (put, new) (inr (inl (refl, (d, same, refl, shows))))
                  | inr (e, null, has_null) ↦
                      let new =
                        store-null fromisoformat safe_dump safe_load d schedule s e null
                          (read d same) valid in
                      let unchanged =
                        ap (λ o. record s { file = safe_dump d; scheduler = o }) (sym there) in
                      rw (put, new) (inr (inr (refl, (d, same, has_null, unchanged))))
                ]
          ]
    ]
  ]
