-- ===== src/Scheduler/Reload.antt =====
-- What simulator_app/services/scheduler.py reads back from the file that it has written. YAML is a
-- parameter, with the law that what it has dumped a document to is loaded as that document.
use databus_sim.Prelude.{String, ◌≡◌, ◌≢◌, refl, ◌⊎◌, inl, inr, Option, []}
use databus_sim.Scheduler.Statuses.{add_statuses-same}
use databus_sim.Effect.{Result, ok, Result-cases}
use databus_sim.Scheduler.{
  Instant, Document, Schedule, Defaults, status_of, validate_runs, read_defaults, load, write,
}

-- A schedule that has taken over a document, from what it was before.
pub record IsReloaded (d : Document) (s s' : Schedule) : Type 0 where
  pub entries : s'.entries ≡ d.runs
  pub defaults : read_defaults d.defaults ≡ ok s'.defaults
  pub statuses : (j : String) → status_of s'.statuses j ≡ status_of s.statuses j
  pub run_ids : s'.run_ids ≡ s.run_ids

module _ (fromisoformat : String → Option Instant) (safe_dump : Document → String)
    (safe_load : String → Result Document) where
  -- For a document without a null default that YAML reads back from its dump: a write either
  -- raises, and then the file is what it was, or it returns, and then a load of the file returns
  -- too: its entries and defaults are the document's, and each entry keeps its status and its
  -- run.
  pub write-load :
      (d : Document) (defaults : Defaults) (file : String) (s : Schedule)
      → read_defaults d.defaults ≡ ok defaults
      → safe_load (safe_dump d) ≡ ok d
      → (let (written, file') = write fromisoformat safe_dump d file in
          let (loaded, s') = load fromisoformat (safe_load file') s in
          ((written ≢ ok tt) × (file' ≡ file))
          ⊎ ((written ≡ ok tt) × (loaded ≡ ok tt) × IsReloaded d s s'))
  unfolding write load
  write-load d defaults file s given load-dump =
      elim (Result-cases (validate_runs fromisoformat [] d.runs)) [
        | inl (a, valid) ↦
            rw (valid, write, load-dump, given, load, valid)
              (inr (
                refl,
                refl,
                record {
                  entries = refl;
                  defaults = given;
                  statuses = add_statuses-same d.runs s.statuses;
                  run_ids = refl;
                },
              ))
        | inr (e, invalid) ↦ rw (invalid, write) (inl ((λ h. cc), refl))
      ]

module _ (fromisoformat : String → Option Instant) where
  -- When a load of a document without a null default raises, the entries, the statuses and the
  -- runs are what they were, but the defaults are those of the rejected document.
  pub load-rejected :
      (d : Document) (defaults : Defaults) (s : Schedule)
      → read_defaults d.defaults ≡ ok defaults
      → (load fromisoformat (ok d) s).0 ≢ ok tt
      → (load fromisoformat (ok d) s).1 ≡ record s { defaults = defaults }
  unfolding load
  load-rejected d defaults s given h = elim (Result-cases (validate_runs fromisoformat [] d.runs)) [
    | inl (a, valid) ↦ absurd (h (rw (given, load, valid)))
    | inr (e, invalid) ↦ rw (given, load, invalid)
  ]
