-- ===== src/Scheduler/Statuses.antt =====
-- The statuses of simulator_app/services/scheduler.py, as the operations leave them.
use databus_sim.Prelude.{
  String, ◌≡◌, refl, ◌∙◌, Option, List, [], ◌∷◌, arith, eq_iff, str_eq, inl, inr, Bool-cases,
  Option-cases, if◌then◌else◌,
}
use databus_sim.Dict.{Dict, get, put, get-put}
use databus_sim.Effect.{Result, ok, err, Result-cases}
use databus_sim.Scheduler.{
  Status, pending, Entry, Instant, Schedule, Document, status_of, load, add_statuses, validate_runs,
  read_defaults,
}

pub status_of-put :
    (d : Dict Status) (k j : String) (v : Status)
    → status_of (put d k v) j ≡ (if str_eq k j then v else status_of d j)
status_of-put d k j v = elim (Bool-cases (str_eq k j)) [
  | inl same ↦ ground (arith, get-put d k j v)
  | inr other ↦ ground (arith, get-put d k j v)
]

-- A load changes the status of no entry: what it adds is what counts as pending already.
pub add_statuses-same :
    (es : List Entry) (d : Dict Status) (j : String)
    → status_of (add_statuses es d) j ≡ status_of d j
unfolding add_statuses
add_statuses-same [] d j = refl
add_statuses-same (e ∷ es) d j = elim (Option-cases e.id) [
  | inl missing ↦ rw missing (add_statuses-same es d j)
  | inr (eid, named) ↦ elim (Option-cases (get d eid)) [
    | inr (status, old) ↦ rw (named, old) (add_statuses-same es d j)
    | inl new ↦
        rw (named, new)
          (add_statuses-same es (put d eid pending) j
            ∙ ground (arith, status_of-put d eid j pending, eq_iff eid j))
  ]
]

module _ (fromisoformat : String → Option Instant) where
  pub load-statuses :
      (document : Result Document) (s : Schedule) (j : String)
      → status_of (load fromisoformat document s).1.statuses j ≡ status_of s.statuses j
  unfolding load
  load-statuses (err e) s j = refl
  load-statuses (ok document) s j = elim (Result-cases (read_defaults document.defaults)) [
    | inr (e, null) ↦ rw (null, load)
    | inl (defaults, given) ↦ elim (Result-cases (validate_runs fromisoformat [] document.runs)) [
      | inl (a, valid) ↦ rw (given, load, valid) (add_statuses-same document.runs s.statuses j)
      | inr (e, invalid) ↦ rw (given, load, invalid)
    ]
  ]

  pub load-run_ids :
      (document : Result Document) (s : Schedule)
      → (load fromisoformat document s).1.run_ids ≡ s.run_ids
  unfolding load
  load-run_ids (err e) s = refl
  load-run_ids (ok document) s = elim (Result-cases (read_defaults document.defaults)) [
    | inr (e, null) ↦ rw (null, load)
    | inl (defaults, given) ↦ elim (Result-cases (validate_runs fromisoformat [] document.runs)) [
      | inl (a, valid) ↦ rw (given, load, valid)
      | inr (e, invalid) ↦ rw (given, load, invalid)
    ]
  ]
