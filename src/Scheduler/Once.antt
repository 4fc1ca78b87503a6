-- ===== src/Scheduler/Once.antt =====
-- How often the runner of simulator_app/services/scheduler.py asks for a run.
use databus_sim.Prelude.{
  contains, ℕ, String, ◌≡◌, ◌≢◌, refl, ap, ◌∙◌, true, false, Option, List, [], ◌∷◌, map, arith,
  eq_iff, str_eq, ◌⊎◌, inl, inr, Bool-cases,
}
use databus_sim.Prelude.Int.{ℤ}
use databus_sim.Dict.{put}
use databus_sim.Effect.{Result-cases}
use databus_sim.RunBinder.{Binder}
use databus_sim.Databus.{Outcome, done, databus_error, raised, CreateRunResponse}
use databus_sim.Scheduler
use databus_sim.Scheduler.{
  Status, pending, requested, initialized, Entry, Instant, Schedule, Document, status_of, load,
  add_statuses, validate_runs, new_schedule,
}
use databus_sim.Scheduler.Statuses.{status_of-put, load-statuses}
use databus_sim.Scheduler.Life.{Event, react_all, new_world, react_all-keeps}
use databus_sim.Scheduler.Dispatch.{
  World, Answers, CreateRunRequest, set_status, settle, follow, add_hook, dispatch_entry,
  request_of, is_pending, posted,
}

-- No id twice.
abbrev pub IsDistinct : List String → Type 0
IsDistinct [] = Unit
IsDistinct (x ∷ xs) = (contains x xs ≡ false) × IsDistinct xs

module _ {F : Type 0} where
  abbrev pub posted_ids : World F → List String
  posted_ids w = map (λ p. p.entry_id) w.posts

  -- An entry that has been posted is not pending any more, and none has been posted twice.
  pub record IsOnce (w : World F) : Type 0 where
    pub spent :
        (j : String)
        → contains j (posted_ids w) ≡ true
        → is_pending (status_of w.schedule.statuses j) ≡ false
    pub distinct : IsDistinct (posted_ids w)

  -- The effect of a dispatch of `eid` on the statuses and on what has been posted.
  pub record Dispatched (eid : String) (w w' : World F) : Type 0 where
    pub others :
        (j : String) → eid ≢ j → status_of w'.schedule.statuses j ≡ status_of w.schedule.statuses j
    pub here : is_pending (status_of w'.schedule.statuses eid) ≡ false
    pub posts : (posted_ids w' ≡ posted_ids w) ⊎ (posted_ids w' ≡ eid ∷ posted_ids w)

  set_status-Dispatched :
      (eid : String) (status : Status) (stamp : ℕ) (w w' : World F)
      → is_pending status ≡ false
      → ((j : String)
          → eid ≢ j
          → status_of w'.schedule.statuses j ≡ status_of w.schedule.statuses j)
      → (posted_ids w' ≡ posted_ids w) ⊎ (posted_ids w' ≡ eid ∷ posted_ids w)
      → Dispatched eid w (set_status eid status stamp w')
  unfolding set_status
  set_status-Dispatched eid status stamp w w' h others posts = record {
    others = λ j ne.
        ground (arith, status_of-put w'.schedule.statuses eid j status, eq_iff eid j, others j ne);
    here = ground (arith, status_of-put w'.schedule.statuses eid eid status, eq_iff eid eid);
    posts = posts;
  }

  follow-statuses :
      (eid : String) (e : Entry) (request : CreateRunRequest) (run_id : String)
      (terminal : Outcome (Option String)) (stamp : ℕ) (w : World F)
      → ((follow eid e request run_id terminal stamp w).schedule.statuses
          ≡ put w.schedule.statuses eid initialized)
        × ((follow eid e request run_id terminal stamp w).posts ≡ w.posts)
  unfolding follow add_hook
  follow-statuses eid e request run_id terminal stamp w = ground arith

  settle-Dispatched :
      (eid : String) (e : Entry) (request : CreateRunRequest) (created : Outcome CreateRunResponse)
      (terminal : Outcome (Option String)) (stamp : ℕ) (w w' : World F)
      → Dispatched eid w w'
      → Dispatched eid w (settle eid e request created terminal stamp w').1
  unfolding settle
  settle-Dispatched eid e request (done response) terminal stamp w w' d =
      let (statuses, posts) = follow-statuses eid e request response.run_id terminal stamp w' in
      record {
        others = λ j ne. rw statuses (
            ground (
              arith,
              status_of-put w'.schedule.statuses eid j initialized,
              eq_iff eid j,
              d.others j ne,
            ));
        here = rw statuses (
            ground (arith, status_of-put w'.schedule.statuses eid eid initialized, eq_iff eid eid));
        posts = rw posts d.posts;
      }
  settle-Dispatched eid e request (databus_error status) terminal stamp w w' d =
      set_status-Dispatched eid Scheduler.failed stamp w w' refl d.others d.posts
  settle-Dispatched eid e request raised terminal stamp w w' d = d

  pub dispatch_entry-Dispatched :
      (answers : Answers) (now : ℤ) (stamp : ℕ) (eid : String) (e : Entry) (w : World F)
      → Dispatched eid w (dispatch_entry answers now stamp eid e w).1
  unfolding dispatch_entry set_status
  dispatch_entry-Dispatched answers now stamp eid e w =
      let asked = set_status-Dispatched eid requested stamp w w refl (λ j ne. refl) (inl refl) in
      elim (Result-cases (request_of e)) [
        | inr (error, missing) ↦ rw (missing, dispatch_entry) asked
        | inl (request, complete) ↦
            rw (complete, dispatch_entry)
              (settle-Dispatched eid e request (answers.created request)
                (answers.terminal request.trip_id) stamp w
                (posted eid request now (set_status eid requested stamp w))
                (record { others = asked.others; here = asked.here; posts = inr refl }))
      ]

  Dispatched-IsOnce :
      (eid : String) (w w' : World F)
      → is_pending (status_of w.schedule.statuses eid) ≡ true
      → Dispatched eid w w'
      → IsOnce w
      → IsOnce w'
  unfolding contains
  Dispatched-IsOnce eid w w' open_entry d once =
      let new : contains eid (posted_ids w) ≡ false =
        elim (Bool-cases (contains eid (posted_ids w))) [
          | inl old ↦ let p = once.spent eid old in cc
          | inr no_post ↦ no_post
        ] in
      record {
        spent = λ j found. elim (Bool-cases (str_eq eid j)) [
          | inl same ↦ let e : eid ≡ j = (eq_iff eid j).0 same in rw (← e) d.here
          | inr other ↦
              let ne : eid ≢ j = λ e. ground (arith, eq_iff eid j) in
              elim d.posts [
                | inl same_posts ↦
                    rw (d.others j ne) (once.spent j (let f = found in rw same_posts at f))
                | inr one_more ↦
                    let f = found in
                    let f' = rw one_more at f in rw (d.others j ne) (once.spent j (ground arith))
              ]
        ];
        distinct = elim d.posts [
          | inl same_posts ↦ rw same_posts once.distinct
          | inr one_more ↦ rw one_more (new, once.distinct)
        ];
      }

module _ {F : Type 0} (fromisoformat : String → Option Instant) where
  -- However often the schedule is loaded and whatever the databus answers, the scheduler asks for
  -- a run at most once for each entry id, and an entry for which it has asked is never pending
  -- again.
  pub reachable-IsOnce :
      (vs : List Event) (binder : Binder F) → IsOnce (react_all fromisoformat vs (new_world binder))
  unfolding contains
  reachable-IsOnce vs binder =
      react_all-keeps fromisoformat IsOnce
        (λ answers now stamp eid e w free once.
          Dispatched-IsOnce eid w _ free (dispatch_entry-Dispatched answers now stamp eid e w) once)
        (λ document w once. record {
          spent = λ j found.
              ap is_pending (load-statuses fromisoformat document w.schedule j)
              ∙ once.spent j found;
          distinct = once.distinct;
        })
        vs (new_world binder) (record { spent = λ j found. cc; distinct = tt })
