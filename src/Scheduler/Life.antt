-- ===== src/Scheduler/Life.antt =====
-- The scheduler of simulator_app/services/scheduler.py over its whole life.
use databus_sim.Prelude.{
  ℕ, String, ◌≡◌, true, Option, List, [], ◌∷◌, All, All-of, inl, inr, Bool-cases, Option-cases,
}
use databus_sim.Prelude.Int.{ℤ}
use databus_sim.Effect.{Result, Result-cases}
use databus_sim.RunBinder.{Binder}
use databus_sim.Scheduler.{Entry, Instant, Document, status_of, load, new_schedule}
use databus_sim.Scheduler.Dispatch.{
  World, Answers, is_pending, has_come, dispatch_entry, visit, visit_all, run_round,
}

-- What the scheduler goes through: the file is read again, or `run_loop` makes a round.
pub data Event : Type 0 where
  loaded : Result Document → Event
  round : Answers → (now : ℤ) → (stamp : ℕ) → Event

module _ {F : Type 0} where
  -- The scheduler at its start.
  abbrev pub new_world : Binder F → World F
  new_world binder = record {
    schedule = new_schedule;
    binder = binder;
    posts = [];
    published = [];
    confirms = [];
    hooks = [];
  }

module _ {F : Type 0} (fromisoformat : String → Option Instant) where
  abbrev loaded_with : Result Document → World F → World F
  loaded_with document w = record w { schedule = (load fromisoformat document w.schedule).1 }

  unfoldable pub react : Event → World F → World F
  react (loaded document) w = loaded_with document w
  react (round answers now stamp) w = (run_round fromisoformat answers now stamp w).1

  unfoldable pub react_all : List Event → World F → World F
  react_all [] w = w
  react_all (v ∷ vs) w = react_all vs (react v w)

module _ {F : Type 0} (fromisoformat : String → Option Instant) (P : World F → Type 0)
    (Q : Entry → Type 0)
    (dispatch-keeps : (answers : Answers) (now : ℤ) (stamp : ℕ) (eid : String) (e : Entry)
        (w : World F)
      → is_pending (status_of w.schedule.statuses eid) ≡ true
      → Q e
      → P w
      → P (dispatch_entry answers now stamp eid e w).1) where
  visit-keeps :
      (answers : Answers) (now : ℤ) (stamp : ℕ) (pre_idle_s : ℤ) (e : Entry) (w : World F)
      → Q e
      → P w
      → P (visit fromisoformat answers now stamp pre_idle_s e w).1
  unfolding visit
  visit-keeps answers now stamp pre_idle_s e w q p = elim (Option-cases e.id) [
    | inl missing ↦ rw (missing, visit) p
    | inr (eid, named) ↦ elim (Bool-cases (is_pending (status_of w.schedule.statuses eid))) [
      | inr spent ↦ rw (named, spent, visit) p
      | inl free ↦ elim (Bool-cases (has_come fromisoformat now pre_idle_s e)) [
        | inr early ↦ rw (named, free, early, visit) p
        | inl come ↦
            rw (named, free, come, visit) (dispatch-keeps answers now stamp eid e w free q p)
      ]
    ]
  ]

  pub visit_all-keeps :
      (answers : Answers) (now : ℤ) (stamp : ℕ) (pre_idle_s : ℤ) (es : List Entry) (w : World F)
      → All Q es
      → P w
      → P (visit_all fromisoformat answers now stamp pre_idle_s es w).1
  unfolding visit_all
  visit_all-keeps answers now stamp pre_idle_s [] w q p = p
  visit_all-keeps answers now stamp pre_idle_s (e ∷ es) w (q, qs) p =
      let here = visit-keeps answers now stamp pre_idle_s e w q p in
      let rest = visit_all-keeps answers now stamp pre_idle_s es _ qs here in
      elim (Result-cases (visit fromisoformat answers now stamp pre_idle_s e w).0) [
        | inl (a, returned) ↦ rw (returned, visit_all) rest
        | inr (error, failed) ↦ rw (failed, visit_all) here
      ]

module _ {F : Type 0} (fromisoformat : String → Option Instant) (P : World F → Type 0)
    (dispatch-keeps : (answers : Answers) (now : ℤ) (stamp : ℕ) (eid : String) (e : Entry)
        (w : World F)
      → is_pending (status_of w.schedule.statuses eid) ≡ true
      → P w
      → P (dispatch_entry answers now stamp eid e w).1)
    (load-keeps : (document : Result Document) (w : World F)
      → P w
      → P (loaded_with fromisoformat document w)) where
  react-keeps : (v : Event) (w : World F) → P w → P (react fromisoformat v w)
  unfolding react run_round
  react-keeps (loaded document) w p = load-keeps document w p
  react-keeps (round answers now stamp) w p =
      visit_all-keeps fromisoformat P (λ e. Unit {0})
        (λ answers now stamp eid e w free q. dispatch-keeps answers now stamp eid e w free) answers
        now stamp _ w.schedule.entries w (All-of w.schedule.entries (λ e. tt)) p

  -- What every dispatch of a pending entry and every load keep, the scheduler keeps.
  pub react_all-keeps : (vs : List Event) (w : World F) → P w → P (react_all fromisoformat vs w)
  unfolding react_all
  react_all-keeps [] w p = p
  react_all-keeps (v ∷ vs) w p = react_all-keeps vs (react fromisoformat v w) (react-keeps v w p)
