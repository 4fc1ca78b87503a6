-- ===== src/RunBinder/Refinement.antt =====
-- The lifecycle of runs, as an abstract machine that `_apply_state` implements.
use mathlib.Core.Option
use databus_sim.Prelude.{
  ℕ, String, ◌≡◌, ◌≢◌, refl, ap, subst, ◌∙◌, Bool, true, false, Option, none, some, List, [], ◌∷◌,
  arith, eq_iff, eq_refl, str_eq, inl, inr, Bool-cases, Option-cases, if◌then◌else◌,
}
use databus_sim.Float.{Float}
use databus_sim.Dict.{get}
use databus_sim.Effect.{Result, Exec, ok, err, key_error}
use databus_sim.Fleet.{Vehicle, FleetState, mutate, set_lifecycle_state}
use databus_sim.Fleet.Changes.{mutate-unknown, get-mutate}
use databus_sim.RunBinder.{BoundRun, apply_state, act_on, is_terminal}
use databus_sim.RunBinder.Confirm.{apply_state-confirmed}
use databus_sim.RunBinder.Release.{apply_state-terminal}
use databus_sim.RunBinder.Frame.{apply_state-Same}
use databus_sim.RunBinder.Manned.{apply_state-Returns}

-- What an observer knows of a vehicle: the run it serves, the state of its run, and whether it
-- transmits.
pub record Duty : Type 0 where
  pub run : Option String
  pub state : Option String
  pub on_air : Bool

-- A state that the databus reports of a tracked run.
pub record Report : Type 0 where
  pub binding : BoundRun
  pub state : String
  pub now : ℕ

-- The lifecycle: a confirmed run is served on the air, a run that is over leaves its vehicle free
-- and silent, and any other state is noted.
pub next_duty : Report → Duty → Duty
next_duty r d =
    if str_eq r.state "Confirmed"
    then record { run = some r.binding.run_id; state = some r.state; on_air = true }
    else if is_terminal r.state
    then record { run = none; state = none; on_air = false }
    else record d { state = some r.state }

-- The duties of all vehicles; a vehicle that is not in the fleet has none.
abbrev pub Duties : Type 0
Duties = String → Option Duty

unfoldable pub report : Report → Duties → Duties
report r d vid = if str_eq r.binding.vehicle_id vid then Option.map (next_duty r) (d vid) else d vid

-- A report of a vehicle that is not in the fleet ends the service: none of the later reports
-- counts.
unfoldable pub report_all : List Report → Duties → Bool × Duties
report_all [] d = (true, d)
report_all (r ∷ rs) d = elim (d r.binding.vehicle_id) [
  | none ↦ (false, d)
  | some duty ↦ report_all rs (report r d)
]

module _ {F : Type 0} where
  abbrev pub duty_of : Vehicle F → Duty
  duty_of v = record { run = v.bound_run_id; state = v.lifecycle_state; on_air = v.transmitting }

  unfoldable pub duties : FleetState F → Duties
  duties s vid = Option.map duty_of (get s.by_id vid)

module _ {F : Type 0} ⦃fl : Float F⦄ where
  -- The calls of `_apply_state` in `poll_loop`, one after the other: an exception ends the task,
  -- so no later report is applied.
  unfoldable pub apply_all : List Report → Exec (FleetState F) (Unit {0})
  apply_all [] s = (ok tt, s)
  apply_all (r ∷ rs) s =
      let (x, s') = apply_state r.binding r.state r.now s in
      let rest = apply_all rs s' in elim x [ ok _ ↦ rest | err e ↦ (err e, s') ]

  -- Whether the calls all returned, and what is seen of the vehicles then.
  abbrev pub seen_after : Result (Unit {0}) × FleetState F → Bool × Duties
  seen_after (ok _, s) = (true, duties s)
  seen_after (err e, s) = (false, duties s)

  pub apply_state-unknown :
      (b : BoundRun) (state : String) (now : ℕ) (s : FleetState F)
      → get s.by_id b.vehicle_id ≡ none
      → apply_state b state now s ≡ (err key_error, s)
  unfolding apply_state set_lifecycle_state
  apply_state-unknown b state now s unknown =
      let f : Vehicle F → Vehicle F =
        (λ u. record u { lifecycle_state = some state; last_state_change_at = some now }) in
      let e = mutate-unknown b.vehicle_id f s unknown in rw (e, apply_state)

  -- A state that neither confirms nor ends the run.
  pub apply_state-noted :
      (b : BoundRun) (state : String) (now : ℕ) (s : FleetState F)
      → str_eq state "Confirmed" ≡ false
      → is_terminal state ≡ false
      → (apply_state b state now s).1 ≡ (set_lifecycle_state b.vehicle_id (some state) now s).1
  unfolding apply_state act_on
  apply_state-noted b state now s other live = ground arith

  duties-noted :
      (b : BoundRun) (state : String) (now : ℕ) (s : FleetState F) (v : Vehicle F)
      → get s.by_id b.vehicle_id ≡ some v
      → duties (set_lifecycle_state b.vehicle_id (some state) now s).1 b.vehicle_id
        ≡ some (record (duty_of v) { state = some state })
  unfolding duties set_lifecycle_state
  duties-noted b state now s v known =
      let f : Vehicle F → Vehicle F =
        (λ u. record u { lifecycle_state = some state; last_state_change_at = some now }) in
      let e : get (mutate b.vehicle_id f s).1.by_id b.vehicle_id ≡ some (f v) =
        ground
          (arith, get-mutate b.vehicle_id f s b.vehicle_id, eq_iff b.vehicle_id b.vehicle_id) in
      rw e

  -- One report, for the vehicle that it concerns.
  duties-here :
      (r : Report) (s : FleetState F)
      → duties (apply_state r.binding r.state r.now s).1 r.binding.vehicle_id
        ≡ Option.map (next_duty r) (duties s r.binding.vehicle_id)
  unfolding next_duty duties
  duties-here r s = elim (Option-cases (get s.by_id r.binding.vehicle_id)) [
    | inl unknown ↦ let e = apply_state-unknown r.binding r.state r.now s unknown in rw (e, unknown)
    | inr (v, known) ↦ elim (Bool-cases (str_eq r.state "Confirmed")) [
      | inl confirmed ↦
          let (s', returns, ran) =
            apply_state-confirmed r.binding r.state r.now v s
              ((eq_iff r.state "Confirmed").0 confirmed) known in
          let here = ran.here in rw (returns, here, known, confirmed)
      | inr other ↦ elim (Bool-cases (is_terminal r.state)) [
        | inl over ↦
            let (s', returns, ran) = apply_state-terminal r.binding r.state r.now v s over known in
            let here = ran.here in rw (returns, here, known, other, over)
        | inr live ↦
            let noted = apply_state-noted r.binding r.state r.now s other live in
            let e = duties-noted r.binding r.state r.now s v known in
            rw (noted, known, other, live) e
      ]
    ]
  ]

  duties-step :
      (r : Report) (s : FleetState F) (vid : String)
      → duties (apply_state r.binding r.state r.now s).1 vid ≡ report r (duties s) vid
  unfolding report
  duties-step r s vid = elim (Bool-cases (str_eq r.binding.vehicle_id vid)) [
    | inl same ↦
        let e = (eq_iff r.binding.vehicle_id vid).0 same in
        subst
          (λ x. duties (apply_state r.binding r.state r.now s).1 x ≡ (
            if str_eq r.binding.vehicle_id x
            then Option.map (next_duty r) (duties s x)
            else duties s x))
          e (rw (eq_refl r.binding.vehicle_id) (duties-here r s))
    | inr other ↦
        let ne : r.binding.vehicle_id ≢ vid =
          (λ e. let t = (eq_iff r.binding.vehicle_id vid).1 e in cc) in
        let kept = (apply_state-Same r.binding r.now vid ne (get s.by_id vid) r.state).at s refl in
        rw other (unfold duties in rw kept)
  ]

  -- Whatever states the databus reports, in any order, as far as `poll_loop` applies them, what
  -- an observer sees of each vehicle of the fleet is what the lifecycle says: a confirmed run is
  -- served on the air, a run that is over leaves its vehicle free and silent, and any other state
  -- is only noted. The calls all return exactly when each vehicle is in the fleet; the first
  -- report of a vehicle that is not changes nothing and ends them, so that no later report
  -- counts.
  pub apply_all-report_all :
      (rs : List Report) (s : FleetState F) → seen_after (apply_all rs s) ≡ report_all rs (duties s)
  unfolding apply_all report_all
  apply_all-report_all [] s = refl
  apply_all-report_all (r ∷ rs) s = elim (Option-cases (get s.by_id r.binding.vehicle_id)) [
    | inl unknown ↦
        let e = apply_state-unknown r.binding r.state r.now s unknown in
        let none_here : duties s r.binding.vehicle_id ≡ none = unfold duties in rw unknown in
        let e0 = ap (λ x. x.0) e in
        let e1 = ap (λ x. x.1) e in rw (e0, apply_all, e1, none_here, report_all)
    | inr (v, known) ↦
        let here : duties s r.binding.vehicle_id ≡ some (duty_of v) = unfold duties in rw known in
        let returned = (apply_state-Returns r.binding r.state r.now).at s (v, known) in
        rw (returned, apply_all, here, report_all)
          (apply_all-report_all rs (apply_state r.binding r.state r.now s).1
            ∙ ap (report_all rs) (λ i x. duties-step r s x i))
  ]
