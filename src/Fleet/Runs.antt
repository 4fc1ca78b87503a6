-- ===== src/Fleet/Runs.antt =====
-- Chains of mutators on one vehicle that the fleet knows.
use databus_sim.Prelude.{
  ℕ, String, ◌≡◌, refl, some, List, [], ◌∷◌, ◌++◌, map, arith, eq_iff, ◌≢◌, All, All-append, ap,
  subst, ◌∙◌,
}
use mathlib.Core.List.{append_assoc}
use databus_sim.Dict.{Dict, get, put, get-put}
use databus_sim.Effect.{Exec, ok, ◌>>◌}
use databus_sim.Fleet.{Vehicle, FleetState, Notice, notify, mutate}
use databus_sim.Fleet.Changes.{mutate-known}

module _ {F : Type 0} where
  -- The calls that one `_notify` makes.
  abbrev pub notices : List ℕ → Dict (Vehicle F) → List (Notice F)
  notices subscribers d = map (λ c. record { callback = c; seen = d }) subscribers

  -- The vehicle `vid`, as the callback finds it, has `P`.
  abbrev pub Shows : String → (Vehicle F → Type 0) → Dict (Vehicle F) → Type 0
  Shows vid P d = (u : Vehicle F) → get d vid ≡ some u → P u

  -- From `s` to `s'` the vehicle `vid` has become `v`, no other vehicle has changed, and callbacks
  -- have been called that all found the vehicle in states of which `P` holds.
  pub record Ran (vid : String) (P : Vehicle F → Type 0) (v : Vehicle F) (s s' : FleetState F)
      : Type 0 where
    pub here : get s'.by_id vid ≡ some v
    pub others : (w : String) → vid ≢ w → get s'.by_id w ≡ get s.by_id w
    pub subscribers : s'.on_change ≡ s.on_change
    pub new_calls : List (Notice F)
    pub calls : s'.calls ≡ s.calls ++ new_calls
    pub seen : All (λ n. Shows vid P n.seen) new_calls

  -- A run of `m` from `s` that returns, with its effect.
  abbrev pub Runs :
      String
      → (Vehicle F → Type 0)
      → Exec (FleetState F) (Unit {0})
      → Vehicle F
      → FleetState F
      → Type 0
  Runs vid P m v s = (s' : FleetState F) × (m s ≡ (ok tt, s')) × Ran vid P v s s'

  All-notices :
      (P : Dict (Vehicle F) → Type 0) (subscribers : List ℕ) (d : Dict (Vehicle F))
      → P d
      → All (λ n. P n.seen) (notices subscribers d)
  All-notices P [] d h = tt
  All-notices P (c ∷ cs) d h = (h, All-notices P cs d h)

  pub mutate-Runs :
      (vid : String) (P : Vehicle F → Type 0) (f : Vehicle F → Vehicle F) (v : Vehicle F)
      (s : FleetState F)
      → get s.by_id vid ≡ some v
      → P (f v)
      → Runs vid P (mutate vid f) (f v) s
  unfolding notify
  mutate-Runs vid P f v s known h =
      let here : get (put s.by_id vid (f v)) vid ≡ some (f v) =
        ground (arith, get-put s.by_id vid vid (f v), eq_iff vid vid) in
      (
        notify (record s { by_id = put s.by_id vid (f v) }),
        mutate-known vid f s v known,
        record {
          here = here;
          others = λ w ne. ground (arith, get-put s.by_id vid w (f v), eq_iff vid w);
          subscribers = refl;
          new_calls = notices s.on_change (put s.by_id vid (f v));
          calls = refl;
          seen =
              All-notices (Shows vid P) s.on_change (put s.by_id vid (f v))
                (λ u found. let e : u ≡ f v = cc in rw e h);
        },
      )

  Ran-trans :
      (vid : String) (P : Vehicle F → Type 0) (v w : Vehicle F) (s t u : FleetState F)
      → Ran vid P v s t
      → Ran vid P w t u
      → Ran vid P w s u
  Ran-trans vid P v w s t u p q = record {
    here = q.here;
    others = λ x ne. q.others x ne ∙ p.others x ne;
    subscribers = q.subscribers ∙ p.subscribers;
    new_calls = p.new_calls ++ q.new_calls;
    calls =
        q.calls ∙ ap (λ l. l ++ q.new_calls) p.calls ∙ append_assoc s.calls p.new_calls q.new_calls;
    seen = All-append (λ n. Shows vid P n.seen) p.new_calls q.new_calls p.seen q.seen;
  }

  -- One part of a `do` block after another.
  pub Runs-bind :
      (vid : String) (P : Vehicle F → Type 0) (m n : Exec (FleetState F) (Unit {0}))
      (v w : Vehicle F) (s : FleetState F)
      → Runs vid P m v s
      → ((t : FleetState F) → get t.by_id vid ≡ some v → Runs vid P n w t)
      → Runs vid P (m >> n) w s
  Runs-bind vid P m n v w s (t, e, p) k =
      let (u, e', q) = k t p.here in (u, rw e e', Ran-trans vid P v w s t u p q)

  Runs-eq :
      (vid : String) (P : Vehicle F → Type 0) (m : Exec (FleetState F) (Unit {0})) (v w : Vehicle F)
      (s : FleetState F)
      → v ≡ w
      → Runs vid P m v s
      → Runs vid P m w s
  Runs-eq vid P m v w s e r = subst (λ x. Runs vid P m x s) e r
