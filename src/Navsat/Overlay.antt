-- ===== src/Navsat/Overlay.antt =====
-- What the NavSat overlay of simulator_app/services/navsat_poller.py shows a browser that
-- connects.
use databus_sim.Prelude.{◌≡◌, refl, List, [], ◌∷◌, ◌⊎◌, inl, inr}
use databus_sim.Broadcast.Consumer.{Message, broadcast_navsat}
use databus_sim.Databus.{Exchange}
use databus_sim.Navsat.{
  NavSatRecord, Builtins, Payload, Fetch, fetched, client_error, unexpected, Overlaid, fetch, poll,
}

module _ {F : Type 0} (py : Builtins F) where
  unfoldable pub poll_all : List (Exchange (Payload F)) → Overlaid F → Overlaid F
  poll_all [] s = s
  poll_all (e ∷ es) s = poll_all es (poll py e s)

module _ {F : Type 0} where
  -- The snapshot is what has been sent last.
  pub record IsCurrent (s : Overlaid F) : Type 0 where
    pub current :
        ((s.snapshot ≡ []) × (s.messages ≡ []))
        ⊎ ((older : List (Message (List (NavSatRecord F)))) × (s.messages
              ≡ broadcast_navsat s.snapshot ∷ older))

Fetch-cases :
    {A : Type 0} (f : Fetch A) → ((a : A) × (f ≡ fetched a)) ⊎ (f ≡ client_error) ⊎ (f ≡ unexpected)
Fetch-cases (fetched a) = inl (a, refl)
Fetch-cases client_error = inr (inl refl)
Fetch-cases unexpected = inr (inr refl)

module _ {F : Type 0} (py : Builtins F) where
  poll-IsCurrent :
      (e : Exchange (Payload F)) (s : Overlaid F) → IsCurrent s → IsCurrent (poll py e s)
  unfolding poll
  poll-IsCurrent e s h = elim (Fetch-cases (fetch py e)) [
    | inl (records, got) ↦ rw (got, poll) (record { current = inr (s.messages, refl) })
    | inr (inl failed) ↦ rw (failed, poll) h
    | inr (inr odd) ↦ rw (odd, poll) h
  ]

  poll_all-keeps :
      (es : List (Exchange (Payload F))) (s : Overlaid F)
      → IsCurrent s
      → IsCurrent (poll_all py es s)
  unfolding poll_all
  poll_all-keeps [] s h = h
  poll_all-keeps (e ∷ es) s h = poll_all-keeps es (poll py e s) (poll-IsCurrent e s h)

  -- From a start without an overlay, and whatever the polls come to: the snapshot that a browser
  -- gets when it connects is the one that has been sent to the others last, or nothing has been
  -- sent and it is empty.
  pub poll_all-IsCurrent :
      (es : List (Exchange (Payload F)))
      → IsCurrent (poll_all py es (record { snapshot = []; messages = [] }))
  poll_all-IsCurrent es =
      poll_all-keeps es (record { snapshot = []; messages = [] })
        (record { current = inl (refl, refl) })
