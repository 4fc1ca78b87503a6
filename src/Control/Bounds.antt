-- ===== src/Control/Bounds.antt =====
-- simulator_app/domain/control.py: the ranges of the overrides that control requests can set.
use databus_sim.Prelude.{String, ◌≡◌, some, List, [], ◌∷◌, arith, All, inl, inr, Option-cases}
use databus_sim.Prelude.Int.{pos, ◌≤ℤ◌}
use databus_sim.Float.{Float}
use databus_sim.Dict.{Dict, get, put, put-found}
use databus_sim.Effect.Keeps.{Keeps}
use databus_sim.Fleet.{
  FleetState, Vehicle, DwellOverride, mutate, notify_all, notify, set_transmitting, set_moving,
  set_speed_override, set_occupancy_override, set_dwell_override,
}
use databus_sim.Fleet.Roster.{new_fleet, make_fleet, index_by_id, new_vehicle}
use databus_sim.Fleet.Changes.{mutate-found}
use databus_sim.Control.{revise}
use databus_sim.Control.Dispatch.{Request, apply_control}
use databus_sim.Control.Parts.{IsOccupancy, apply_control-Keeps}

-- The overrides are in range: an occupancy in 0..100 and a dwell that is not negative.
pub record IsInBounds {F : Type 0} (v : Vehicle F) : Type 0 where
  pub occupancy : IsOccupancy v.occupancy_override
  pub dwell : (d : DwellOverride) → v.dwell_override ≡ some d → pos 0 ≤ℤ d.ticks

module _ {F : Type 0} where
  abbrev AllInBounds : Dict (Vehicle F) → Type 0
  AllInBounds d = (k : String) (v : Vehicle F) → get d k ≡ some v → IsInBounds v

  pub record IsBounded (s : FleetState F) : Type 0 where
    pub bounds : (k : String) (v : Vehicle F) → get s.by_id k ≡ some v → IsInBounds v

  module _ (vid : String) (f : Vehicle F → Vehicle F)
      (keeps : (v : Vehicle F) → IsInBounds v → IsInBounds (f v)) where
    mutate-IsBounded : Keeps IsBounded (mutate vid f)
    mutate-IsBounded = record {
      at = λ s h. record {
        bounds = λ k v found. elim (mutate-found vid f s k v found) [
          | inl (w, before, changed) ↦ rw changed (keeps w (h.bounds k w before))
          | inr before ↦ h.bounds k v before
        ];
      };
    }

    revise-IsBounded : Keeps IsBounded (revise vid f)
    unfolding revise
    revise-IsBounded = record {
      at = λ s h. elim (Option-cases (get s.by_id vid)) [
        | inl missing ↦ rw (missing, revise) h
        | inr (v, known) ↦
            rw (known, revise)
              (record {
                bounds = λ k u found. elim (put-found s.by_id vid k (f v) u found) [
                  | inl (here, new) ↦ rw new (keeps v (h.bounds vid v known))
                  | inr old ↦ h.bounds k u old
                ];
              })
      ];
    }

  notify_all-IsBounded : Keeps (IsBounded) notify_all
  unfolding notify_all notify
  notify_all-IsBounded = record { at = λ s h. record { bounds = h.bounds } }

module _ {F : Type 0} ⦃fl : Float F⦄ where
  index_by_id-AllInBounds :
      (vs : List (Vehicle F)) (d : Dict (Vehicle F))
      → All IsInBounds vs
      → AllInBounds d
      → AllInBounds (index_by_id vs d)
  unfolding index_by_id
  index_by_id-AllInBounds [] d hs hd = hd
  index_by_id-AllInBounds (u ∷ vs) d hs hd =
      index_by_id-AllInBounds vs (put d u.vehicle_id u) hs.1 λ k v found.
        elim (put-found d u.vehicle_id k u v found) [
          | inl (here, new) ↦ rw new hs.0
          | inr old ↦ hd k v old
        ]

  new_vehicle-IsInBounds : (a b c : String) → IsInBounds (new_vehicle {F = F} a b c)
  new_vehicle-IsInBounds a b c = record { occupancy = λ z e. cc; dwell = λ d e. cc }

  new_fleet-IsBounded : IsBounded (new_fleet (make_fleet {F = F}))
  unfolding new_fleet get
  new_fleet-IsBounded = record {
    bounds =
        index_by_id-AllInBounds make_fleet [] (search new_vehicle-IsInBounds) (λ k v found. cc);
  }

  apply_control-IsBounded : (q : Request F) → Keeps IsBounded (apply_control q)
  unfolding set_transmitting set_moving set_speed_override set_occupancy_override set_dwell_override
  apply_control-IsBounded q = apply_control-Keeps IsBounded q (record {
    transmit = λ on. mutate-IsBounded _ _ (λ v u. ground arith);
    move = λ on. mutate-IsBounded _ _ (λ v u. ground arith);
    speed = λ value. mutate-IsBounded _ _ (λ v u. ground arith);
    occupancy = λ value h. mutate-IsBounded _ _ (λ v u. record { occupancy = h; dwell = u.dwell });
    dwell = λ stop_id ticks h.
        mutate-IsBounded _ _
          (λ v u. record { occupancy = u.occupancy; dwell = λ d e. ground arith });
    go = λ x. revise-IsBounded _ _ (λ v u. ground arith);
    place = λ x. revise-IsBounded _ _ (λ v u. ground arith);
    fault = λ kind ticks. revise-IsBounded _ _ (λ v u. ground arith);
    call = notify_all-IsBounded;
  })

  -- Requests one after the other.
  unfoldable pub apply_controls : List (Request F) → FleetState F → FleetState F
  apply_controls [] s = s
  apply_controls (q ∷ qs) s = apply_controls qs (apply_control q s).1

  apply_controls_lem :
      (qs : List (Request F)) (s : FleetState F) → IsBounded s → IsBounded (apply_controls qs s)
  unfolding apply_controls
  apply_controls_lem [] s h = h
  apply_controls_lem (q ∷ qs) s h = apply_controls_lem qs _ ((apply_control-IsBounded q).at s h)

  -- Whatever control requests arrive after the start with the fixed roster, every occupancy
  -- override is in 0..100 and no dwell override is negative.
  pub apply_controls-IsBounded :
      (qs : List (Request F)) → IsBounded (apply_controls qs (new_fleet make_fleet))
  apply_controls-IsBounded qs = apply_controls_lem qs (new_fleet make_fleet) new_fleet-IsBounded
