-- ===== src/Kinematics/Faults.antt =====
-- Fault injection: what each kind of fault does to the telemetry, and for how long.
use databus_sim.Prelude.{
  ℕ, suc, ◌≡◌, refl, true, Option, none, some, List, [], ◌∷◌, map, arith, length, ap, ◌∙◌,
}
use mathlib.Core.Path.{ap₂}
use databus_sim.Prelude.Int.{ℤ, pos, ◌-ℤ◌}
use databus_sim.Float.{Float, lit}
use databus_sim.Effect.{Result, ok}
use databus_sim.Fleet.{Vehicle, Kin, FaultKind, stale_ts, out_of_bounds, malformed}
use databus_sim.Kinematics.{Shape, Draws, interpolate, init_kin}
use databus_sim.Kinematics.Step.{with_kin}
use databus_sim.Kinematics.Payload.{Payloads, build_vehicle_payloads, payloads_at, spend_fault}

module _ {F : Type 0} ⦃fl : Float F⦄ where
  -- The scratch space with no fault.
  abbrev pub without_fault : Kin F → Kin F
  without_fault k = record k { fault = none; fault_ticks = pos 0 }

  -- What a fault does to the telemetry: a time two minutes back, the origin as the place, or no
  -- speed.
  abbrev pub spoil : FaultKind → Payloads F → Payloads F
  spoil stale_ts p = record {
    position = record p.position { timestamp = p.position.timestamp -ℤ pos 120 };
    occupancy = record p.occupancy { timestamp = p.occupancy.timestamp -ℤ pos 120 };
  }
  spoil out_of_bounds p = record p {
    position = record p.position { latitude = fl.round (lit 0) 6; longitude = fl.round (lit 0) 6 };
  }
  spoil malformed p = record p { position = record p.position { speed = none } }

  payloads_spoiled :
      (v : Vehicle F) (k : Kin F) (kind : FaultKind) (n : ℕ) (now : ℤ) (at : F × F × F)
      → k.fault ≡ some kind
      → k.fault_ticks ≡ pos (suc n)
      → payloads_at v k now at ≡ spoil kind (payloads_at v (without_fault k) now at)
  unfolding payloads_at
  payloads_spoiled v k stale_ts n now at e d = ground arith
  payloads_spoiled v k out_of_bounds n now at e d = ground arith
  payloads_spoiled v k malformed n now at e d = ground arith

  spend_more :
      (k : Kin F) (kind : FaultKind) (n : ℕ)
      → k.fault ≡ some kind
      → k.fault_ticks ≡ pos (suc (suc n))
      → spend_fault k ≡ record k { fault_ticks = pos (suc n) }
  unfolding spend_fault ◌-ℤ◌
  spend_more k kind n e d = ground arith

  spend_last :
      (k : Kin F) (kind : FaultKind)
      → k.fault ≡ some kind
      → k.fault_ticks ≡ pos 1
      → spend_fault k ≡ without_fault k
  unfolding spend_fault ◌-ℤ◌
  spend_last k kind e d = ground arith

  module _ (shape : Shape F) where
    -- The telemetry of successive ticks, each at its own time, with nothing else happening
    -- between.
    unfoldable pub builds :
        List (Draws F × ℤ) → Vehicle F → List (Result (Option (Payloads F))) × Vehicle F
    builds [] v = ([], v)
    builds ((r, now) ∷ rs) v =
        let (p, v') = build_vehicle_payloads shape r now v in
        let (ps, v'') = builds rs v' in (p ∷ ps, v'')

    build_once :
        (r : Draws F) (now : ℤ) (v : Vehicle F) (k : Kin F) (at : F × F × F)
        → v.kin ≡ some k
        → v.transmitting ≡ true
        → interpolate shape v.progress_m ≡ ok at
        → build_vehicle_payloads shape r now v
          ≡ (ok (some (payloads_at v k now at)), with_kin v (spend_fault k))
    unfolding build_vehicle_payloads init_kin
    build_once r now v k at e on found = ground arith

    -- The telemetry of a vehicle with the fault `kind`, in terms of what it would be without.
    abbrev pub spoiled :
        FaultKind → Vehicle F → Kin F → F × F × F → Draws F × ℤ → Result (Option (Payloads F))
    spoiled kind v k at (r, now) = ok (some (spoil kind (payloads_at v (without_fault k) now at)))

    builds_step :
        (r : Draws F) (now : ℤ) (rs : List (Draws F × ℤ)) (v w u : Vehicle F)
        (p : Result (Option (Payloads F))) (ps : List (Result (Option (Payloads F))))
        → build_vehicle_payloads shape r now v ≡ (p, w)
        → builds rs w ≡ (ps, u)
        → builds ((r, now) ∷ rs) v ≡ (p ∷ ps, u)
    unfolding builds
    builds_step r now rs v w u p ps e h = rw e (rw h)

    -- The number of ticks left on the fault does not show in the telemetry.
    spoiled_same :
        (kind : FaultKind) (v : Vehicle F) (k : Kin F) (at : F × F × F) (n : ℤ)
        → spoiled kind (with_kin v (record k { fault_ticks = n })) (record k { fault_ticks = n }) at
          ≡ spoiled kind v k at
    unfolding payloads_at
    spoiled_same kind v k at n = refl

    -- A fault injected for n ticks spoils, as its kind prescribes and in no other way, exactly the
    -- next n payloads of a transmitting vehicle that stands still meanwhile where the shape can be
    -- interpolated, and is then gone.
    pub builds_fault :
        (rs : List (Draws F × ℤ)) (r : Draws F × ℤ) (v : Vehicle F) (k : Kin F) (kind : FaultKind)
        (at : F × F × F)
        → v.kin ≡ some k
        → k.fault ≡ some kind
        → k.fault_ticks ≡ pos (length (r ∷ rs))
        → v.transmitting ≡ true
        → interpolate shape v.progress_m ≡ ok at
        → builds (r ∷ rs) v ≡ (map (spoiled kind v k at) (r ∷ rs), with_kin v (without_fault k))
    unfolding builds
    builds_fault [] (r, now) v k kind at e f d on found =
        let once = build_once r now v k at e on found in
        let bad = payloads_spoiled v k kind 0 now at f d in let last = spend_last k kind f d in cc
    builds_fault (r' ∷ rs) (r, now) v k kind at e f d on found =
        let once = build_once r now v k at e on found in
        let bad = payloads_spoiled v k kind (suc (length rs)) now at f d in
        let more = spend_more k kind (length rs) f d in
        let k' : Kin F = record k { fault_ticks = pos (suc (length rs)) } in
        let rest = builds_fault rs r' (with_kin v k') k' kind at refl f refl on found in
        builds_step r now (r' ∷ rs) v (with_kin v k') (with_kin v (without_fault k))
          (spoiled kind v k at (r, now)) _
          (once ∙ ap₂ (λ p w. (ok (some p), with_kin v w)) bad more)
          (rest
            ∙ ap (λ f'. (map f' (r' ∷ rs), with_kin v (without_fault k)))
                (spoiled_same kind v k at (pos (suc (length rs)))))
