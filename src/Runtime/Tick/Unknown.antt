-- ===== src/Runtime/Tick/Unknown.antt =====
-- The ticks of simulator_app/runtime.py that meet a vehicle whose shape is unknown.
use databus_sim.Prelude.{
  ℕ, suc, String, ◌≡◌, ap, sym, subst, Bool, false, some, List, [], ◌∷◌, ◌++◌, inl, inr,
}
use databus_sim.Float.{Float}
use databus_sim.Dict.{get, keys, put-same}
use databus_sim.Effect.{ok, err, key_error, Result-cases}
use databus_sim.Fleet.{Vehicle, FleetState}
use databus_sim.Kinematics.{get_shape}
use databus_sim.Runtime.Tick.{
  Await, Settings, Network, Chance, Air, Loop, is_skipped, is_over, sample, conclude, tick_vehicle,
  tick_all, tick,
}

module _ {F : Type 0} ⦃fl : Float F⦄ (c : Settings F) (net : Network F) (mqtt : Bool)
    (chance : String → Chance F) (others : Await → String → FleetState F → FleetState F) where
  sample-unknown :
      (ch : Chance F) (v : Vehicle F)
      → get_shape v net.shapes ≡ err key_error
      → sample c net ch v ≡ (err key_error, v)
  unfolding sample
  sample-unknown ch v unknown = rw (unknown, sample)

  tick_vehicle-unknown :
      (vid : String) (v : Vehicle F) (w : Air F)
      → get w.fleet.by_id vid ≡ some v
      → is_skipped c (chance vid) v ≡ false
      → get_shape v net.shapes ≡ err key_error
      → tick_vehicle c net mqtt chance others vid w ≡ (err key_error, w)
  unfolding tick_vehicle conclude
  tick_vehicle-unknown vid v w found taken unknown = rw (
    found,
    taken,
    sample-unknown (chance vid) v unknown,
    put-same w.fleet.by_id vid v found,
    tick_vehicle,
  )

  tick_all-unknown :
      (before : List String) (vid : String) (after : List String) (w w1 : Air F)
      → tick_all c net mqtt chance others before w ≡ (ok tt, w1)
      → tick_vehicle c net mqtt chance others vid w1 ≡ (err key_error, w1)
      → tick_all c net mqtt chance others (before ++ vid ∷ after) w ≡ (err key_error, w1)
  unfolding tick_all
  tick_all-unknown [] vid after w w1 returned raises =
      let e : w ≡ w1 = ap (λ r. r.1) returned in
      subst (λ x. tick_all c net mqtt chance others (vid ∷ after) x ≡ (err key_error, w1)) (sym e)
        (rw (raises, tick_all, raises))
  tick_all-unknown (u ∷ before) vid after w w1 returned raises =
      elim (Result-cases (tick_vehicle c net mqtt chance others u w).0) [
        | inl (a, first) ↦
            let later = rw (first, tick_all) at returned in
            rw (first, tick_all) (tick_all-unknown before vid after _ w1 later raises)
        | inr (e, failed) ↦ let stopped = rw (failed, tick_all) at returned in cc
      ]

  -- When a tick comes to a vehicle that it does not skip and whose shape is unknown, it raises
  -- KeyError: the fleet stays as it is by then, and no later vehicle is served and no snapshot of
  -- the fleet sent.
  pub tick-unknown :
      (before : List String) (vid : String) (after : List String) (v : Vehicle F) (now : ℕ)
      (l : Loop F) (w : Air F)
      → keys l.air.fleet.by_id ≡ before ++ vid ∷ after
      → is_over c (suc l.cycle) ≡ false
      → tick_all c net mqtt chance others before l.air ≡ (ok tt, w)
      → get w.fleet.by_id vid ≡ some v
      → is_skipped c (chance vid) v ≡ false
      → get_shape v net.shapes ≡ err key_error
      → tick c (some net) mqtt chance others now l
        ≡ (err key_error, record l { air = w; cycle = suc l.cycle })
  unfolding tick
  tick-unknown before vid after v now l w split under returned found taken unknown =
      let raises = tick_vehicle-unknown vid v w found taken unknown in
      let all = tick_all-unknown before vid after l.air w returned raises in
      let all' : tick_all c net mqtt chance others (keys l.air.fleet.by_id) l.air
          ≡ (err key_error, w) =
        subst (λ ks. tick_all c net mqtt chance others ks l.air ≡ (err key_error, w)) (sym split)
          all in
      rw (under, all', tick, all')
