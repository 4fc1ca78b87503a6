-- ===== src/RunBinder/Bindings.antt =====
-- What simulator_app/services/run_binder.py shows of its bindings.
use mathlib.Core.Option
use databus_sim.Prelude.{ℕ, String, ◌≡◌, refl, Option, List, [], ◌∷◌, arith, eq_iff}
use databus_sim.Dict.{Dict, get, values}
use databus_sim.RunBinder.{BoundRun, Binder}

-- An entry of `_bindings_snapshot`.
pub record BindingRow : Type 0 where
  pub run_id : String
  pub vehicle_id : String
  pub trip_id : String
  pub shape_id : String
  pub lifecycle_state : Option String
  pub last_polled_at : Option String

unfoldable pub bindings : {F : Type 0} → Binder F → List BoundRun
bindings s = values s.bindings

module _ (isoformat : ℕ → String) where
  abbrev pub binding_row : BoundRun → BindingRow
  binding_row b = record {
    run_id = b.run_id;
    vehicle_id = b.vehicle_id;
    trip_id = b.trip_id;
    shape_id = b.shape_id;
    lifecycle_state = b.lifecycle_state;
    last_polled_at = Option.map isoformat b.last_polled_at;
  }

  unfoldable pub binding_rows : Dict BoundRun → Dict BindingRow
  binding_rows [] = []
  binding_rows ((run_id, b) ∷ d) = (run_id, binding_row b) ∷ binding_rows d

  unfoldable pub bindings_snapshot : {F : Type 0} → Binder F → Dict BindingRow
  bindings_snapshot s = binding_rows s.bindings

  -- Each run is shown under its key.
  pub get-binding_rows :
      (d : Dict BoundRun) (run_id : String)
      → get (binding_rows d) run_id ≡ Option.map binding_row (get d run_id)
  unfolding get binding_rows
  get-binding_rows [] run_id = refl
  get-binding_rows ((k, b) ∷ d) run_id = ground (arith, eq_iff k run_id, get-binding_rows d run_id)
