-- ===== src/Navsat.antt =====
-- simulator_app/services/navsat_client.py and navsat_poller.py: the overlay of NavSat vehicles.
-- What `str`, `float` and truth make of a JSON value are parameters, and so is what httpx gives.
pub mod Overlay
use mathlib.Core.Option
use databus_sim.Prelude.{
  String, Bool, true, false, Option, none, some, List, [], ◌∷◌, if◌then◌else◌,
}
use databus_sim.Dict.{Dict, get}
use databus_sim.Effect.{Error, key_error, type_error, value_error, Result, ok, err, required, ◌>=>◌}
use databus_sim.Control.{Json}
use databus_sim.Databus.{Response, Exchange, http_error, other_error, response, is_success}
use databus_sim.Broadcast.Consumer.{Message, broadcast_navsat}

-- NavSatRecord, and a row of the snapshot.
pub record NavSatRecord (F : Type 0) : Type 0 where
  pub plate_number : String
  pub latitude : F
  pub longitude : F
  pub estado : String

-- Python's `str`, `float` (which may raise) and truth.
pub record Builtins (F : Type 0) : Type 0 where
  pub str : Json F → String
  pub float : Json F → Result F
  pub is_true : Json F → Bool

pub data Item (F : Type 0) : Type 0 where
  object : Dict (Json F) → Item F
  no_object : Item F

pub data Payload (F : Type 0) : Type 0 where
  listed : List (Item F) → Payload F
  not_listed : Payload F

-- What a fetch comes to: the records, a NavSatClientError, or another exception.
pub data Fetch (A : Type 0) : Type 0 where
  fetched : A → Fetch A
  client_error unexpected : Fetch A

-- The overlay of the runtime, and what has been sent to the browser group.
pub record Overlaid (F : Type 0) : Type 0 where
  pub snapshot : List (NavSatRecord F)
  pub messages : List (Message (List (NavSatRecord F)))

-- (KeyError, TypeError, ValueError)
abbrev is_malformed : Error → Bool
is_malformed key_error = true
is_malformed type_error = true
is_malformed value_error = true
is_malformed _ = false

module _ {F : Type 0} (py : Builtins F) where
  -- str(raw.get("estado") or "")
  unfoldable pub estado_of : Option (Json F) → String
  estado_of none = ""
  estado_of (some j) = if py.is_true j then py.str j else ""

  unfoldable pub from_api : Dict (Json F) → Result (NavSatRecord F)
  from_api raw = required (get raw "plateNumber") >=> λ plate.
      required (get raw "latitude") >=> py.float >=> λ latitude.
      required (get raw "longitude") >=> py.float >=> λ longitude. ok (record {
        plate_number = py.str plate;
        latitude = latitude;
        longitude = longitude;
        estado = estado_of (get raw "estado");
      })

  -- The loop of `fetch`: what is malformed is skipped; another exception ends it.
  unfoldable pub read_records : List (Item F) → Result (List (NavSatRecord F))
  read_records [] = ok []
  read_records (no_object ∷ items) = read_records items
  read_records (object raw ∷ items) =
      let rest = read_records items in
      elim (from_api raw) [
        | ok r ↦ rest >=> λ records. ok (r ∷ records)
        | err e ↦ if is_malformed e then rest else err e
      ]

  unfoldable pub fetch : Exchange (Payload F) → Fetch (List (NavSatRecord F))
  fetch http_error = client_error
  fetch other_error = unexpected
  fetch (response r) =
      if is_success r.status_code
      then elim r.json [
        | none ↦ client_error
        | some not_listed ↦ client_error
        | some (listed items) ↦ elim (read_records items) [
          | ok records ↦ fetched records
          | err e ↦ unexpected
        ]
      ]
      else client_error

  -- A turn of `navsat_poll_loop`.
  unfoldable pub poll : Exchange (Payload F) → Overlaid F → Overlaid F
  poll exchange s = elim (fetch exchange) [
    | client_error ↦ s
    | unexpected ↦ s
    | fetched records ↦ record {
      snapshot = records;
      messages = broadcast_navsat records ∷ s.messages;
    }
  ]
