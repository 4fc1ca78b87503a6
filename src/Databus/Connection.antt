-- ===== src/Databus/Connection.antt =====
-- The connection of `DatabusClient` (simulator_app/services/databus_client.py): the httpx client
-- that it is given or opens, and closes. A client of httpx is a number, in the order in which
-- they are made.
use databus_sim.Prelude.{
  ℕ, zero, suc, String, ◌≡◌, ◌⊎◌, inl, inr, Option, none, some, List, [], ◌∷◌, arith,
}
use databus_sim.Effect.{Result, ok, err, Exec}
use databus_sim.Text.{rstrip_slash}

-- `made` counts the httpx clients, and `closed` lists those that `aclose` has closed, last one
-- first.
pub record DatabusClient : Type 0 where
  pub base_url : String
  pub client : Option ℕ
  pub made : ℕ
  pub closed : List ℕ

-- `DatabusClient(base_url)` and `DatabusClient(base_url, client=...)`
unfoldable pub new_client : String → DatabusClient
new_client base_url = record {
  base_url = rstrip_slash base_url;
  client = none;
  made = 0;
  closed = [];
}

unfoldable pub new_client_with : String → DatabusClient
new_client_with base_url = record {
  base_url = rstrip_slash base_url;
  client = some 0;
  made = 1;
  closed = [];
}

-- `open`, and `__aenter__`, which then returns the object itself.
unfoldable pub open_client : DatabusClient → DatabusClient
open_client s = elim s.client [
  | none ↦ record s { client = some s.made; made = suc s.made }
  | some n ↦ s
]

-- `close` and `__aexit__`; `aclose` may raise, and the client is then still held.
unfoldable pub close_client : Result (Unit {0}) → Exec DatabusClient (Unit {0})
close_client aclose s = elim s.client [
  | none ↦ (ok tt, s)
  | some n ↦ elim aclose [
    | ok _ ↦ (ok tt, record s { client = none; closed = n ∷ s.closed })
    | err e ↦ (err e, s)
  ]
]

pub data Call : Type 0 where
  opens : Call
  closes : Result (Unit {0}) → Call

unfoldable pub calls : List Call → DatabusClient → DatabusClient
calls [] s = s
calls (opens ∷ cs) s = calls cs (open_client s)
calls (closes aclose ∷ cs) s = calls cs (close_client aclose s).1

-- n - 1, ..., 0
abbrev pub below : ℕ → List ℕ
below zero = []
below (suc n) = n ∷ below n

-- Each client that was made has been closed once, but for the one that is held.
pub record IsBalanced (s : DatabusClient) : Type 0 where
  pub balance :
      ((s.client ≡ none) × (s.closed ≡ below s.made))
      ⊎ ((n : ℕ) × (s.client ≡ some n) × (s.made ≡ suc n) × (s.closed ≡ below n))

open_client-IsBalanced : (s : DatabusClient) → IsBalanced s → IsBalanced (open_client s)
unfolding open_client
open_client-IsBalanced s h = elim h.balance [
  | inl (free, all) ↦ record { balance = inr (s.made, ground arith, ground arith, ground arith) }
  | inr (n, held, last, rest) ↦ record {
    balance = inr (n, ground arith, ground arith, ground arith);
  }
]

close_client-IsBalanced :
    (aclose : Result (Unit {0})) (s : DatabusClient)
    → IsBalanced s
    → IsBalanced (close_client aclose s).1
unfolding close_client
close_client-IsBalanced (err e) s h = elim h.balance [
  | inl (free, all) ↦ record { balance = inl (ground arith, ground arith) }
  | inr (n, held, last, rest) ↦ record {
    balance = inr (n, ground arith, ground arith, ground arith);
  }
]
close_client-IsBalanced (ok a) s h = elim h.balance [
  | inl (free, all) ↦ record { balance = inl (ground arith, ground arith) }
  | inr (n, held, last, rest) ↦ record { balance = inl (ground arith, ground arith) }
]

-- However often a client of the databus is opened and closed, and also where a closing raises:
-- every httpx client that it has made has been closed exactly once, but for at most one, which it
-- holds.
pub calls-IsBalanced : (cs : List Call) (s : DatabusClient) → IsBalanced s → IsBalanced (calls cs s)
unfolding calls
calls-IsBalanced [] s h = h
calls-IsBalanced (opens ∷ cs) s h = calls-IsBalanced cs (open_client s) (open_client-IsBalanced s h)
calls-IsBalanced (closes aclose ∷ cs) s h =
    calls-IsBalanced cs (close_client aclose s).1 (close_client-IsBalanced aclose s h)
