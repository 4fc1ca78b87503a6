-- ===== src/Effect.antt =====
-- Methods that mutate an object and may raise. What was written before a raise stays written, so
-- the state comes back beside the exception too.
pub mod Keeps
use databus_sim.Prelude.{◌≡◌, refl, ◌⊎◌, inl, inr, Option, none, some}

-- The exceptions that the code raises, or lets a callee raise.
pub data Error : Type 0 where
  key_error index_error type_error value_error overflow_error zero_division_error other_error :
      Error

pub data Result {ℓ} (A : Type ℓ) : Type ℓ where
  ok : A → Result A
  err : Error → Result A

pub Result-cases {ℓ} :
    {A : Type ℓ} (r : Result A) → ((a : A) × (r ≡ ok a)) ⊎ ((e : Error) × (r ≡ err e))
Result-cases (ok a) = inl (a, refl)
Result-cases (err e) = inr (e, refl)

-- A look-up `d[key]` that raises KeyError.
abbrev pub required {ℓ} : {A : Type ℓ} → Option A → Result A
required none = err key_error
required (some a) = ok a

abbrev pub Exec : Type 0 → Type 0 → Type 0
Exec S A = S → Result A × S

module _ {S A : Type 0} where
  abbrev pub pure : A → Exec S A
  pure a s = (ok a, s)

  abbrev pub raise : Error → Exec S A
  raise e s = (err e, s)

  -- Runs a pure computation that may raise.
  abbrev pub lift : Result A → Exec S A
  lift r s = (r, s)

  -- `try: body` / `except Exception: handler`
  abbrev pub try_except : Exec S A → Exec S A → Exec S A
  try_except body handler s =
      let (r, s') = body s in elim r [ ok a ↦ (ok a, s') | err e ↦ handler s' ]

module _ {S A B : Type 0} where
  abbrev pub and_then : Result A → (A → Exec S B) → Exec S B
  and_then (ok a) f s = f a s
  and_then (err e) f s = (err e, s)

  infixl 5 ◌>>=◌ ◌>>◌
  abbrev pub ◌>>=◌ : Exec S A → (A → Exec S B) → Exec S B
  m >>= f = λ s. let (r, s') = m s in and_then r f s'

  abbrev pub ◌>>◌ : Exec S A → Exec S B → Exec S B
  m >> n = m >>= λ _. n

module _ {ℓ κ} {A : Type ℓ} {B : Type κ} where
  infixl 5 ◌>=>◌
  -- The bind of `Result`, for pure code.
  abbrev pub ◌>=>◌ : Result A → (A → Result B) → Result B
  ok a >=> f = f a
  err e >=> f = err e

-- A chain that succeeds has each of its steps succeed.
pub bind-ok {ℓ κ} :
    {A : Type ℓ} {B : Type κ} (r : Result A) (f : A → Result B) (b : B)
    → (r >=> f) ≡ ok b
    → (a : A) × (r ≡ ok a) × (f a ≡ ok b)
bind-ok (ok a) f b h = (a, refl, h)
bind-ok (err e) f b h = cc

pub required-ok {ℓ} : {A : Type ℓ} (o : Option A) (a : A) → required o ≡ ok a → o ≡ some a
required-ok none a h = cc
required-ok (some b) a h = cc

pub ok-inj {ℓ} : {A : Type ℓ} (a b : A) → ok a ≡ ok b → a ≡ b
ok-inj a b h = cc

-- The same for a chain that ends in a pure value.
pub map-ok {ℓ κ} :
    {A : Type ℓ} {B : Type κ} (r : Result A) (f : A → B) (b : B)
    → (r >=> λ a. ok (f a)) ≡ ok b
    → (a : A) × (r ≡ ok a) × (f a ≡ b)
map-ok r f b h = let (a, e, e') = bind-ok r (λ a. ok (f a)) b h in (a, e, ok-inj (f a) b e')
