-- ===== src/Dict.antt =====
-- Python's `dict` with string keys, as an association list in insertion order: an assignment to
-- a present key keeps its place, a new key goes to the end.
use databus_sim.Prelude.{
  String, Bool-cases, inl, inr, ◌⊎◌, ◌≡◌, refl, Option, none, some, List, [], ◌∷◌, map, arith,
  str_eq, eq_iff, if◌then◌else◌,
}

abbrev pub Dict {ℓ} : Type ℓ → Type ℓ
Dict V = List (String × V)

module _ {ℓ} {V : Type ℓ} where
  -- d.get(k)
  unfoldable pub get : Dict V → String → Option V
  get [] k = none
  get ((j, v) ∷ d) k = if str_eq j k then some v else get d k

  -- d[k] = v
  unfoldable pub put : Dict V → String → V → Dict V
  put [] k v = (k, v) ∷ []
  put ((j, w) ∷ d) k v = if str_eq j k then (j, v) ∷ d else (j, w) ∷ put d k v

  -- d.pop(k, None)
  unfoldable pub remove : Dict V → String → Dict V
  remove [] k = []
  remove ((j, w) ∷ d) k = let rest = remove d k in if str_eq j k then rest else (j, w) ∷ rest

  -- list(d)
  abbrev pub keys : Dict V → List String
  keys d = map (λ e. e.0) d

  -- list(d.values())
  abbrev pub values : Dict V → List V
  values d = map (λ e. e.1) d

  pub get-put :
      (d : Dict V) (k j : String) (v : V)
      → get (put d k v) j ≡ (if str_eq k j then some v else get d j)
  unfolding get put
  get-put [] k j v = refl
  get-put ((i, w) ∷ d) k j v = ground (arith, eq_iff k j, eq_iff i k, eq_iff i j, get-put d k j v)

  pub get-put_self : (d : Dict V) (k : String) (v : V) → get (put d k v) k ≡ some v
  get-put_self d k v = ground (arith, get-put d k k v, eq_iff k k)

  -- An assignment of the value that is there changes nothing.
  pub put-same : (d : Dict V) (k : String) (v : V) → get d k ≡ some v → put d k v ≡ d
  unfolding get put
  put-same [] k v h = cc
  put-same ((i, w) ∷ d) k v h = ground (arith, put-same d k v)

  -- An assignment removes no key.
  pub put-kept :
      (d : Dict V) (k j : String) (v w : V)
      → get d j ≡ some w
      → (x : V) × (get (put d k v) j ≡ some x)
  put-kept d k j v w h = elim (Bool-cases (str_eq k j)) [
    | inl same ↦ (v, ground (arith, get-put d k j v))
    | inr other ↦ (w, ground (arith, get-put d k j v))
  ]

  -- What is found after an assignment is the new value, or was there before.
  pub put-found :
      (d : Dict V) (k j : String) (v w : V)
      → get (put d k v) j ≡ some w
      → (k ≡ j) × (w ≡ v) ⊎ (get d j ≡ some w)
  put-found d k j v w h = elim (Bool-cases (str_eq k j)) [
    | inl same ↦ inl ((eq_iff k j).0 same, ground (arith, get-put d k j v))
    | inr other ↦ inr (ground (arith, get-put d k j v))
  ]

  pub get-remove :
      (d : Dict V) (k j : String) → get (remove d k) j ≡ (if str_eq k j then none else get d j)
  unfolding get remove
  get-remove [] k j = ground arith
  get-remove ((i, w) ∷ d) k j = ground (arith, eq_iff k j, eq_iff i k, eq_iff i j, get-remove d k j)

  -- An assignment to a present key changes no key.
  pub keys-put : (d : Dict V) (k : String) (w v : V) → get d k ≡ some w → keys (put d k v) ≡ keys d
  unfolding get put
  keys-put [] k w v h = ground arith
  keys-put ((i, x) ∷ d) k w v h = ground (arith, eq_iff i k, keys-put d k w v)
