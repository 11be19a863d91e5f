-- ===== src/Prelude/Dict.antt =====
-- Python's `dict`: an association list in the order of insertion. An assignment to a key that is
-- there keeps its place.
use gamma_scope.Prelude.{
  ◌+◌, ◌≡◌, refl, Bool, true, false, Option, none, some, List, [], ◌∷◌, map, arith, Eq, ◌==◌,
  length, if◌then◌else◌,
}

abbrev pub Dict {ℓ κ} : Type ℓ → Type κ → Type (ℓ ⊔ κ)
Dict K V = List (K × V)

module _ {ℓ κ} {K : Type ℓ} {V : Type κ} where
  abbrev pub values : Dict K V → List V
  values d = map (λ e. e.1) d

  abbrev pub keys : Dict K V → List K
  keys d = map (λ e. e.0) d

module _ {ℓ κ} {K : Type ℓ} ⦃e : Eq K⦄ {V : Type κ} where
  -- `d.get(k)`
  unfoldable pub get : K → Dict K V → Option V
  get k [] = none
  get k ((j, v) ∷ d) = if j == k then some v else get k d

  -- `d[k] = v`
  unfoldable pub put : K → V → Dict K V → Dict K V
  put k v [] = (k, v) ∷ []
  put k v ((j, w) ∷ d) = if j == k then (j, v) ∷ d else (j, w) ∷ put k v d

  -- `k in d`
  unfoldable pub has : K → Dict K V → Bool
  has k [] = false
  has k ((j, v) ∷ d) = if j == k then true else has k d

  -- No key stands twice.
  abbrev pub HasKeys : Dict K V → Type 0
  HasKeys [] = Unit
  HasKeys ((j, v) ∷ d) = (has j d ≡ false) × HasKeys d

  pub get-put :
      (k j : K) (v : V) (d : Dict K V) → get j (put k v d) ≡ (if k == j then some v else get j d)
  unfolding get put
  get-put k j v [] = refl
  get-put k j v ((i, w) ∷ d) =
      ground (arith, e.test_iff k j, e.test_iff i k, e.test_iff i j, get-put k j v d)

  pub get-put_self : (k : K) (v : V) (d : Dict K V) → get k (put k v d) ≡ some v
  get-put_self k v d = ground (arith, get-put k k v d, (e.test_iff k k).1 refl)

  pub put-put_same : (k : K) (v w : V) (d : Dict K V) → put k v (put k w d) ≡ put k v d
  unfolding put
  put-put_same k v w [] = ground (arith, (e.test_iff k k).1 refl)
  put-put_same k v w ((j, x) ∷ d) = ground (arith, (e.test_iff j k), put-put_same k v w d)

  pub has-put :
      (k j : K) (v : V) (d : Dict K V) → has j (put k v d) ≡ (if k == j then true else has j d)
  unfolding has put
  has-put k j v [] = refl
  has-put k j v ((i, w) ∷ d) =
      ground (arith, e.test_iff k j, e.test_iff i k, e.test_iff i j, has-put k j v d)

  pub get_of_not-has : (k : K) (d : Dict K V) → has k d ≡ false → get k d ≡ none
  unfolding has get
  get_of_not-has k [] h = refl
  get_of_not-has k ((j, v) ∷ d) h = ground (arith, get_of_not-has k d)

  pub has-eq-get : (k : K) (d : Dict K V) → get k d ≡ none → has k d ≡ false
  unfolding has get
  has-eq-get k [] h = refl
  has-eq-get k ((j, v) ∷ d) h = ground (arith, has-eq-get k d)

  pub put-HasKeys : (k : K) (v : V) (d : Dict K V) → HasKeys d → HasKeys (put k v d)
  unfolding put has
  put-HasKeys k v [] h = ground arith
  put-HasKeys k v ((j, w) ∷ d) h =
      ground (arith, put-HasKeys k v d, has-put k j v d, e.test_iff j k, e.test_iff k j)

  pub length-put :
      (k : K) (v : V) (d : Dict K V)
      → length (put k v d) ≡ (if has k d then length d else length d + 1)
  unfolding put has
  length-put k v [] = omega arith
  length-put k v ((j, w) ∷ d) = ground (arith, length-put k v d)
