-- ===== src/Prelude/Sort.antt =====
-- Python's `sorted`, `min` and `max` with a key: a stable sort, and the first of the best.
use gamma_scope.Prelude.{
  ◌≡◌, refl, sym, ap, ◌∙◌, inl, inr, Bool, true, false, Option, none, some, List, [], ◌∷◌, arith,
  Bool-cases, All, All-imp, All-keep, keep, length, map, suc, if◌then◌else◌,
}
use mathlib.Core.Path.{subst}
use gamma_scope.Prelude.Order.{Ord, le_refl, le_of_not-le}

some_eq {ℓ} : {A : Type ℓ} (a b : A) → some a ≡ some b → a ≡ b
some_eq a b h = cc

module _ {ℓ κ} {A : Type ℓ} {K : Type κ} (o : Ord K) (key : A → K) where
  unfoldable pub insert : A → List A → List A
  insert x [] = x ∷ []
  insert x (y ∷ ys) = if o.le (key x) (key y) then x ∷ y ∷ ys else y ∷ insert x ys

  -- `sorted(xs, key=key)`
  unfoldable pub sorted : List A → List A
  unfolding insert
  sorted [] = []
  sorted (x ∷ xs) = insert x (sorted xs)

  -- Every element is at most all that stand behind it.
  abbrev pub IsSorted : List A → Type 0
  IsSorted [] = Unit
  IsSorted (x ∷ xs) = All (λ y. o.le (key x) (key y) ≡ true) xs × IsSorted xs

  All-insert {μ} : (P : A → Type μ) (x : A) (xs : List A) → P x → All P xs → All P (insert x xs)
  unfolding insert
  All-insert P x [] p h = (p, tt)
  All-insert P x (y ∷ ys) p h = elim (Bool-cases (o.le (key x) (key y))) [
    | inl e ↦ rw e (p, h)
    | inr e ↦ rw e (h.0, All-insert P x ys p h.1)
  ]

  pub All-sorted {μ} : (P : A → Type μ) (xs : List A) → All P xs → All P (sorted xs)
  unfolding sorted
  All-sorted P [] h = tt
  All-sorted P (x ∷ xs) h = All-insert P x (sorted xs) h.0 (All-sorted P xs h.1)

  insert-IsSorted : (x : A) (xs : List A) → IsSorted xs → IsSorted (insert x xs)
  unfolding insert
  insert-IsSorted x [] h = (tt, tt)
  insert-IsSorted x (y ∷ ys) h = elim (Bool-cases (o.le (key x) (key y))) [
    | inl e ↦ rw e ((e, All-imp _ _ ys (λ z k. o.trans (key x) (key y) (key z) e k) h.0), h)
    | inr e ↦
        rw e (All-insert _ x ys (le_of_not-le o (key x) (key y) e) h.0, insert-IsSorted x ys h.1)
  ]

  -- The result is in order.
  pub sorted-IsSorted : (xs : List A) → IsSorted (sorted xs)
  unfolding sorted
  sorted-IsSorted [] = tt
  sorted-IsSorted (x ∷ xs) = insert-IsSorted x (sorted xs) (sorted-IsSorted xs)

  insert_first :
      (x : A) (xs : List A) → All (λ y. o.le (key x) (key y) ≡ true) xs → insert x xs ≡ x ∷ xs
  unfolding insert
  insert_first x [] h = refl
  insert_first x (y ∷ ys) h = rw h.0

  keep-insert_in :
      (p : A → Bool) (x : A) (xs : List A)
      → IsSorted xs
      → p x ≡ true
      → keep p (insert x xs) ≡ insert x (keep p xs)
  unfolding insert
  keep-insert_in p x [] s h = rw h
  keep-insert_in p x (y ∷ ys) s h = elim (Bool-cases (o.le (key x) (key y))) [
    | inl e ↦ rw e (
        rw h (
          sym (
            insert_first x (keep p (y ∷ ys)) (
              All-keep _ p (y ∷ ys)
                (e, All-imp _ _ ys (λ z k. o.trans (key x) (key y) (key z) e k) s.0)))))
    | inr e ↦ elim (Bool-cases (p y)) [
      | inl k ↦ rw e (rw k (rw e (ap (◌∷◌ y) (keep-insert_in p x ys s.1 h))))
      | inr k ↦ rw e (rw k (keep-insert_in p x ys s.1 h))
    ]
  ]

  keep-insert_out :
      (p : A → Bool) (x : A) (xs : List A) → p x ≡ false → keep p (insert x xs) ≡ keep p xs
  unfolding insert
  keep-insert_out p x [] h = rw h
  keep-insert_out p x (y ∷ ys) h = elim (Bool-cases (o.le (key x) (key y))) [
    | inl e ↦ rw e (rw h refl)
    | inr e ↦ elim (Bool-cases (p y)) [
      | inl k ↦ rw e (rw k (ap (◌∷◌ y) (keep-insert_out p x ys h)))
      | inr k ↦ rw e (rw k (keep-insert_out p x ys h))
    ]
  ]

  -- Selecting from a sorted list is sorting what is selected.
  pub keep-sorted : (p : A → Bool) (xs : List A) → keep p (sorted xs) ≡ sorted (keep p xs)
  unfolding sorted
  keep-sorted p [] = refl
  keep-sorted p (x ∷ xs) = elim (Bool-cases (p x)) [
    | inl e ↦ rw e (
        keep-insert_in p x (sorted xs) (sorted-IsSorted xs) e
        ∙ ap (λ l. insert x l) (keep-sorted p xs))
    | inr e ↦ rw e (keep-insert_out p x (sorted xs) e ∙ keep-sorted p xs)
  ]

  -- The loop of `max(...)`: a later element wins only if its key is greater.
  unfoldable pub max_from : A → List A → A
  max_from best [] = best
  max_from best (x ∷ xs) = max_from (if o.le (key x) (key best) then best else x) xs

  -- The loop of `min(...)`.
  unfoldable pub min_from : A → List A → A
  min_from best [] = best
  min_from best (x ∷ xs) = min_from (if o.le (key best) (key x) then best else x) xs

  -- `max(xs, key=key, default=None)`
  unfoldable pub max_by : List A → Option A
  max_by [] = none
  max_by (x ∷ xs) = some (max_from x xs)

  -- `min(xs, key=key, default=None)`
  unfoldable pub min_by : List A → Option A
  min_by [] = none
  min_by (x ∷ xs) = some (min_from x xs)

  max_from-ge :
      (best : A) (xs : List A) (r : A)
      → max_from best xs ≡ r
      → All (λ y. o.le (key y) (key r) ≡ true) (best ∷ xs)
  unfolding max_from
  max_from-ge best [] r h = (rw h (le_refl o (key r)), tt)
  max_from-ge best (x ∷ xs) r h = elim (Bool-cases (o.le (key x) (key best))) [
    | inl e ↦
        let ih = max_from-ge best xs r (rw e at h) in
        (ih.0, (o.trans (key x) (key best) (key r) e ih.0, ih.1))
    | inr e ↦
        let ih = max_from-ge x xs r (rw e at h) in
        (o.trans (key best) (key x) (key r) (le_of_not-le o (key x) (key best) e) ih.0, ih)
  ]

  -- What `max` returns is at least every element.
  pub max_by-ge :
      (xs : List A) {m : A} → max_by xs ≡ some m → All (λ y. o.le (key y) (key m) ≡ true) xs
  unfolding max_by
  max_by-ge [] h = tt
  max_by-ge (x ∷ xs) {m} h = max_from-ge x xs m (cc)

  min_from-le :
      (best : A) (xs : List A) (r : A)
      → min_from best xs ≡ r
      → All (λ y. o.le (key r) (key y) ≡ true) (best ∷ xs)
  unfolding min_from
  min_from-le best [] r h = (rw h (le_refl o (key r)), tt)
  min_from-le best (x ∷ xs) r h = elim (Bool-cases (o.le (key best) (key x))) [
    | inl e ↦
        let ih = min_from-le best xs r (rw e at h) in
        (ih.0, (o.trans (key r) (key best) (key x) ih.0 e, ih.1))
    | inr e ↦
        let ih = min_from-le x xs r (rw e at h) in
        (o.trans (key r) (key x) (key best) ih.0 (le_of_not-le o (key best) (key x) e), ih)
  ]

  -- What `min` returns is at most every element.
  pub min_by-le :
      (xs : List A) {m : A} → min_by xs ≡ some m → All (λ y. o.le (key m) (key y) ≡ true) xs
  unfolding min_by
  min_by-le [] h = tt
  min_by-le (x ∷ xs) {m} h = min_from-le x xs m (cc)

  max_from-All {μ} :
      (P : A → Type μ) (best : A) (xs : List A) → P best → All P xs → P (max_from best xs)
  unfolding max_from
  max_from-All P best [] p h = p
  max_from-All P best (x ∷ xs) p h = elim (Bool-cases (o.le (key x) (key best))) [
    | inl e ↦ rw e (max_from-All P best xs p h.1)
    | inr e ↦ rw e (max_from-All P x xs h.0 h.1)
  ]

  -- There is a best element if there is an element.
  pub max_by-eq-none : (xs : List A) → max_by xs ≡ none → xs ≡ []
  unfolding max_by
  max_by-eq-none [] h = refl
  max_by-eq-none (x ∷ xs) h = absurd (cc)

  pub min_by-eq-none : (xs : List A) → min_by xs ≡ none → xs ≡ []
  unfolding min_by
  min_by-eq-none [] h = refl
  min_by-eq-none (x ∷ xs) h = absurd (cc)

  -- What `max` returns is one of the elements: it has each property that they all have.
  pub max_by-All {μ} : (P : A → Type μ) (xs : List A) {m : A} → max_by xs ≡ some m → All P xs → P m
  unfolding max_by
  max_by-All P [] h a = absurd (ground arith)
  max_by-All P (x ∷ xs) {m} h a =
      subst P (some_eq (max_from x xs) m h) (max_from-All P x xs a.0 a.1)

  min_from-All {μ} :
      (P : A → Type μ) (best : A) (xs : List A) → P best → All P xs → P (min_from best xs)
  unfolding min_from
  min_from-All P best [] p h = p
  min_from-All P best (x ∷ xs) p h = elim (Bool-cases (o.le (key best) (key x))) [
    | inl e ↦ rw e (min_from-All P best xs p h.1)
    | inr e ↦ rw e (min_from-All P x xs h.0 h.1)
  ]

  pub min_by-All {μ} : (P : A → Type μ) (xs : List A) {m : A} → min_by xs ≡ some m → All P xs → P m
  unfolding min_by
  min_by-All P [] h a = absurd (ground arith)
  min_by-All P (x ∷ xs) {m} h a =
      subst P (some_eq (min_from x xs) m h) (min_from-All P x xs a.0 a.1)

  length-insert : (x : A) (xs : List A) → length (insert x xs) ≡ suc (length xs)
  unfolding insert
  length-insert x [] = refl
  length-insert x (y ∷ ys) = ground (arith, length-insert x ys)

  pub length-sorted : (xs : List A) → length (sorted xs) ≡ length xs
  unfolding sorted
  length-sorted [] = refl
  length-sorted (x ∷ xs) = omega (arith, length-insert x (sorted xs), length-sorted xs)

module _ {ℓ κ} {A : Type ℓ} {K : Type κ} (o : Ord K) (f g : A → K) where
  insert-same :
      (x : A) (xs : List A)
      → f x ≡ g x
      → All (λ y. f y ≡ g y) xs
      → insert o f x xs ≡ insert o g x xs
  unfolding insert
  insert-same x [] e h = refl
  insert-same x (y ∷ ys) e h =
      rw (e, h.0)
        (ap (λ rest. if o.le (g x) (g y) then x ∷ y ∷ ys else y ∷ rest) (insert-same x ys e h.1))

  -- Two keys that agree on the elements sort alike.
  pub sorted-same : (xs : List A) → All (λ y. f y ≡ g y) xs → sorted o f xs ≡ sorted o g xs
  unfolding sorted
  sorted-same [] h = refl
  sorted-same (x ∷ xs) h =
      insert-same x (sorted o f xs) h.0 (All-sorted o f (λ y. f y ≡ g y) xs h.1)
      ∙ ap (insert o g x) (sorted-same xs h.1)

module _ {ℓ κ} {A B : Type ℓ} {K : Type κ} (o : Ord K) (key : B → K) (f : A → B) where
  map-insert :
      (x : A) (xs : List A) → map f (insert o (λ y. key (f y)) x xs) ≡ insert o key (f x) (map f xs)
  unfolding insert
  map-insert x [] = refl
  map-insert x (y ∷ ys) = elim (Bool-cases (o.le (key (f x)) (key (f y)))) [
    | inl e ↦ rw e refl
    | inr e ↦ rw e (ap (◌∷◌ (f y)) (map-insert x ys))
  ]

  -- Sorting by the key of the image is sorting the image.
  pub map-sorted : (xs : List A) → map f (sorted o (λ y. key (f y)) xs) ≡ sorted o key (map f xs)
  unfolding sorted
  map-sorted [] = refl
  map-sorted (x ∷ xs) =
      map-insert x (sorted o (λ y. key (f y)) xs) ∙ ap (insert o key (f x)) (map-sorted xs)
