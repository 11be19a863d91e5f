-- ===== src/Moomoo/Strikes/Window.antt =====
-- The window of `select_atm_strikes` of moomoo_snapshot.py against all strikes.
use mathlib.Core.Path.{subst}
use gamma_scope.Prelude.{
  ℕ, zero, suc, ◌+◌, ◌-◌, ◌≤◌, ◌<◌, min, ◌≡◌, refl, sym, ◌∙◌, ap, true, some, List, [], ◌∷◌, Eq,
  ◌==◌, length, get_elem?, take, drop, All, All-imp, length-take, arith, inl, inr, Bool-cases,
  Option-cases,
}
use gamma_scope.Prelude.Order.{Ord, lex, lex_le}
use gamma_scope.Prelude.Sort.{sorted, insert, min_by-le, min_by-All, min_by-eq-none}
use gamma_scope.Moomoo.Strikes.{
  is_member, unique, indexed, window, by_distance, nearest_entry, ordered_strikes,
  select_atm_strikes,
}

module _ {A : Type 0} where
  get_elem?-drop : (n i : ℕ) (xs : List A) → get_elem? (drop n xs) i ≡ get_elem? xs (n + i)
  get_elem?-drop zero i xs = ap (get_elem? xs) (omega arith)
  get_elem?-drop (suc n) i [] = refl
  get_elem?-drop (suc n) i (x ∷ xs) = get_elem?-drop n i xs ∙ ap (get_elem? (x ∷ xs)) (shift n i)
    where
      shift : (n i : ℕ) → suc (n + i) ≡ suc n + i
      shift n i = omega arith

  get_elem?-take : (n i : ℕ) (xs : List A) → i < n → get_elem? (take n xs) i ≡ get_elem? xs i
  get_elem?-take zero i xs h = absurd (omega (arith, h))
  get_elem?-take (suc n) i [] h = refl
  get_elem?-take (suc n) zero (x ∷ xs) h = refl
  get_elem?-take (suc n) (suc i) (x ∷ xs) h = get_elem?-take n i xs (omega (arith, h))

  get_elem?_bound : (i : ℕ) (x : A) (xs : List A) → get_elem? xs i ≡ some x → i < length xs
  get_elem?_bound i x [] h = absurd (ground arith)
  get_elem?_bound zero x (y ∷ xs) h = omega arith
  get_elem?_bound (suc i) x (y ∷ xs) h = omega (arith, get_elem?_bound i x xs h)

  indexed-get_elem? :
      (n : ℕ) (xs : List A)
      → All (λ e. (n ≤ e.0) × (get_elem? xs (e.0 - n) ≡ some e.1)) (indexed n xs)
  indexed-get_elem? n [] = tt
  indexed-get_elem? n (x ∷ xs) = (
    (omega arith, ap (get_elem? (x ∷ xs)) (zero_gap n)),
    All-imp _ _ (indexed (suc n) xs)
        (λ e h. (omega (arith, h.0), ap (get_elem? (x ∷ xs)) (suc_gap e.0 n h.0) ∙ h.1))
        (indexed-get_elem? (suc n) xs),
  )
    where
      zero_gap : (n : ℕ) → n - n ≡ 0
      zero_gap n = omega arith

      suc_gap : (i n : ℕ) → suc n ≤ i → i - n ≡ suc (i - suc n)
      suc_gap i n h = omega (arith, h)

  indexed-All : (P : A → Type 0) (n : ℕ) (xs : List A) → All (λ e. P e.1) (indexed n xs) → All P xs
  indexed-All P n [] h = tt
  indexed-All P n (x ∷ xs) h = (h.0, indexed-All P (suc n) xs h.1)

  All-of_insert :
      (o : Ord A) (P : A → Type 0) (x : A) (xs : List A)
      → All P (insert o (λ y. y) x xs)
      → P x × All P xs
  unfolding insert
  All-of_insert o P x [] h = h
  All-of_insert o P x (y ∷ xs) h = elim (Bool-cases (o.le x y)) [
    | inl first ↦ rw first at h
    | inr later ↦
        let h' = rw later at h in let (p, rest) = All-of_insert o P x xs h'.1 in (p, (h'.0, rest))
  ]

  All-of_sorted :
      (o : Ord A) (P : A → Type 0) (xs : List A) → All P (sorted o (λ y. y) xs) → All P xs
  unfolding sorted
  All-of_sorted o P [] h = tt
  All-of_sorted o P (x ∷ xs) h =
      let (p, rest) = All-of_insert o P x (sorted o (λ y. y) xs) h in (p, All-of_sorted o P xs rest)

module _ {A : Type 0} ⦃e : Eq A⦄ (P : A → Type 0) where
  All-of_member : (x : A) (xs : List A) → is_member x xs ≡ true → All P xs → P x
  All-of_member x [] h k = absurd (cc)
  All-of_member x (y ∷ ys) h k = elim (Bool-cases (x == y)) [
    | inl same ↦ subst P (sym ((e.test_iff x y).0 same)) k.0
    | inr other ↦ All-of_member x ys (rw other at h) k.1
  ]

  All-of_unique : (xs : List A) → All P (unique xs) → All P xs
  All-of_unique [] h = tt
  All-of_unique (x ∷ xs) h = elim (Bool-cases (is_member x xs)) [
    | inl old ↦ let rest = All-of_unique xs (rw old at h) in (All-of_member x xs old rest, rest)
    | inr new ↦ let h' = rw new at h in (h'.0, All-of_unique xs h'.1)
  ]

module _ {A D : Type 0} ⦃e : Eq A⦄ (o : Ord A) (od : Ord D) (distance : A → D) where
  -- What holds of all ordered strikes holds of all strikes.
  All-of_ordered :
      (P : A → Type 0) (strikes : List A)
      → All P (ordered_strikes o od distance strikes)
      → All P strikes
  All-of_ordered P strikes h = All-of_unique P strikes (All-of_sorted o P (unique strikes) h)

  lex_le-first : (a b : D) (x y : A) → lex_le od o (a, x) (b, y) ≡ true → od.le a b ≡ true
  unfolding lex_le
  lex_le-first a b x y h = ground arith

  nearest_entry-le :
      (ordered : List A) (i : ℕ) (m : A)
      → nearest_entry o od distance ordered ≡ some (i, m)
      → All (λ s. od.le (distance m) (distance s) ≡ true) ordered
  nearest_entry-le ordered i m h =
      indexed-All (λ s. od.le (distance m) (distance s) ≡ true) 0 ordered
        (All-imp _ _ (indexed 0 ordered)
          (λ en k. lex_le-first (distance m) (distance en.1) m en.1 k)
          (min_by-le (lex od o) (by_distance o od distance) (indexed 0 ordered) h))

  nearest_entry-get_elem? :
      (ordered : List A) (i : ℕ) (m : A)
      → nearest_entry o od distance ordered ≡ some (i, m)
      → get_elem? ordered i ≡ some m
  nearest_entry-get_elem? ordered i m h =
      ap (get_elem? ordered) (omega arith)
      ∙ (min_by-All (lex od o) (by_distance o od distance)
          (λ en. (0 ≤ en.0) × (get_elem? ordered (en.0 - 0) ≡ some en.1)) (indexed 0 ordered) h
          (indexed-get_elem? 0 ordered)).1

  window-get_elem? :
      (down up i : ℕ) (m : A) (ordered : List A)
      → get_elem? ordered i ≡ some m
      → get_elem? (window down up ordered (some (i, m))) (i - (i - down)) ≡ some m
  window-get_elem? down up i m ordered h =
      let bound = get_elem?_bound i m ordered h in
      get_elem?-take _ (i - (i - down)) (drop (i - down) ordered) (omega (arith, bound))
      ∙ get_elem?-drop (i - down) (i - (i - down)) ordered
      ∙ ap (get_elem? ordered) (omega arith)
      ∙ h

  window_bound :
      (down up i : ℕ) (m : A) (ordered : List A)
      → length (window down up ordered (some (i, m))) ≤ down + 1 + up
  window_bound down up i m ordered = omega (
    arith,
    length-take (min (length ordered) (i + up + 1) - (i - down)) (drop (i - down) ordered),
  )

  -- Where there are strikes, the selection holds one that no strike is nearer to the spot than, and
  -- at most `down` and `up` strikes beside it.
  pub select_atm_strikes_nearest :
      (s : A) (strikes : List A) (down up : ℕ)
      → (m : A) × (k : ℕ) × (get_elem? (select_atm_strikes o od distance (s ∷ strikes) down up) k
          ≡ some m)
        × All (λ x. od.le (distance m) (distance x) ≡ true) (s ∷ strikes)
        × (length (select_atm_strikes o od distance (s ∷ strikes) down up) ≤ down + 1 + up)
  unfolding select_atm_strikes
  select_atm_strikes_nearest s strikes down up =
      let ordered = ordered_strikes o od distance (s ∷ strikes) in
      elim (Option-cases (nearest_entry o od distance ordered)) [
        | inl missing ↦
            let nothing =
              min_by-eq-none (lex od o) (by_distance o od distance) (indexed 0 ordered) missing in
            let empty : All (λ _. ⊥) ordered =
              indexed-All (λ _. ⊥) 0 ordered (subst (All (λ _. ⊥)) (sym nothing) tt) in
            absurd (All-of_ordered (λ _. ⊥) (s ∷ strikes) empty).0
        | inr ((i, m), found) ↦ rw found (
          m,
          i - (i - down),
          window-get_elem? down up i m ordered (nearest_entry-get_elem? ordered i m found),
          All-of_ordered _ (s ∷ strikes) (nearest_entry-le ordered i m found),
          window_bound down up i m ordered,
        )
      ]
