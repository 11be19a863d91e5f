-- ===== src/Moomoo/Strikes.antt =====
-- `select_atm_strikes` of moomoo_snapshot.py. The code only compares strikes, and compares their
-- distances `abs(strike - spot)`: both are of any type with a total order, the distance a function.
-- A float that is no NaN is such a value.
pub mod Window
use gamma_scope.Prelude.{
  ℕ, suc, ◌+◌, ◌-◌, min, Bool, true, false, ◌||◌, Option, none, some, List, [], ◌∷◌, Eq, ◌==◌,
  length, take, drop, if◌then◌else◌,
}
use gamma_scope.Prelude.Order.{Ord, lex}
use gamma_scope.Prelude.Sort.{sorted, min_by}

module _ {A : Type 0} ⦃e : Eq A⦄ where
  abbrev pub is_member : A → List A → Bool
  is_member x [] = false
  is_member x (y ∷ ys) = x == y || is_member x ys

  -- The set of the strikes.
  abbrev pub unique : List A → List A
  unique [] = []
  unique (x ∷ xs) = let rest = unique xs in if is_member x xs then rest else x ∷ rest

module _ {A : Type 0} where
  abbrev pub indexed : ℕ → List A → List (ℕ × A)
  indexed n [] = []
  indexed n (x ∷ xs) = (n, x) ∷ indexed (suc n) xs

  -- `ordered[start:end]` round the nearest index.
  abbrev pub window : ℕ → ℕ → List A → Option (ℕ × A) → List A
  window down up ordered none = []
  window down up ordered (some (i, x)) =
      let start = i - down in
      let end = min (length ordered) (i + up + 1) in take (end - start) (drop start ordered)

module _ {A D : Type 0} ⦃e : Eq A⦄ (o : Ord A) (od : Ord D) (distance : A → D) where
  abbrev pub by_distance : ℕ × A → D × A
  by_distance (i, x) = (distance x, x)

  abbrev pub nearest_entry : List A → Option (ℕ × A)
  nearest_entry ordered = min_by (lex od o) by_distance (indexed 0 ordered)

  abbrev pub ordered_strikes : List A → List A
  ordered_strikes strikes = sorted o (λ x. x) (unique strikes)

  unfoldable pub select_atm_strikes : List A → ℕ → ℕ → List A
  select_atm_strikes strikes down up =
      window down up (ordered_strikes strikes) (nearest_entry (ordered_strikes strikes))
