-- ===== src/Prelude/Order.antt =====
-- Orders by which the program sorts and chooses: numbers, texts (by code point), pairs of keys.
use Prim.Native.Char.{code}
use gamma_scope.Prelude.{
  ℕ, String, ◌≡◌, refl, ◌⊎◌, inl, inr, Bool, true, false, arith, leb, ltb, nat_beq, if◌then◌else◌,
}

-- A total preorder by a Boolean test: Python's `<=` on keys.
pub record Ord {ℓ} (A : Type ℓ) : Type ℓ where
  pub le : A → A → Bool
  pub total : (a b : A) → (le a b ≡ true) ⊎ (le b a ≡ true)
  pub trans : (a b c : A) → le a b ≡ true → le b c ≡ true → le a c ≡ true

pub nat_total : (a b : ℕ) → (leb a b ≡ true) ⊎ (leb b a ≡ true)
nat_total a b = ground arith

pub nat_trans : (a b c : ℕ) → leb a b ≡ true → leb b c ≡ true → leb a c ≡ true
nat_trans a b c h k = ground arith

abbrev pub nat_ord : Ord ℕ
nat_ord = record { le = leb; total = nat_total; trans = nat_trans }

-- Python compares `str` values by their code points, from the left.
unfoldable pub str_le : String → String → Bool
str_le String.[] t = true
str_le (String.◌∷◌ c s) String.[] = false
str_le (String.◌∷◌ c s) (String.◌∷◌ d t) =
    let rest = str_le s t in
    if ltb (code c) (code d) then true else if nat_beq (code c) (code d) then rest else false

pub str_total : (s t : String) → (str_le s t ≡ true) ⊎ (str_le t s ≡ true)
unfolding str_le
str_total String.[] t = inl refl
str_total (String.◌∷◌ c s) String.[] = inr refl
str_total (String.◌∷◌ c s) (String.◌∷◌ d t) = ground (arith, str_total s t)

pub str_trans : (s t u : String) → str_le s t ≡ true → str_le t u ≡ true → str_le s u ≡ true
unfolding str_le
str_trans String.[] t u h k = refl
str_trans (String.◌∷◌ c s) String.[] u h k = ground arith
str_trans (String.◌∷◌ c s) (String.◌∷◌ d t) String.[] h k = ground arith
str_trans (String.◌∷◌ c s) (String.◌∷◌ d t) (String.◌∷◌ e u) h k = ground (arith, str_trans s t u)

abbrev pub str_ord : Ord String
str_ord = record { le = str_le; total = str_total; trans = str_trans }

-- The reversed order: `ORDER BY ... DESC`, or a negated key.
module _ {ℓ} {A : Type ℓ} (o : Ord A) where
  pub dual_total : (a b : A) → (o.le b a ≡ true) ⊎ (o.le a b ≡ true)
  dual_total a b = o.total b a

  pub dual_trans : (a b c : A) → o.le b a ≡ true → o.le c b ≡ true → o.le c a ≡ true
  dual_trans a b c h k = o.trans c b a k h

  abbrev pub dual : Ord A
  dual = record { le = λ a b. o.le b a; total = dual_total; trans = dual_trans }

  pub le_refl : (a : A) → o.le a a ≡ true
  le_refl a = elim (o.total a a) [ inl h ↦ h | inr h ↦ h ]

  pub le_of_not-le : (a b : A) → o.le a b ≡ false → o.le b a ≡ true
  le_of_not-le a b h = elim (o.total a b) [ inl k ↦ ground arith | inr k ↦ k ]

-- Tuples compare from the left.
module _ {ℓ κ} {A : Type ℓ} {B : Type κ} (o : Ord A) (p : Ord B) where
  unfoldable pub lex_le : A × B → A × B → Bool
  lex_le (a, b) (c, d) = if o.le a c then (if o.le c a then p.le b d else true) else false

  pub lex_total : (x y : A × B) → (lex_le x y ≡ true) ⊎ (lex_le y x ≡ true)
  unfolding lex_le
  lex_total (a, b) (c, d) = ground (arith, o.total a c, p.total b d)

  pub lex_trans : (x y z : A × B) → lex_le x y ≡ true → lex_le y z ≡ true → lex_le x z ≡ true
  unfolding lex_le
  lex_trans (a, b) (c, d) (e, f) h k =
      ground (arith, o.trans a c e, o.trans e c a, o.trans c e a, o.trans e a c, p.trans b d f)

  abbrev pub lex : Ord (A × B)
  lex = record { le = lex_le; total = lex_total; trans = lex_trans }
