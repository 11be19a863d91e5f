-- ===== src/Replay/Reader/Checked.antt =====
-- The values of replay/parquet_reader.py that pass a check, and the parsers that follow it.
use gamma_scope.Prelude.{
  ℕ, ℤ, String, string_eq, ◌≡◌, refl, Bool, true, false, Option, none, some, List, [], ◌∷◌, ◌++◌,
  ◌==◌, ◌||◌, inl, inr, arith, Bool-cases,
}
use gamma_scope.Prelude.Dict.{get}
use gamma_scope.Replay.Effects.{Result, ok, err}
use gamma_scope.Replay.Tables.{call, put}
use gamma_scope.Replay.Publish.{and_then}
use gamma_scope.Replay.Reader.Values.{
  Value, is_null, Row, Library, or_null, cell, source_id_or_none, iso_time, parse_finite_float,
  Number, finite, non_finite, invalid, parse_int,
}
use gamma_scope.Replay.Reader.Rules.{
  required_source_id, required_timestamp, optional_numeric, required_numeric, optional_int,
  invalid_number, invalid_integer, is_some, blank_source_id, invalid_timestamp, is_option_type,
  or_empty_text, option_type_text, invalid_option_type,
}
use gamma_scope.Replay.Reader.Normalize.{
  value_or_error, item, float_or_error, float_value, optional_float, positive_optional_float,
  if_positive, positive_only, some_float, int_or_error, int_or_default, int_or_none, some_int,
  right_of, right_of_text,
}

-- A step that returns.
abbrev pub IsOk {ℓ} : {A : Type ℓ} → Result A → Type ℓ
IsOk {A} r = (a : A) × (r ≡ ok a)

-- A step that returns a value with a property.
abbrev pub Gives {ℓ κ} : {A : Type ℓ} → (A → Type κ) → Result A → Type (ℓ ⊔ κ)
Gives {A} Q r = (a : A) × (r ≡ ok a) × Q a

pub and_then-Gives {ℓ κ μ} :
    {A : Type ℓ} {B : Type κ} (Q : B → Type μ) (r : Result A) (f : A → Result B)
    → IsOk r
    → ((a : A) → r ≡ ok a → Gives Q (f a))
    → Gives Q (and_then r f)
and_then-Gives Q (ok a) f h k = k a refl
and_then-Gives Q (err e) f (a, h) k = absurd (cc)

-- The same for a step of which the value is known.
pub and_then_of_ok {ℓ κ μ} :
    {A : Type ℓ} {B : Type κ} (Q : B → Type μ) (r : Result A) (f : A → Result B) (a : A)
    → r ≡ ok a
    → Gives Q (f a)
    → Gives Q (and_then r f)
and_then_of_ok Q r f a h k = rw h k

pub append-eq-nil {ℓ} : {A : Type ℓ} (xs ys : List A) → xs ++ ys ≡ [] → (xs ≡ []) × (ys ≡ [])
append-eq-nil [] ys h = (refl, h)
append-eq-nil (x ∷ xs) ys h = absurd (cc)

module _ (lib : Library) (table column : String) (i : ℕ) where
  -- A column that is missing or null is not found; any other is.
  item-IsOk :
      (o : Option Value) → is_null (or_null o) ≡ false → value_or_error column o ≡ ok (or_null o)
  item-IsOk none h = absurd (cc)
  item-IsOk (some v) h = refl

  finite-IsOk :
      (v : Value) (n : Number)
      → invalid_number lib v table column i n ≡ []
      → IsOk (float_or_error lib v n)
  finite-IsOk v (finite x) h = (x, refl)
  finite-IsOk v non_finite h = absurd (cc)
  finite-IsOk v invalid h = absurd (cc)

  some_float-IsOk : (r : Result ℕ) → IsOk r → IsOk (some_float lib r)
  some_float-IsOk (ok x) h = (some x, refl)
  some_float-IsOk (err e) (x, h) = absurd (cc)

  pub optional_float-IsOk :
      (v : Value) → optional_numeric lib v table column i ≡ [] → IsOk (optional_float lib v)
  unfolding optional_numeric optional_float
  optional_float-IsOk v h = elim (Bool-cases (is_null v)) [
    | inl e ↦ rw e (none, refl)
    | inr e ↦ rw e (some_float-IsOk _ (finite-IsOk v (parse_finite_float lib v) (rw e at h)))
  ]

  if_positive-IsOk : (r : Result (Option ℕ)) → IsOk r → IsOk (positive_only lib r)
  if_positive-IsOk (ok x) h = (if_positive lib x, refl)
  if_positive-IsOk (err e) (x, h) = absurd (cc)

  pub positive_float-IsOk :
      (v : Value)
      → optional_numeric lib v table column i ≡ []
      → IsOk (positive_optional_float lib v)
  positive_float-IsOk v h = if_positive-IsOk (optional_float lib v) (optional_float-IsOk v h)

  some_float_of_required :
      (o : Option Value)
      → required_numeric lib (or_null o) table column i ≡ []
      → IsOk (and_then (value_or_error column o) (float_value lib))
  unfolding required_numeric optional_numeric
  some_float_of_required none h = absurd (cc)
  some_float_of_required (some v) h = elim (Bool-cases (is_null v)) [
    | inl e ↦ absurd (let h' = rw e at h in cc)
    | inr e ↦ finite-IsOk v (parse_finite_float lib v) (rw e at h)
  ]

  pub float_item-IsOk :
      (row : Row)
      → required_numeric lib (cell column row) table column i ≡ []
      → IsOk (and_then (item column row) (float_value lib))
  unfolding cell
  float_item-IsOk row h = some_float_of_required (get column row) h

  some_int-IsOk :
      (v : Value) (o : Option ℤ)
      → invalid_integer lib v table column i (is_some lib o) ≡ []
      → IsOk (int_or_error lib v o)
  some_int-IsOk v none h = absurd (cc)
  some_int-IsOk v (some n) h = (n, refl)

  or_none-IsOk : (r : Result ℤ) → IsOk r → IsOk (some_int lib r)
  or_none-IsOk (ok n) h = (some n, refl)
  or_none-IsOk (err e) (n, h) = absurd (cc)

  pub int_or_default-IsOk :
      (v : Value) (default : ℤ)
      → optional_int lib v table column i ≡ []
      → IsOk (int_or_default lib v default)
  unfolding optional_int int_or_default
  int_or_default-IsOk v default h = elim (Bool-cases (is_null v)) [
    | inl e ↦ rw e (default, refl)
    | inr e ↦ rw e (some_int-IsOk v (parse_int lib v) (rw e at h))
  ]

  pub int_or_none-IsOk :
      (v : Value) → optional_int lib v table column i ≡ [] → IsOk (int_or_none lib v)
  unfolding optional_int int_or_none
  int_or_none-IsOk v h = elim (Bool-cases (is_null v)) [
    | inl e ↦ rw e (none, refl)
    | inr e ↦ rw e (or_none-IsOk _ (some_int-IsOk v (parse_int lib v) (rw e at h)))
  ]

  time-IsOk :
      (v : Value) (r : Result String) → invalid_timestamp lib v table column i r ≡ [] → IsOk r
  time-IsOk v (ok s) h = (s, refl)
  time-IsOk v (err e) h = absurd (cc)

  -- A required timestamp is there and can be read.
  pub time_item-IsOk :
      (row : Row)
      → required_timestamp lib (cell column row) table column i ≡ []
      → (item column row ≡ ok (cell column row)) × IsOk (iso_time lib (cell column row))
  unfolding cell required_timestamp
  time_item-IsOk row h = elim (Bool-cases (is_null (or_null (get column row)))) [
    | inl e ↦ absurd (let h' = rw e at h in cc)
    | inr e ↦ (item-IsOk (get column row) e, time-IsOk _ _ (rw e at h))
  ]

module _ (lib : Library) (table : String) (i : ℕ) where
  id-found :
      (o : Option String) → blank_source_id lib table i o ≡ [] → (id : String) × (o ≡ some id)
  id-found none h = absurd (cc)
  id-found (some id) h = (id, refl)

  -- A required snapshot id is there and is not blank.
  pub id_item-IsOk :
      (row : Row)
      → required_source_id lib (cell "snapshot_id" row) table i ≡ []
      → (item "snapshot_id" row ≡ ok (cell "snapshot_id" row))
        × ((id : String) × (source_id_or_none lib (cell "snapshot_id" row) ≡ some id))
  unfolding cell required_source_id
  id_item-IsOk row h = elim (Bool-cases (is_null (or_null (get "snapshot_id" row)))) [
    | inl e ↦ absurd (let h' = rw e at h in cc)
    | inr e ↦
        (item-IsOk lib table "snapshot_id" i (get "snapshot_id" row) e, id-found _ (rw e at h))
  ]

  -- The texts that the check of the option type admits are those that have a right.
  right-IsOk : (v : Value) (s : String) → is_option_type lib s ≡ true → IsOk (right_of_text lib v s)
  right-IsOk v s h = elim (Bool-cases (s == "c" || s == "call")) [
    | inl e ↦ rw e (call, refl)
    | inr e ↦ rw e (elim (Bool-cases (s == "p" || s == "put")) [
      | inl e' ↦ rw e' (put, refl)
      | inr e' ↦ absurd (ground arith)
    ])
  ]

  right_found :
      (o : Option Value)
      → lib.lower (lib.strip (lib.str (Value.str ""))) ≡ ""
      → is_option_type lib (lib.lower (lib.strip (lib.str (or_empty_text lib o)))) ≡ true
      → (v : Value) × (value_or_error "option_type" o ≡ ok v) × IsOk (right_of lib v)
  right_found none plain h = absurd (let h' : is_option_type lib "" ≡ true = rw plain at h in cc)
  right_found (some v) plain h = (v, refl, right-IsOk v (lib.lower (lib.strip (lib.str v))) h)

  not_reported : (row : Row) (b : Bool) → invalid_option_type lib row i b ≡ [] → b ≡ true
  not_reported row true h = refl
  not_reported row false h = absurd (cc)

  -- An option type that passes its check has a right; an empty text has to stay one.
  pub right_item-IsOk :
      (row : Row)
      → lib.lower (lib.strip (lib.str (Value.str ""))) ≡ ""
      → invalid_option_type lib row i (is_option_type lib (option_type_text lib row)) ≡ []
      → (v : Value) × (item "option_type" row ≡ ok v) × IsOk (right_of lib v)
  right_item-IsOk row plain h = right_found (get "option_type" row) plain (not_reported row _ h)
