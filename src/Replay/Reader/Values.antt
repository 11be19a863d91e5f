-- ===== src/Replay/Reader/Values.antt =====
-- The values in a row of a parquet table, and what replay/parquet_reader.py makes of one value.
use gamma_scope.Prelude.{
  ℕ, zero, suc, ℤ, String, string_eq, Bool, true, false, not, ◌&&◌, ◌||◌, Option, none, some, [],
  ◌∷◌, ◌==◌, nat_beq, leb, if◌then◌else◌,
}
use gamma_scope.Prelude.Dict.{Dict, get}
use gamma_scope.Replay.Effects.{Error, overflow_error, Result, ok, err, value_error, joined}
use gamma_scope.Replay.Importer.{prefix}

-- A Python value, as `to_pylist` returns it. A float is the bit pattern of its value, a datetime
-- its instant in UTC and its own date, a date its ISO text; `other` is any other object.
pub data Value : Type 0 where
  null : Value
  bool : Bool → Value
  int : ℤ → Value
  float : ℕ → Value
  str : String → Value
  datetime : ℕ → String → Value
  date : String → Value
  other : ℕ → Value

abbrev pub Row : Type 0
Row = Dict String Value

-- What the code takes from Python's standard library.
pub record Library : Type 0 where
  pub str : Value → String
  pub repr : Value → String
  pub number_text : ℕ → String
  pub strip : String → String
  pub lower : String → String
  -- `float(value)`; `none` is a `TypeError` or a `ValueError`
  pub float_of : Value → Option ℕ
  pub is_finite : ℕ → Bool
  -- `value > 0`, `value == 1.0`, `value == 0.0`
  pub is_positive : ℕ → Bool
  pub is_one : ℕ → Bool
  pub is_zero : ℕ → Bool
  -- `int(value)` of a float for which `is_integer()` holds
  pub int_of_float : ℕ → Option ℤ
  -- `int(text)` of a text that `[+-]?\d+` matches
  pub int_of_text : String → Option ℤ
  -- the group `fraction` of a full match of `TIMESTAMP_TEXT_PATTERN`
  pub fraction_of : String → Option (Option String)
  -- `datetime.fromisoformat` after the change of a last `Z` to `+00:00`, and `astimezone(UTC)`, which
  -- raises an `OverflowError` for a time that UTC takes out of the range of datetimes
  pub instant_of : String → Result ℕ
  pub format_datetime : ℕ → String
  pub is_digits : String → Bool
  -- `date(int(year), int(month), int(day)).isoformat()`
  pub date_of : String → String → String → Option String
  -- `date.fromisoformat(text).isoformat()`
  pub date_of_iso : String → Option String
  -- `str(int(strike))` or `f"{strike:g}"`
  pub strike_text : ℕ → String

-- `value is None`
abbrev pub is_null : Value → Bool
is_null null = true
is_null _ = false

abbrev pub or_null : Option Value → Value
or_null none = null
or_null (some v) = v

-- `row.get(column)`
unfoldable pub cell : String → Row → Value
cell column row = or_null (get column row)

abbrev pub text_length : String → ℕ
text_length String.[] = 0
text_length (String.◌∷◌ c s) = suc (text_length s)

-- `text[n:]`
unfoldable pub suffix : ℕ → String → String
suffix zero s = s
suffix (suc n) String.[] = ""
suffix (suc n) (String.◌∷◌ c s) = suffix n s

-- `text[i]`
abbrev pub char_at : ℕ → String → String
char_at i s = prefix 1 (suffix i s)

module _ (lib : Library) where
  -- `_source_id_or_none`
  abbrev pub nonempty : String → Option String
  nonempty s = if s == "" then none else some s

  unfoldable pub source_id_or_none : Value → Option String
  source_id_or_none v = if is_null v then none else nonempty (lib.strip (lib.str v))

  abbrev pub date_of_text : String → Option String
  date_of_text s =
      let digits = lib.date_of (prefix 4 s) (prefix 2 (suffix 4 s)) (suffix 6 s) in
      if nat_beq (text_length s) 8 && lib.is_digits s
      then digits
      else if nat_beq (text_length s) 10 && char_at 4 s == "-" && char_at 7 s == "-"
      then lib.date_of_iso s
      else none

  -- `_date_string`: `none` is a `ValueError`.
  unfoldable pub date_string : Value → Option String
  date_string (datetime at day) = some day
  date_string (date day) = some day
  date_string null = none
  date_string v = date_of_text (lib.strip (lib.str v))

  abbrev pub is_too_fine : Option String → Bool
  is_too_fine none = false
  is_too_fine (some fraction) = not (leb (text_length fraction) 6)

  abbrev pub formatted : Result ℕ → Result String
  formatted (ok at) = ok (lib.format_datetime at)
  formatted (err e) = err e

  abbrev pub timestamp_of : Value → String → Option (Option String) → Result String
  timestamp_of v s none =
      err (
        value_error (joined ("timestamp must be an ISO datetime with seconds: " ∷ lib.repr v ∷ [])))
  timestamp_of v s (some fraction) =
      if is_too_fine fraction
      then err
          (value_error (joined ("timestamp precision finer than microseconds: " ∷ lib.repr v ∷ [])))
      else formatted (lib.instant_of s)

  -- `_iso_time`
  unfoldable pub iso_time : Value → Result String
  iso_time (datetime at day) = ok (lib.format_datetime at)
  iso_time (date day) = err (
      value_error
        (joined ("timestamp must include an explicit time component: " ∷ lib.repr (date day) ∷ [])))
  iso_time v = timestamp_of v (lib.strip (lib.str v)) (lib.fraction_of (lib.strip (lib.str v)))

  -- What `except (TypeError, ValueError)` lets pass.
  abbrev pub escaping : Result String → Option Error
  escaping (ok s) = none
  escaping (err (overflow_error m)) = some (overflow_error m)
  escaping (err e) = none

  -- For a time from which nothing escapes.
  abbrev pub time_or_none : Result String → Option String
  time_or_none (ok s) = some s
  time_or_none (err e) = none

  -- `_optional_iso_time`
  abbrev pub optional_iso_time : Value → Option String
  optional_iso_time v = time_or_none (iso_time v)

  abbrev pub bool_of_float : Option ℕ → Option Bool
  bool_of_float none = none
  bool_of_float (some x) =
      if lib.is_one x then some true else if lib.is_zero x then some false else none

  abbrev pub bool_of_text : String → Option Bool
  bool_of_text s =
      if s == "true" || s == "1"
      then some true
      else if s == "false" || s == "0"
      then some false
      else none

  -- `_parse_bool`, and `_optional_bool`: `none` is a `ValueError`.
  unfoldable pub parse_bool : Value → Option Bool
  parse_bool (bool b) = some b
  parse_bool (int n) = bool_of_float (lib.float_of (int n))
  parse_bool (float x) = bool_of_float (lib.float_of (float x))
  parse_bool (str s) = bool_of_text (lib.lower (lib.strip s))
  parse_bool _ = none

-- The result of `_parse_finite_float`: a value, `_NonFiniteNumericError`, or another error.
pub data Number : Type 0 where
  finite : ℕ → Number
  non_finite : Number
  invalid : Number

module _ (lib : Library) where
  abbrev pub number_of : Option ℕ → Number
  number_of none = invalid
  number_of (some x) = if lib.is_finite x then finite x else non_finite

  unfoldable pub parse_finite_float : Value → Number
  parse_finite_float (bool b) = invalid
  parse_finite_float v = number_of (lib.float_of v)

  abbrev pub whole : ℕ → Option ℤ
  whole x = if lib.is_finite x then lib.int_of_float x else none

  -- `_parse_int`: `none` is a `ValueError`.
  unfoldable pub parse_int : Value → Option ℤ
  parse_int (int n) = some n
  parse_int (float x) = whole x
  parse_int (str s) = lib.int_of_text (lib.strip s)
  parse_int _ = none

  abbrev pub is_true : Option Bool → Bool
  is_true (some true) = true
  is_true _ = false

  -- `_is_valid_quote`
  unfoldable pub is_valid_quote : Row → Bool
  unfolding cell parse_bool
  is_valid_quote row =
      is_true (parse_bool lib (cell "quote_valid" row))
      && not (is_null (cell "bid" row))
      && not (is_null (cell "ask" row))
      && not (is_null (cell "mid" row))
