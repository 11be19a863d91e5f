-- ===== src/Replay/Reader/Rules.antt =====
-- The checks of one row of replay/parquet_reader.py. A check's reports, in order, are what
-- `_add_validation_error` is called with: a list takes the single messages, a limiter all of it.
use gamma_scope.Prelude.{
  ℕ, String, string_eq, Bool, true, false, ◌||◌, Option, none, some, List, [], ◌∷◌, ◌++◌, ◌==◌,
  if◌then◌else◌,
}
use gamma_scope.Prelude.Dict.{get}
use gamma_scope.Replay.Effects.{
  Error, Result, ok, err, key_error, value_error, unique_violation, io_error, overflow_error,
  data_error, joined,
}
use gamma_scope.Replay.Reader.Values.{
  Value, str, is_null, Row, Library, cell, source_id_or_none, date_string, iso_time, parse_bool,
  parse_finite_float, Number, finite, non_finite, invalid, parse_int,
}
use gamma_scope.Replay.Reader.Reports.{Report}

abbrev pub snapshots_table : String
snapshots_table = "snapshots.parquet"

abbrev pub quotes_table : String
quotes_table = "quotes.parquet"

module _ (lib : Library) where
  -- `f"{table} row {i} {what}"` and `f"{table} {summary}"`
  abbrev pub report : String → String → ℕ → List String → List String → Report
  report table kind i what summary = record {
    key = joined (table ∷ ":" ∷ kind ∷ []);
    row_index = i;
    single_message = joined (table ∷ " row " ∷ lib.number_text i ∷ " " ∷ joined what ∷ []);
    summary_head = joined (table ∷ " " ∷ joined summary ∷ []);
  }

  abbrev pub missing_source_id : String → ℕ → Report
  missing_source_id table i =
      report table "snapshot_id:missing" i ("missing snapshot_id" ∷ []) ("missing snapshot_id" ∷ [])

  abbrev pub blank_source_id : String → ℕ → Option String → List Report
  blank_source_id table i (some id) = []
  blank_source_id table i none =
      report table "snapshot_id:blank" i ("blank snapshot_id" ∷ []) ("blank snapshot_id" ∷ []) ∷ []

  -- `_validate_required_source_id`
  unfoldable pub required_source_id : Value → String → ℕ → List Report
  required_source_id v table i =
      if is_null v
      then missing_source_id table i ∷ []
      else blank_source_id table i (source_id_or_none lib v)

  abbrev pub missing_timestamp : String → String → ℕ → Report
  missing_timestamp table column i =
      report table (joined (column ∷ ":missing_timestamp" ∷ [])) i
        ("missing required timestamp value for " ∷ column ∷ [])
        ("missing " ∷ column ∷ " timestamp" ∷ [])

  abbrev pub error_text : Error → String
  error_text (key_error m) = m
  error_text (value_error m) = m
  error_text (unique_violation m) = m
  error_text (io_error m) = m
  error_text (overflow_error m) = m
  error_text (data_error m) = m

  abbrev pub invalid_timestamp : Value → String → String → ℕ → Result String → List Report
  invalid_timestamp v table column i (ok at) = []
  invalid_timestamp v table column i (err e) =
      report table (joined (column ∷ ":invalid_timestamp" ∷ [])) i
        ("invalid timestamp value for "
          ∷ column
          ∷ ": "
          ∷ lib.repr v
          ∷ " ("
          ∷ error_text e
          ∷ ")"
          ∷ [])
        ("invalid " ∷ column ∷ " timestamp" ∷ [])
      ∷ []

  -- `_validate_required_timestamp`, for a time from which nothing escapes: the scans see to that.
  unfoldable pub required_timestamp : Value → String → String → ℕ → List Report
  required_timestamp v table column i =
      if is_null v
      then missing_timestamp table column i ∷ []
      else invalid_timestamp v table column i (iso_time lib v)

  abbrev pub invalid_bool : Value → String → String → ℕ → Option Bool → List Report
  invalid_bool v table column i (some b) = []
  invalid_bool v table column i none =
      report table (joined (column ∷ ":invalid_bool" ∷ [])) i
        ("invalid boolean value for " ∷ column ∷ ": " ∷ lib.repr v ∷ [])
        ("invalid " ∷ column ∷ " boolean" ∷ [])
      ∷ []

  -- `_validate_required_bool`
  unfoldable pub required_bool : Value → String → String → ℕ → List Report
  required_bool v table column i = invalid_bool v table column i (parse_bool lib v)

  abbrev pub invalid_number : Value → String → String → ℕ → Number → List Report
  invalid_number v table column i (finite x) = []
  invalid_number v table column i non_finite =
      report table (joined (column ∷ ":non_finite_numeric" ∷ [])) i
        ("non-finite numeric value for " ∷ column ∷ ": " ∷ lib.repr v ∷ [])
        ("non-finite " ∷ column ∷ " numeric value" ∷ [])
      ∷ []
  invalid_number v table column i invalid =
      report table (joined (column ∷ ":invalid_numeric" ∷ [])) i
        ("invalid numeric value for " ∷ column ∷ ": " ∷ lib.repr v ∷ [])
        ("invalid " ∷ column ∷ " numeric value" ∷ [])
      ∷ []

  -- `_validate_optional_numeric`
  unfoldable pub optional_numeric : Value → String → String → ℕ → List Report
  optional_numeric v table column i =
      if is_null v then [] else invalid_number v table column i (parse_finite_float lib v)

  abbrev pub missing_numeric : String → String → ℕ → Report
  missing_numeric table column i =
      report table (joined (column ∷ ":missing_numeric" ∷ [])) i
        ("missing required numeric value for " ∷ column ∷ [])
        ("missing " ∷ column ∷ " numeric value" ∷ [])

  -- `_validate_required_numeric`
  unfoldable pub required_numeric : Value → String → String → ℕ → List Report
  unfolding optional_numeric
  required_numeric v table column i =
      if is_null v then missing_numeric table column i ∷ [] else optional_numeric v table column i

  abbrev pub invalid_integer : Value → String → String → ℕ → Bool → List Report
  invalid_integer v table column i true = []
  invalid_integer v table column i false =
      report table (joined (column ∷ ":invalid_integer" ∷ [])) i
        ("invalid integer value for " ∷ column ∷ ": " ∷ lib.repr v ∷ [])
        ("invalid " ∷ column ∷ " integer" ∷ [])
      ∷ []

  abbrev pub is_some {ℓ} : {A : Type ℓ} → Option A → Bool
  is_some none = false
  is_some (some a) = true

  -- `_validate_optional_int`
  unfoldable pub optional_int : Value → String → String → ℕ → List Report
  optional_int v table column i =
      if is_null v then [] else invalid_integer v table column i (is_some (parse_int lib v))

  -- A check for each of some columns.
  unfoldable pub each_column :
      (Value → String → String → ℕ → List Report) → String → List String → Row → ℕ → List Report
  each_column check table [] row i = []
  each_column check table (c ∷ columns) row i =
      check (cell c row) table c i ++ each_column check table columns row i

  abbrev pub required_snapshot_numbers : List String
  required_snapshot_numbers = "spot" ∷ "forward_price" ∷ "risk_free_rate" ∷ "t_minutes" ∷ []

  -- `SNAPSHOT_OPTIONAL_COLUMNS`: a set, of which the code does not fix the order.
  abbrev pub snapshot_optional_columns : List String
  snapshot_optional_columns =
      "selected_strike_count" ∷ "valid_mid_contract_count" ∷ "stale_contract_count" ∷ "row_count"
      ∷ []

  -- `_validate_snapshot_row`
  unfoldable pub snapshot_row_reports : Row → ℕ → List Report
  unfolding each_column
  snapshot_row_reports row i =
      required_source_id (cell "snapshot_id" row) snapshots_table i
      ++ (required_timestamp (cell "market_time" row) snapshots_table "market_time" i
          ++ (each_column required_numeric snapshots_table required_snapshot_numbers row i
              ++ (optional_numeric (cell "pricing_spot" row) snapshots_table "pricing_spot" i
                  ++ each_column optional_int snapshots_table snapshot_optional_columns row i)))

  abbrev pub or_empty_text : Option Value → Value
  or_empty_text none = str ""
  or_empty_text (some v) = v

  -- `str(row.get("option_type", "")).strip().lower()`
  abbrev pub option_type_text : Row → String
  option_type_text row = lib.lower (lib.strip (lib.str (or_empty_text (get "option_type" row))))

  abbrev pub is_option_type : String → Bool
  is_option_type s = s == "c" || s == "call" || s == "p" || s == "put"

  abbrev pub invalid_option_type : Row → ℕ → Bool → List Report
  invalid_option_type row i true = []
  invalid_option_type row i false =
      report quotes_table "option_type:invalid" i
        ("invalid option_type: " ∷ lib.repr (cell "option_type" row) ∷ [])
        ("invalid option_type" ∷ [])
      ∷ []

  abbrev pub optional_quote_numbers : List String
  optional_quote_numbers = "bid" ∷ "ask" ∷ "mid" ∷ "iv" ∷ "ln_kf" ∷ "distance_from_atm" ∷ []

  -- `_validate_quote_row`
  unfoldable pub quote_row_reports : Row → ℕ → List Report
  unfolding each_column
  quote_row_reports row i =
      required_source_id (cell "snapshot_id" row) quotes_table i
      ++ (required_timestamp (cell "market_time" row) quotes_table "market_time" i
          ++ (invalid_option_type row i (is_option_type (option_type_text row))
              ++ (required_numeric (cell "strike" row) quotes_table "strike" i
                  ++ (required_bool (cell "quote_valid" row) quotes_table "quote_valid" i
                      ++ (each_column optional_numeric quotes_table optional_quote_numbers row i
                          ++ optional_int (cell "oi" row) quotes_table "oi" i)))))

  abbrev pub invalid_expiry : Value → String → ℕ → Option String → List Report
  invalid_expiry v table i (some day) = []
  invalid_expiry v table i none =
      report table "expiry:invalid" i ("invalid expiry value for expiry: " ∷ lib.repr v ∷ [])
        ("invalid expiry" ∷ [])
      ∷ []

  -- `_parse_expiry_value`, and its counterpart in `_scan_quotes`.
  unfoldable pub expiry_reports : Value → String → ℕ → List Report
  expiry_reports v table i = invalid_expiry v table i (date_string lib v)
