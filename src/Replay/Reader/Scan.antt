-- ===== src/Replay/Reader/Scan.antt =====
-- `_scan_quotes` of replay/parquet_reader.py: one pass over the quotes that checks and counts them.
use gamma_scope.Prelude.{
  ℕ, ◌+◌, String, string_eq, nat_eq, Bool, true, false, ◌||◌, Eq, Option, none, some, List, [], ◌∷◌,
  ◌++◌, ◌==◌, length, if◌then◌else◌,
}
use gamma_scope.Prelude.Dict.{Dict, get, put}
use gamma_scope.Replay.Effects.{Error, joined}
use gamma_scope.Replay.Reader.Values.{
  Row, is_null, Value, iso_time, escaping, Library, cell, source_id_or_none, date_string,
  parse_finite_float, Number, finite, non_finite, invalid, is_valid_quote,
}
use gamma_scope.Replay.Reader.Limiter.{Limiter, add_all, flush}
use gamma_scope.Replay.Reader.Rules.{
  quotes_table, required_source_id, quote_row_reports, expiry_reports,
}
use gamma_scope.Replay.Reader.Normalize.{QuoteRows, end_of_file, unreadable, row_then, QuoteCounts}

module _ {A : Type 0} ⦃e : Eq A⦄ where
  unfoldable pub is_element : A → List A → Bool
  is_element x [] = false
  is_element x (y ∷ ys) = y == x || is_element x ys

  -- `a_set.add(x)`
  unfoldable pub add_element : A → List A → List A
  unfolding is_element
  add_element x xs = if is_element x xs then xs else xs ++ x ∷ []

-- `_QuoteScanStats`, with the limiter of the scan. A strike is the bits of its value.
pub record ScanStats : Type 0 where
  pub quote_count : ℕ
  pub valid_quote_count : ℕ
  pub invalid_quote_count : ℕ
  pub quote_expiries : List String
  pub quote_snapshot_ids : List String
  pub quote_counts : Dict String ℕ
  pub valid_quote_counts : Dict String ℕ
  pub strike_values : Dict String (List ℕ)
  pub limiter : Limiter

abbrev pub no_stats : ScanStats
no_stats = record {
  quote_count = 0;
  valid_quote_count = 0;
  invalid_quote_count = 0;
  quote_expiries = [];
  quote_snapshot_ids = [];
  quote_counts = [];
  valid_quote_counts = [];
  strike_values = [];
  limiter = [];
}

abbrev pub or_zero : Option ℕ → ℕ
or_zero none = 0
or_zero (some n) = n

-- `counts[id] = counts.get(id, 0) + 1`
abbrev pub counted : String → Dict String ℕ → Dict String ℕ
counted id counts = put id (or_zero (get id counts) + 1) counts

abbrev pub or_no_strikes : Option (List ℕ) → List ℕ
or_no_strikes none = []
or_no_strikes (some xs) = xs

module _ (lib : Library) where
  -- The checks of a row, its number and its expiry.
  unfoldable pub scan_checks : Row → ScanStats → ScanStats
  scan_checks row s =
      let i = s.quote_count in
      let reports =
        quote_row_reports lib row i ++ expiry_reports lib (cell "expiry" row) quotes_table i in
      record s { quote_count = i + 1; limiter = add_all reports s.limiter }

  abbrev pub with_expiry : Option String → ScanStats → ScanStats
  with_expiry none s = s
  with_expiry (some day) s = record s { quote_expiries = add_element day s.quote_expiries }

  abbrev pub with_validity : String → Bool → ScanStats → ScanStats
  with_validity id true s = record s {
    valid_quote_count = s.valid_quote_count + 1;
    valid_quote_counts = counted id s.valid_quote_counts;
  }
  with_validity id false s = record s { invalid_quote_count = s.invalid_quote_count + 1 }

  abbrev pub with_strike : String → Number → ScanStats → ScanStats
  with_strike id (finite x) s = record s {
    strike_values = put id (add_element x (or_no_strikes (get id s.strike_values))) s.strike_values;
  }
  with_strike id non_finite s = s
  with_strike id invalid s = s

  -- What follows the `continue` of a row without a snapshot id.
  abbrev pub with_snapshot : Row → Option String → ScanStats → ScanStats
  with_snapshot row none s = s
  with_snapshot row (some id) s =
      let s1 = record s {
        quote_snapshot_ids = add_element id s.quote_snapshot_ids;
        quote_counts = counted id s.quote_counts;
      } in
      let s2 = with_validity id (is_valid_quote lib row) s1 in
      with_strike id (parse_finite_float lib (cell "strike" row)) s2

  unfoldable pub scan_row : Row → ScanStats → ScanStats
  unfolding scan_checks
  scan_row row s =
      let s1 = with_expiry (date_string lib (cell "expiry" row)) (scan_checks row s) in
      with_snapshot row (source_id_or_none lib (cell "snapshot_id" row)) s1

  -- What `_validate_required_timestamp` raises.
  abbrev pub raised_by : Value → Option Error
  raised_by v = if is_null v then none else escaping lib (iso_time lib v)

  -- A row whose time raises: it is counted, and its id is checked before.
  abbrev pub raising_row : Row → ScanStats → ScanStats
  raising_row row s = record s {
    quote_count = s.quote_count + 1;
    limiter =
        add_all (required_source_id lib (cell "snapshot_id" row) quotes_table s.quote_count)
          s.limiter;
  }

  abbrev pub unless_raised :
      Row → ScanStats → ScanStats × Option Error → Option Error → ScanStats × Option Error
  unless_raised row s rest none = rest
  unless_raised row s rest (some e) = (raising_row row s, some e)

  -- The scan, with the error that ends it early.
  unfoldable pub scan_rows : QuoteRows → ScanStats → ScanStats × Option Error
  scan_rows end_of_file s = (s, none)
  scan_rows (unreadable e) s = (s, some e)
  scan_rows (row_then row rows) s =
      let rest = scan_rows rows (scan_row row s) in
      unless_raised row s rest (raised_by (cell "market_time" row))

abbrev pub scan_error : (Error → String) → Option Error → List String
scan_error text none = []
scan_error text (some e) = joined ("Unable to scan quotes.parquet: " ∷ text e ∷ []) ∷ []

-- `_scan_quotes`, with the messages that it appends to the errors.
unfoldable pub scan_quotes : Library → (Error → String) → QuoteRows → ScanStats × List String
unfolding scan_rows
scan_quotes lib text rows =
    let (s, stopped) = scan_rows lib rows no_stats in
    (s, scan_error text stopped ++ flush lib s.limiter)

-- The counts of one snapshot's quotes.
abbrev pub counts_of : String → ScanStats → QuoteCounts
counts_of id s = record {
  quotes = or_zero (get id s.quote_counts);
  valid = or_zero (get id s.valid_quote_counts);
  strikes = length (or_no_strikes (get id s.strike_values));
}
