-- ===== src/Replay/Reader/Examples.antt =====
-- The reader of replay/parquet_reader.py on one snapshot with two quotes.
use gamma_scope.Prelude.{
  ℕ, pos, ◌-◌, ◌⊖◌, String, string_eq, ◌≡◌, refl, true, false, Option, none, some, List, [], ◌∷◌,
}
use gamma_scope.Prelude.Order.{str_le}
use gamma_scope.Prelude.Sort.{sorted, insert}
use gamma_scope.Prelude.Dict.{get, put, has}
use gamma_scope.Replay.Effects.{Error, ok, joined, str_of}
use gamma_scope.Replay.Importer.{ReadResult, prefix}
use gamma_scope.Replay.Examples.{platform, waiting, snapshot, good_upload, described}
use gamma_scope.Replay.ImportFlow.{Upload, create_import}
use gamma_scope.Replay.ImportFlow.Steps.{Settles}
use gamma_scope.Replay.ImportFlow.Create.{IsOffered, CreateMisfit}
use gamma_scope.Replay.Reader.Values.{
  Value, Row, Library, cell, source_id_or_none, iso_time, parse_finite_float, date_string,
  is_valid_quote, parse_bool, parse_int, suffix,
}
use gamma_scope.Replay.Reader.Limiter.{add, add_all, comma_separated, flush, message}
use gamma_scope.Replay.Reader.Normalize.{
  QuoteRows, end_of_file, row_then, int_or_default, int_or_none, iter_quotes, normalize_quote,
  normalize_snapshot, optional_float,
}
use gamma_scope.Replay.Reader.Pair.{read_pair, scan_checked, scan_pair, accept_pair, open_pair}
use gamma_scope.Replay.Reader.Read.{
  ParquetPair, snapshot_required_columns, quote_required_columns, require_columns, check_times,
  scan_snapshots, row_counts, scan_snapshot, snapshot_map, snapshot_previews, pair_errors,
  pair_warnings, normalize_snapshots, quote_rows_per_snapshot, commas, duplicates, repeated,
}
use gamma_scope.Replay.Reader.Scan.{
  no_stats, counts_of, is_element, add_element, scan_checks, scan_quotes, scan_row, scan_rows,
}
use gamma_scope.Replay.Reader.Rules.{
  snapshot_row_reports, required_source_id, required_timestamp, required_numeric, optional_int,
  expiry_reports, each_column, optional_numeric, quote_row_reports, required_bool,
}
use gamma_scope.Replay.Reader.Reports.{Report}
use gamma_scope.Replay.Reader.Limiter.Counts.{entry_of, with_key, add_all_entries}
use gamma_scope.Replay.Reader.Checked.{Gives}
use gamma_scope.Replay.Reader.Normalized.{IsRowOf, normalize_snapshot-IsRowOf}
use gamma_scope.Replay.Reader.NormalizedQuote.{normalize_quote-IsOk}
use gamma_scope.Replay.Reader.Contract.{TableInRange, IsRead, read_pair-IsRead}
use gamma_scope.Replay.Reader.Counts.{IsCounted, scan_quotes-IsCounted}
use gamma_scope.Replay.Reader.Flow.{create_import_of_files-Settles}

abbrev text_of : Value → String
text_of (Value.str s) = s
text_of (Value.int n) = "1"
text_of _ = "other"

abbrev float_of : Value → Option ℕ
float_of (Value.float x) = some x
float_of (Value.int (pos n)) = some n
float_of _ = none

-- Floats are their values, dates and times are not looked into.
abbrev pub library : Library
library = record {
  str = text_of;
  repr = text_of;
  number_text = λ n. "n";
  strip = λ s. s;
  lower = λ s. s;
  float_of = float_of;
  is_finite = λ x. true;
  is_positive = λ x. true;
  is_one = λ x. false;
  is_zero = λ x. false;
  int_of_float = λ x. some (pos x);
  int_of_text = λ s. none;
  fraction_of = λ s. some none;
  instant_of = λ s. ok 7;
  format_datetime = λ n. "2026-01-02T10:00:00Z";
  is_digits = λ s. true;
  date_of = λ y m d. some "2026-01-02";
  date_of_iso = λ s. some s;
  strike_text = λ x. "100";
}

abbrev row : Row
row =
    ("snapshot_id", Value.str "1")
    ∷ ("market_time", Value.datetime 7 "2026-01-02")
    ∷ ("expiry", Value.date "2026-01-02")
    ∷ ("spot", Value.float 100)
    ∷ ("pricing_spot", Value.null)
    ∷ ("forward_price", Value.float 101)
    ∷ ("risk_free_rate", Value.float 4)
    ∷ ("t_minutes", Value.float 60)
    ∷ []

abbrev quote_with : Value → Row
quote_with bid =
    ("snapshot_id", Value.str "1")
    ∷ ("market_time", Value.datetime 7 "2026-01-02")
    ∷ ("expiry", Value.date "2026-01-02")
    ∷ ("strike", Value.float 100)
    ∷ ("option_type", Value.str "c")
    ∷ ("bid", bid)
    ∷ ("ask", Value.float 3)
    ∷ ("mid", Value.float 2)
    ∷ ("iv", Value.null)
    ∷ ("quote_valid", Value.bool true)
    ∷ []

abbrev quote_rows : QuoteRows
quote_rows = row_then (quote_with (Value.float 1)) (row_then (quote_with Value.null) end_of_file)

abbrev pair : ParquetPair
pair = record {
  snapshots_table = ok (snapshot_required_columns, ok (row ∷ []));
  quotes_file = ok (quote_required_columns, quote_rows);
}

abbrev text : Error → String
text e = str_of platform e

-- The pair is read without errors.
clean_read :
    (result : ReadResult) × (read_pair library text "preview" pair ≡ ok result)
    × (result.errors ≡ [])
unfolding get put has joined prefix sorted insert str_le snapshot_row_reports required_source_id
    required_timestamp required_numeric optional_int expiry_reports each_column optional_numeric
    quote_row_reports required_bool cell source_id_or_none iso_time parse_finite_float date_string
    is_valid_quote parse_bool parse_int suffix add add_all comma_separated flush message
    int_or_default int_or_none iter_quotes normalize_quote normalize_snapshot optional_float
    read_pair scan_pair scan_checked check_times accept_pair open_pair require_columns
    scan_snapshots row_counts scan_snapshot snapshot_map snapshot_previews pair_errors pair_warnings
    normalize_snapshots quote_rows_per_snapshot commas duplicates repeated is_element add_element
    scan_checks scan_quotes scan_row scan_rows
clean_read = (_, refl, refl)

abbrev report_of : ℕ → Report
report_of i = record { key = "k"; row_index = i; single_message = "m"; summary_head = "h" }

abbrev reports : List Report
reports = report_of 0 ∷ report_of 1 ∷ report_of 2 ∷ report_of 3 ∷ report_of 4 ∷ report_of 5 ∷ []

add_all_entries_example : get "k" (add_all reports []) ≡ entry_of (with_key "k" reports)
add_all_entries_example = add_all_entries reports "k"

normalize_snapshot-IsRowOf_example :
    Gives
      (IsRowOf "1" 0)
      (normalize_snapshot library row 0 "preview" "2026-01-02" (counts_of "1" no_stats))
unfolding get snapshot_row_reports required_source_id required_timestamp required_numeric
    optional_int iso_time parse_finite_float cell source_id_or_none
normalize_snapshot-IsRowOf_example =
    normalize_snapshot-IsRowOf library row 0 0 "preview" "2026-01-02" "1" (counts_of "1" no_stats)
      refl refl

normalize_quote-IsOk_example :
    Gives
      (λ _. Unit {0})
      (normalize_quote library (quote_with Value.null) snapshot "preview" "2026-01-02")
unfolding get quote_row_reports required_source_id required_timestamp required_numeric required_bool
    optional_int iso_time parse_finite_float parse_bool cell source_id_or_none
normalize_quote-IsOk_example =
    normalize_quote-IsOk library (quote_with Value.null) 1 snapshot "preview" "2026-01-02" refl refl

pair-TableInRange : TableInRange library pair.snapshots_table
unfolding iso_time cell get
pair-TableInRange = ((λ m h. cc), tt)

read_pair-IsRead_example : Gives IsRead (read_pair library text "preview" pair)
read_pair-IsRead_example = read_pair-IsRead library text "preview" refl pair pair-TableInRange

scan_quotes-IsCounted_example :
    IsCounted (scan_quotes library text quote_rows).0
    × ((id : String)
        → (counts_of id (scan_quotes library text quote_rows).0).quotes
            ⊖ (counts_of id (scan_quotes library text quote_rows).0).valid
          ≡ pos (
              (counts_of id (scan_quotes library text quote_rows).0).quotes
              - (counts_of id (scan_quotes library text quote_rows).0).valid))
scan_quotes-IsCounted_example = scan_quotes-IsCounted library text quote_rows

abbrev upload_of_files : Upload
upload_of_files = record good_upload { read = read_pair library text "preview" pair }

create_import_of_files-Settles_example :
    (result : ReadResult) × (read_pair library text "preview" pair ≡ ok result)
    × Settles IsOffered
        (CreateMisfit platform upload_of_files waiting
          (described "s.parquet")
          (described "q.parquet")
          result)
        (joined ("import-" ∷ "u" ∷ []))
        (create_import platform 7 "u" upload_of_files waiting)
unfolding get has joined
create_import_of_files-Settles_example =
    create_import_of_files-Settles library text pair platform 7 "u" upload_of_files waiting
      (described "s.parquet") (described "q.parquet") refl pair-TableInRange refl refl refl refl
