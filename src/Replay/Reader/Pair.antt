-- ===== src/Replay/Reader/Pair.antt =====
-- `read_replay_parquet_pair` of replay/parquet_reader.py, with its early returns.
use gamma_scope.Prelude.{pos, String, List, [], ◌∷◌, ◌++◌, map, length}
use gamma_scope.Replay.Effects.{Error, Result, ok, err, value_error, joined}
use gamma_scope.Replay.Tables.{Json, Summary, SnapshotRecord}
use gamma_scope.Replay.Publish.{and_then}
use gamma_scope.Replay.Importer.{ReadResult}
use gamma_scope.Replay.Reader.Values.{Row, Library}
use gamma_scope.Replay.Reader.Normalize.{QuoteRows, iter_quotes}
use gamma_scope.Replay.Reader.Scan.{ScanStats, scan_quotes}
use gamma_scope.Replay.Reader.Read.{
  ParquetPair, snapshot_required_columns, quote_required_columns, require_columns, SnapshotScan,
  check_times, scan_snapshots, pair_errors, failed, pair_warnings, normalize_snapshots,
  snapshot_map, int_items, quote_rows_per_snapshot, snapshot_previews,
}

abbrev pub no_scan : SnapshotScan
no_scan = record { errors = []; expiries = []; ids = []; times = [] }

abbrev pub first_or_error : List String → Result String
first_or_error [] = err (value_error "StopIteration")
first_or_error (x ∷ xs) = ok x

-- `_read_table` and `_open_parquet_file`: the message of a file that cannot be opened.
abbrev pub open_error {ℓ} : {A : Type ℓ} → (Error → String) → String → Result A → List String
open_error text label (ok a) = []
open_error text label (err e) = joined ("Unable to read " ∷ label ∷ ": " ∷ text e ∷ []) ∷ []

abbrev pub summary_of : String → List SnapshotRecord → ScanStats → List String → Summary
summary_of expiry snapshots q ids =
    ("expiry", Json.text expiry)
    ∷ ("snapshot_count", Json.num (pos (length snapshots)))
    ∷ ("quote_count", Json.num (pos q.quote_count))
    ∷ ("valid_quote_count", Json.num (pos q.valid_quote_count))
    ∷ ("invalid_quote_count", Json.num (pos q.invalid_quote_count))
    ∷ ("quote_rows_per_snapshot", quote_rows_per_snapshot ids q.quote_counts)
    ∷ ("source_row_count_profile", Json.arr (int_items (map (λ s. s.row_count) snapshots)))
    ∷ ("snapshot_previews", snapshot_previews snapshots)
    ∷ []

module _ (lib : Library) (text : Error → String) (session_id : String) where
  -- From `expiry = next(iter(snapshot_expiries))` on.
  unfoldable pub accept_pair :
      List Row → QuoteRows → SnapshotScan → ScanStats → List String → Result ReadResult
  accept_pair rows quotes s q warnings = and_then (first_or_error s.expiries) λ expiry.
      and_then (normalize_snapshots lib rows 0 session_id expiry s.ids q) λ snapshots. ok (record {
        snapshots = snapshots;
        summary = summary_of expiry snapshots q s.ids;
        warnings = warnings;
        errors = [];
        quotes = iter_quotes lib (snapshot_map snapshots []) session_id expiry quotes;
      })

  abbrev pub accept_or_fail :
      List Row
      → QuoteRows
      → SnapshotScan
      → ScanStats
      → List String
      → List String
      → Result ReadResult
  accept_or_fail rows quotes s q warnings [] = accept_pair rows quotes s q warnings
  accept_or_fail rows quotes s q warnings (e ∷ errors) = ok (failed (e ∷ errors) warnings)

  -- The scans, and what they decide.
  unfoldable pub scan_checked : List Row → QuoteRows → Result ReadResult
  scan_checked rows quotes =
      let s = scan_snapshots lib rows 0 no_scan in
      let (q, scanned) = scan_quotes lib text quotes in
      accept_or_fail rows quotes s q (pair_warnings lib s q) (s.errors ++ pair_errors s q scanned)

  -- From the loop over the snapshots on.
  unfoldable pub scan_pair : List Row → QuoteRows → Result ReadResult
  unfolding scan_checked
  scan_pair rows quotes = and_then (check_times lib rows) λ _. scan_checked rows quotes

  abbrev pub convert_rows : Result (List Row) → QuoteRows → Result ReadResult
  convert_rows (err e) quotes =
      ok (failed (joined ("Unable to convert snapshots.parquet rows: " ∷ text e ∷ []) ∷ []) [])
  convert_rows (ok []) quotes = ok (failed ("No snapshot rows found in snapshots.parquet" ∷ []) [])
  convert_rows (ok (row ∷ rows)) quotes = scan_pair (row ∷ rows) quotes

  abbrev pub convert_or_fail : List String → Result (List Row) → QuoteRows → Result ReadResult
  convert_or_fail [] rows quotes = convert_rows rows quotes
  convert_or_fail (e ∷ errors) rows quotes = ok (failed (e ∷ errors) [])

  unfoldable pub open_pair :
      Result (List String × Result (List Row))
      → Result (List String × QuoteRows)
      → Result ReadResult
  open_pair (ok (snapshot_columns, rows)) (ok (quote_columns, quotes)) =
      convert_or_fail
        (require_columns "snapshots.parquet" snapshot_required_columns snapshot_columns
          ++ require_columns "quotes.parquet" quote_required_columns quote_columns)
        rows quotes
  open_pair snapshots quotes = ok (
      failed
        (open_error text "snapshots.parquet" snapshots ++ open_error text "quotes.parquet" quotes)
        [])

  unfoldable pub read_pair : ParquetPair → Result ReadResult
  unfolding open_pair
  read_pair pair = open_pair pair.snapshots_table pair.quotes_file
