-- ===== src/Replay/Reader/Normalized.antt =====
-- A row of replay/parquet_reader.py on which no check reports anything can be normalised.
use gamma_scope.Prelude.{ℕ, String, string_eq, ◌≡◌, refl, ap, List, [], ◌∷◌, some, none, Option}
use gamma_scope.Replay.Tables.{SnapshotRecord}
use gamma_scope.Replay.Publish.{and_then}
use gamma_scope.Replay.Reader.Values.{Value, Row, Library, cell, source_id_or_none}
use gamma_scope.Replay.Reader.Reports.{Report}
use gamma_scope.Replay.Reader.Rules.{
  snapshot_row_reports, snapshots_table, required_source_id, required_timestamp, required_numeric,
  optional_numeric, optional_int, snapshot_optional_columns, required_snapshot_numbers, each_column,
}
use gamma_scope.Replay.Reader.Normalize.{
  QuoteCounts, normalize_snapshot, text_or_empty, item, float_value, spot_of,
}
use gamma_scope.Replay.Reader.Checked.{
  IsOk, Gives, and_then-Gives, and_then_of_ok, append-eq-nil, positive_float-IsOk, float_item-IsOk,
  int_or_default-IsOk, int_or_none-IsOk, time_item-IsOk, id_item-IsOk,
}

abbrev pub IsRowOf : String → ℕ → SnapshotRecord → Type 0
IsRowOf id order s = (s.source_snapshot_id ≡ id) × (s.source_order ≡ order)

module _ (lib : Library) where
  spot-IsOk :
      (x : Option ℕ) (row : Row) (i : ℕ)
      → IsOk (and_then (item "spot" row) (float_value lib))
      → IsOk (spot_of lib x row)
  spot-IsOk none row i h = h
  spot-IsOk (some x) row i h = (x, refl)

  -- What a snapshot row without reports has.
  record IsCheckedSnapshot (row : Row) (i : ℕ) : Type 0 where
    source_id : required_source_id lib (cell "snapshot_id" row) snapshots_table i ≡ []
    time : required_timestamp lib (cell "market_time" row) snapshots_table "market_time" i ≡ []
    spot : required_numeric lib (cell "spot" row) snapshots_table "spot" i ≡ []
    forward : required_numeric lib (cell "forward_price" row) snapshots_table "forward_price" i ≡ []
    rate : required_numeric lib (cell "risk_free_rate" row) snapshots_table "risk_free_rate" i ≡ []
    minutes : required_numeric lib (cell "t_minutes" row) snapshots_table "t_minutes" i ≡ []
    pricing : optional_numeric lib (cell "pricing_spot" row) snapshots_table "pricing_spot" i ≡ []
    counts :
        each_column lib (optional_int lib) snapshots_table (snapshot_optional_columns lib) row i
        ≡ []

  checked_snapshot :
      (row : Row) (i : ℕ) → snapshot_row_reports lib row i ≡ [] → IsCheckedSnapshot row i
  unfolding snapshot_row_reports each_column
  checked_snapshot row i h =
      let (source_id, h1) =
        append-eq-nil (required_source_id lib (cell "snapshot_id" row) snapshots_table i) _ h in
      let (time, h2) =
        append-eq-nil
          (required_timestamp lib (cell "market_time" row) snapshots_table "market_time" i) _ h1 in
      let (numbers, h3) =
        append-eq-nil
          (each_column lib (required_numeric lib) snapshots_table (required_snapshot_numbers lib)
            row i)
          _ h2 in
      let (spot, n1) =
        append-eq-nil (required_numeric lib (cell "spot" row) snapshots_table "spot" i) _ numbers in
      let (forward, n2) =
        append-eq-nil
          (required_numeric lib (cell "forward_price" row) snapshots_table "forward_price" i) _
          n1 in
      let (rate, n3) =
        append-eq-nil
          (required_numeric lib (cell "risk_free_rate" row) snapshots_table "risk_free_rate" i) _
          n2 in
      let (minutes, _) =
        append-eq-nil (required_numeric lib (cell "t_minutes" row) snapshots_table "t_minutes" i) []
          n3 in
      let (pricing, counts) =
        append-eq-nil
          (optional_numeric lib (cell "pricing_spot" row) snapshots_table "pricing_spot" i) _ h3 in
      record {
        source_id = source_id;
        time = time;
        spot = spot;
        forward = forward;
        rate = rate;
        minutes = minutes;
        pricing = pricing;
        counts = counts;
      }

  pub column-IsOk :
      (c : String) (columns : List String) (check : Value → String → String → ℕ → List Report)
      (table : String) (row : Row) (i : ℕ)
      → each_column lib check table (c ∷ columns) row i ≡ []
      → (check (cell c row) table c i ≡ []) × (each_column lib check table columns row i ≡ [])
  unfolding each_column
  column-IsOk c columns check table row i h = append-eq-nil _ _ h

  -- The id of a snapshot row without reports.
  pub reported_id :
      (row : Row) (i : ℕ)
      → snapshot_row_reports lib row i ≡ []
      → (id : String) × (source_id_or_none lib (cell "snapshot_id" row) ≡ some id)
  reported_id row i h =
      (id_item-IsOk lib snapshots_table i row (checked_snapshot row i h).source_id).1

  -- A snapshot row without reports is normalised, under its own id and at its place.
  pub normalize_snapshot-IsRowOf :
      (row : Row) (i order : ℕ) (session_id expiry id : String) (counts : QuoteCounts)
      → snapshot_row_reports lib row i ≡ []
      → source_id_or_none lib (cell "snapshot_id" row) ≡ some id
      → Gives (IsRowOf id order) (normalize_snapshot lib row order session_id expiry counts)
  unfolding normalize_snapshot
  normalize_snapshot-IsRowOf row i order session_id expiry id counts h named =
      let x = checked_snapshot row i h in
      let Q = IsRowOf id order in
      let (has_time, readable) = time_item-IsOk lib snapshots_table "market_time" i row x.time in
      let (no_selected, c1) =
        column-IsOk "selected_strike_count" _ (optional_int lib) snapshots_table row i x.counts in
      let (no_valid, c2) =
        column-IsOk "valid_mid_contract_count" _ (optional_int lib) snapshots_table row i c1 in
      let (no_stale, c3) =
        column-IsOk "stale_contract_count" _ (optional_int lib) snapshots_table row i c2 in
      let (no_rows, _) = column-IsOk "row_count" _ (optional_int lib) snapshots_table row i c3 in
      and_then-Gives Q _ _ (positive_float-IsOk lib snapshots_table "pricing_spot" i _ x.pricing)
        λ pricing _. and_then_of_ok Q _ _ _ (id_item-IsOk lib snapshots_table i row x.source_id).0 (
          and_then_of_ok Q _ _ _ has_time (
            and_then-Gives Q _ _ readable λ _ _.
              and_then-Gives Q _ _
                (spot-IsOk pricing row i (float_item-IsOk lib snapshots_table "spot" i row x.spot))
                λ _ _.
                  and_then-Gives Q _ _
                    (float_item-IsOk lib snapshots_table "forward_price" i row x.forward)
                    λ _ _.
                      and_then-Gives Q _ _
                        (float_item-IsOk lib snapshots_table "risk_free_rate" i row x.rate)
                        λ _ _.
                          and_then-Gives Q _ _
                            (float_item-IsOk lib snapshots_table "t_minutes" i row x.minutes)
                            λ _ _.
                              and_then-Gives Q _ _
                                (int_or_default-IsOk lib snapshots_table "selected_strike_count" i _
                                  _ no_selected)
                                λ _ _.
                                  and_then-Gives Q _ _
                                    (int_or_default-IsOk lib snapshots_table
                                      "valid_mid_contract_count" i _ _ no_valid)
                                    λ _ _.
                                      and_then-Gives Q _ _
                                        (int_or_default-IsOk lib snapshots_table
                                          "stale_contract_count" i _ _ no_stale)
                                        λ _ _.
                                          and_then-Gives Q _ _
                                            (int_or_none-IsOk lib snapshots_table "row_count" i _
                                              no_rows)
                                            λ _ _. (_, refl, (ap text_or_empty named, refl))))
