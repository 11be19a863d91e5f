-- ===== src/Replay/Publish.antt =====
-- `publish_import` of replay/import_repository.py: the rows of a whole session, in one
-- transaction.
pub mod Batches
pub mod Rows
use gamma_scope.Prelude.{
  ℕ, ℤ, pos, ◌+◌, String, Bool, true, false, not, ◌&&◌, Option, none, some, List, [], ◌∷◌, ◌++◌,
  ◌==◌, string_eq, leb, length, if◌then◌else◌,
}
use gamma_scope.Prelude.Dict.{put, has}
use gamma_scope.Replay.Effects.{
  Error, Result, ok, err, value_error, unique_violation, Platform, Tx, joined,
}
use gamma_scope.Replay.Tables.{
  Status, publishing, completed, status_text, status_eq, ImportRecord, SnapshotRecord, QuoteRecord,
  SessionRow, SnapshotHeader, Tables,
}
use gamma_scope.Replay.Imports.{locked_import}

abbrev pub quote_insert_batch_size : ℕ
quote_insert_batch_size = 5000

-- The iterable of quotes: it is read lazily from the archive, and reading may raise.
pub data Quotes : Type 0 where
  done : Quotes
  broken : Error → Quotes
  next : QuoteRecord → Quotes → Quotes

abbrev pub and_then {ℓ κ} : {A : Type ℓ} {B : Type κ} → Result A → (A → Result B) → Result B
and_then (ok a) f = f a
and_then (err e) f = err e

-- A datetime from `_parse_datetime`, which raises `ValueError`.
abbrev pub time_or_error : String → Option ℕ → Result ℕ
time_or_error value none = err (value_error value)
time_or_error value (some at) = ok at

abbrev pub parse_time : Platform → String → Result ℕ
parse_time p value = time_or_error value (p.parse_datetime value)

-- PRIMARY KEY (session_id, source_snapshot_id)
unfoldable pub has_snapshot : String → String → List SnapshotHeader → Bool
has_snapshot session_id id [] = false
has_snapshot session_id id (row ∷ rows) =
    if row.session_id == session_id && row.source_snapshot_id == id
    then true
    else has_snapshot session_id id rows

abbrev pub or_zero : Option ℤ → ℤ
or_zero none = pos 0
or_zero (some n) = n

unfoldable pub snapshot_row : String → ℕ → SnapshotRecord → SnapshotHeader
snapshot_row session_id at s = record {
  session_id = session_id;
  source_snapshot_id = s.source_snapshot_id;
  source_order = s.source_order;
  snapshot_time = at;
  expiry = s.expiry;
  spot = s.spot;
  pricing_spot = s.pricing_spot;
  forward = s.forward;
  risk_free_rate = s.risk_free_rate;
  t_minutes = s.t_minutes;
  selected_strike_count = s.selected_strike_count;
  valid_mid_contract_count = s.valid_mid_contract_count;
  stale_contract_count = s.stale_contract_count;
  row_count = or_zero s.row_count;
}

unfoldable pub insert_snapshot : SnapshotHeader → List SnapshotHeader → Result (List SnapshotHeader)
insert_snapshot row rows =
    if has_snapshot row.session_id row.source_snapshot_id rows
    then err (unique_violation row.source_snapshot_id)
    else ok (rows ++ row ∷ [])

-- The loop over the snapshots.
unfoldable pub insert_snapshots :
    Platform → String → List SnapshotRecord → List SnapshotHeader → Result (List SnapshotHeader)
insert_snapshots p session_id [] rows = ok rows
insert_snapshots p session_id (s ∷ snapshots) rows = and_then (parse_time p s.snapshot_time) λ at.
    and_then (insert_snapshot (snapshot_row session_id at s) rows)
      λ rows'. insert_snapshots p session_id snapshots rows'

-- `_quote_insert_params`: the row of a quote, under the published session.
abbrev pub quote_row : String → QuoteRecord → QuoteRecord
quote_row session_id q = record q { session_id = session_id }

-- PRIMARY KEY (session_id, source_snapshot_id, contract_id)
unfoldable pub has_quote : QuoteRecord → List QuoteRecord → Bool
has_quote q [] = false
has_quote q (row ∷ rows) =
    if row.session_id == q.session_id
      && row.source_snapshot_id == q.source_snapshot_id
      && row.contract_id == q.contract_id
    then true
    else has_quote q rows

-- `cursor.executemany(_INSERT_QUOTE_SQL, quote_batch)`
unfoldable pub insert_batch : List QuoteRecord → List QuoteRecord → Result (List QuoteRecord)
insert_batch [] rows = ok rows
insert_batch (q ∷ batch) rows =
    if has_quote q rows
    then err (unique_violation q.contract_id)
    else insert_batch batch (rows ++ q ∷ [])

-- The loop over the quotes: full batches are written as they fill, the rest after the loop. The
-- result is the count and the rows.
unfoldable pub insert_quotes :
    ℕ → String → Quotes → List QuoteRecord → ℕ → List QuoteRecord → Result (ℕ × List QuoteRecord)
insert_quotes size session_id (broken e) batch count rows = err e
insert_quotes size session_id done batch count rows =
    and_then (insert_batch batch rows) λ rows'. ok (count + length batch, rows')
insert_quotes size session_id (next q quotes) batch count rows =
    let batch' = batch ++ quote_row session_id q ∷ [] in
    let full =
      and_then (insert_batch batch' rows)
        λ rows'. insert_quotes size session_id quotes [] (count + length batch') rows' in
    let filling = insert_quotes size session_id quotes batch' count rows in
    if leb size (length batch') then full else filling

-- The arguments of `publish_import`.
pub record Publication : Type 0 where
  pub import_id : String
  pub session_id : String
  pub symbol : String
  pub expiry : String
  pub start_time : String
  pub end_time : String
  pub snapshots : List SnapshotRecord
  pub quotes : Quotes

abbrev pub session_row : Publication → ℕ → ℕ → ℕ → SessionRow
session_row a start end quote_count = record {
  session_id = a.session_id;
  symbol = a.symbol;
  expiry = a.expiry;
  source = "parquet_import";
  start_time = start;
  end_time = end;
  snapshot_count = length a.snapshots;
  quote_count = quote_count;
  visibility = "public";
  timestamp_source = "exact";
  import_id = a.import_id;
}

-- The import, completed under the published session.
abbrev pub completed_row : ℕ → Publication → ImportRecord → ImportRecord
completed_row now a row = record row {
  status = completed;
  session_id = some a.session_id;
  updated_at = now;
}

-- The tables after all statements: the session with its counts, the rows, the completed import.
abbrev pub written :
    ℕ
    → Publication
    → ImportRecord
    → ℕ
    → ℕ
    → List SnapshotHeader
    → ℕ × List QuoteRecord
    → Tables
    → Tables
written now a row start end snapshots quoted t = record {
  imports = put a.import_id (completed_row now a row) t.imports;
  sessions = put a.session_id (session_row a start end quoted.0) t.sessions;
  snapshots = snapshots;
  quotes = quoted.1;
}

-- What the method does once the row of the import is known to be in state `publishing`.
unfoldable pub publish_rows : Platform → ℕ → Publication → ImportRecord → Tx Tables (Unit {0})
publish_rows p now a row t = and_then (parse_time p a.start_time) λ start.
    and_then (parse_time p a.end_time) λ end.
      if has a.session_id t.sessions
      then err (unique_violation a.session_id)
      else and_then (insert_snapshots p a.session_id a.snapshots t.snapshots) λ snapshots.
        and_then (insert_quotes quote_insert_batch_size a.session_id a.quotes [] 0 t.quotes)
          λ quoted. ok (tt, written now a row start end snapshots quoted t)

abbrev pub publish_error : Status → String
publish_error found = joined (
    "Invalid import status transition: "
    ∷ status_text found
    ∷ " -> publish; expected awaiting_confirmation -> publishing first"
    ∷ [])

unfoldable pub publish_import : Platform → ℕ → Publication → Tx Tables (Unit {0})
unfolding locked_import
publish_import p now a t = and_then (locked_import a.import_id t) λ row.
    if not (row.status == publishing)
    then err (value_error (publish_error row.status))
    else publish_rows p now a row t
