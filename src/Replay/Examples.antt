-- ===== src/Replay/Examples.antt =====
-- The theorems of the replay imports on small tables.
use mathlib.Core.Bool.{true}
use gamma_scope.Prelude.{
  ℕ, pos, suc, String, string_eq, ◌≡◌, ◌≢◌, refl, Option, none, some, List, [], ◌∷◌, All, length,
}
use gamma_scope.Prelude.Dict.{get, put, has}
use gamma_scope.Prelude.Sort.{min_by}
use gamma_scope.Replay.Effects.{joined, Result, ok, err, Platform}
use gamma_scope.Replay.Tables.{
  Status, awaiting_confirmation, publishing, completed, failed, Json, ImportRecord, SnapshotRecord,
  QuoteRecord, call, SnapshotHeader, Tables, empty,
}
use gamma_scope.Replay.Imports.{NewImport, new_row, locked_import}
use gamma_scope.Replay.Publish.{
  Quotes, done, next, Publication, and_then, insert_batch, insert_quotes, publish_import,
  publish_rows, insert_snapshots, insert_snapshot, has_snapshot, snapshot_row, has_quote,
}
use gamma_scope.Replay.Publish.Batches.{rows_of, insert_quotes-eq-insert_batch}
use gamma_scope.Replay.Publish.Rows.{IsPublished, publish_import-IsPublished}
use gamma_scope.Replay.Machine.{Call, create, validate, publish, cancel, fail, ◌⟶*◌, run_calls}
use gamma_scope.Replay.Machine.Runs.{
  run_calls_follow_edges, run_calls_completed, AllNamed, run_calls-AllNamed,
}
use gamma_scope.Replay.Queries.{
  SnapshotData, nearest_snapshot, quotes_for_snapshot, stream_snapshots, parse_optional,
  nearest_row, nearest_record, before_record, after_record,
}
use gamma_scope.Replay.Queries.Nearest.{nearest_snapshot-eq-none}
use gamma_scope.Replay.Queries.Groups.{stream_snapshots_quotes}
use gamma_scope.Replay.Importer.{ReadResult, SourceFileInfo}
use gamma_scope.Replay.ImportFlow.{Upload, create_import, confirm_import, cancel_import}
use gamma_scope.Replay.ImportFlow.Create.{IsOffered, CreateMisfit, create_import-Settles}
use gamma_scope.Replay.ImportFlow.Steps.{Settles}
use gamma_scope.Replay.ImportFlow.Cancel.{
  CancelEnds, cancel_import-CancelEnds, settled_import-unchanged,
}

-- Times are written by as many strokes.
abbrev strokes : String → ℕ
strokes String.[] = 0
strokes (String.◌∷◌ c s) = suc (strokes s)

abbrev pub platform : Platform
platform = record {
  parse_datetime = λ s. some (strokes s);
  format_datetime = λ n. "|";
  repr = λ s. s;
  lower = λ s. s;
  sha256_hex = λ s. s;
}

abbrev upload : NewImport
upload = record {
  snapshots_filename = "s.parquet";
  quotes_filename = "q.parquet";
  snapshots_sha256 = "aa";
  quotes_sha256 = "bb";
  snapshots_size = 10;
  quotes_size = 20;
  snapshots_archive_path = "/s";
  quotes_archive_path = "/q";
}

abbrev pub row_in : Status → Option String → ImportRecord
row_in status session_id =
    let row = new_row "a" 1 upload in record row { status = status; session_id = session_id }

abbrev header : String → ℕ → SnapshotHeader
header id at = record {
  session_id = "S";
  source_snapshot_id = id;
  source_order = at;
  snapshot_time = at;
  expiry = "E";
  spot = 0;
  pricing_spot = none;
  forward = 0;
  risk_free_rate = 0;
  t_minutes = 0;
  selected_strike_count = pos 0;
  valid_mid_contract_count = pos 0;
  stale_contract_count = pos 0;
  row_count = pos 0;
}

abbrev quote : String → String → QuoteRecord
quote id contract_id = record {
  session_id = "S";
  source_snapshot_id = id;
  source_order = 1;
  contract_id = contract_id;
  strike = 0;
  right = call;
  bid = none;
  ask = none;
  mid = none;
  ibkr_iv = none;
  open_interest = none;
  quote_valid = true;
  ln_kf = none;
  distance_from_atm = none;
}

abbrev pub snapshot : SnapshotRecord
snapshot = record {
  session_id = "x";
  source_snapshot_id = "1";
  source_order = 1;
  snapshot_time = "|||";
  expiry = "E";
  spot = 0;
  pricing_spot = none;
  forward = 0;
  risk_free_rate = 0;
  t_minutes = 0;
  selected_strike_count = pos 0;
  valid_mid_contract_count = pos 0;
  stale_contract_count = pos 0;
  row_count = none;
}

abbrev quotes : Quotes
quotes = next (quote "1" "c1") (next (quote "1" "c2") done)

abbrev tables_with : ImportRecord → Tables
tables_with row = record empty { imports = ("a", row) ∷ [] }

abbrev pub waiting : Tables
waiting = tables_with (row_in awaiting_confirmation (some "S"))

abbrev stored : Tables
stored = record empty {
  snapshots = header "1" 3 ∷ header "2" 9 ∷ [];
  quotes = quote "2" "c" ∷ quote "1" "b" ∷ quote "1" "a" ∷ [];
}

abbrev read : ReadResult
read = record {
  snapshots = snapshot ∷ [];
  summary = ("expiry", Json.text "E") ∷ [];
  warnings = [];
  errors = [];
  quotes = quotes;
}

abbrev publication : Publication
publication = record {
  import_id = "a";
  session_id = "S";
  symbol = "SPX";
  expiry = "E";
  start_time = "|";
  end_time = "|||";
  snapshots = snapshot ∷ [];
  quotes = quotes;
}

abbrev published_tables : Result (Unit {0} × Tables) → Tables
published_tables (ok (tt, t)) = t
published_tables (err e) = empty

abbrev ready : Tables
ready = tables_with (row_in publishing (some "S"))

abbrev first_data : SnapshotData
first_data = record { header = header "1" 3; quotes = quote "1" "a" ∷ quote "1" "b" ∷ [] }

abbrev calls : List Call
calls = publish "a" 3 ∷ cancel "a" 4 ∷ fail "a" 5 ("late" ∷ []) ∷ []

run_calls_follow_edges_example :
    (row' : ImportRecord) × (get "a" (run_calls platform waiting calls).imports ≡ some row')
    × (awaiting_confirmation ⟶* row'.status)
unfolding get
run_calls_follow_edges_example =
    run_calls_follow_edges platform calls waiting "a" (row_in awaiting_confirmation (some "S")) refl

run_calls_completed_example :
    (row' : ImportRecord) × (get "a"
        (run_calls platform (tables_with (row_in completed (some "S"))) calls).imports
      ≡ some row')
    × (row'.status ≡ completed)
    × (row'.session_id ≡ some "S")
unfolding get
run_calls_completed_example =
    run_calls_completed platform calls (tables_with (row_in completed (some "S"))) "a"
      (row_in completed (some "S")) refl refl

no_rows-AllNamed : AllNamed empty
unfolding get
no_rows-AllNamed k row found = absurd (cc)

run_calls-AllNamed_example :
    AllNamed (run_calls platform empty (create "u" 1 upload ∷ validate "import-u" 2 ∷ []))
run_calls-AllNamed_example =
    run_calls-AllNamed platform (create "u" 1 upload ∷ validate "import-u" 2 ∷ []) empty
      no_rows-AllNamed

insert_quotes-eq-insert_batch_example :
    insert_quotes 1 "S" quotes [] 0 []
    ≡ and_then (insert_batch (rows_of "S" quotes) []) (λ r. ok (length (rows_of "S" quotes), r))
insert_quotes-eq-insert_batch_example = insert_quotes-eq-insert_batch 1 "S" quotes [] tt

publish_import-IsPublished_example :
    IsPublished 7 publication ready (published_tables (publish_import platform 7 publication ready))
unfolding get put has publish_import publish_rows locked_import insert_snapshots insert_snapshot
    has_snapshot snapshot_row insert_quotes insert_batch has_quote
publish_import-IsPublished_example =
    publish_import-IsPublished platform 7 publication ready
      (published_tables (publish_import platform 7 publication ready)) refl

nearest_snapshot-eq-none_example : All (λ row. row.session_id ≢ "T") stored.snapshots
unfolding parse_optional nearest_snapshot nearest_row nearest_record before_record after_record
    min_by
nearest_snapshot-eq-none_example =
    nearest_snapshot-eq-none platform "T" (some "|||||") stored 5 refl refl

stream_snapshots_quotes_example :
    All
      (λ d. d.quotes ≡ quotes_for_snapshot "S" d.header.source_snapshot_id stored)
      (stream_snapshots platform "S" none none stored)
stream_snapshots_quotes_example = stream_snapshots_quotes platform "S" none none stored

cancel_import-CancelEnds_example :
    CancelEnds awaiting_confirmation "a"
      (row_in awaiting_confirmation (some "S"))
      waiting
      (cancel_import 7 "a" waiting)
unfolding get
cancel_import-CancelEnds_example =
    cancel_import-CancelEnds 7 "a" waiting (row_in awaiting_confirmation (some "S")) refl

settled_import-unchanged_example :
    ((confirm_import platform 7 "a" (ok read) (tables_with (row_in failed none))).1
      ≡ tables_with (row_in failed none))
    × ((cancel_import 7 "a" (tables_with (row_in failed none))).1
        ≡ tables_with (row_in failed none))
unfolding get
settled_import-unchanged_example =
    settled_import-unchanged platform 7 "a" (ok read) (tables_with (row_in failed none))
      (row_in failed none) refl refl

abbrev pub described : String → SourceFileInfo
described name = record { filename = name; size = 10; sha256 = "aa" }

abbrev pub good_upload : Upload
good_upload = record {
  snapshots_info = ok (described "s.parquet");
  quotes_info = ok (described "q.parquet");
  pending_snapshots_path = "/pending/s";
  pending_quotes_path = "/pending/q";
  archive = ok (record {
    snapshots_path = "/s";
    quotes_path = "/q";
    snapshots_size = 10;
    quotes_size = 10;
    snapshots_sha256 = "aa";
    quotes_sha256 = "aa";
  });
  read = ok read;
}

create_import-Settles_example :
    Settles IsOffered
      (CreateMisfit platform good_upload waiting
        (described "s.parquet")
        (described "q.parquet")
        read)
      (joined ("import-" ∷ "u" ∷ []))
      (create_import platform 7 "u" good_upload waiting)
unfolding get has joined
create_import-Settles_example =
    create_import-Settles platform 7 "u" good_upload waiting (described "s.parquet")
      (described "q.parquet") read refl refl refl refl
      (λ sound. ((snapshot, [], refl), ("E", refl)))
