-- ===== src/Capture/Examples.antt =====
-- The theorems of the captures on small tables.
use gamma_scope.Prelude.{
  pos, ℕ, suc, zero, ◌+◌, ◌*◌, String, ◌≡◌, refl, ap, true, false, none, some, List, [], ◌∷◌, arith,
}
use gamma_scope.Prelude.Dict.{get}
use gamma_scope.Replay.Effects.{ok, err, io_error, str_of, Platform}
use gamma_scope.Replay.Tables.{Json}
use gamma_scope.Capture.Store.{Snapshot, SnapshotRow, Session, Store, times_of, cleanup_before}
use gamma_scope.Capture.Store.Summed.{IsSummed, RoundTrips}
use gamma_scope.Capture.Store.Calls.{
  StoreCall, insert, update, cleanup, run_store_calls, run_store_calls-IsSummed,
}
use gamma_scope.Prelude.Deleted.{Deleted}
use gamma_scope.Capture.Store.Cleaned.{IsExpired, IsEnded, cleanup_before_counts}
use gamma_scope.Capture.Recorder.Placed.{Placed}
use gamma_scope.Capture.Recorder.{
  not_captured, one, Recorder, capture_live, capture_built, recorded,
}
use gamma_scope.Capture.Recorder.Spacing.{capture_live_pause}
use gamma_scope.Capture.Retention.{
  Database, RetentionReport, Settings, microseconds_per_day, retention_days, replay_days_of,
  saved_view_days_of, cleanup_retention,
}
use gamma_scope.Capture.Retention.Expired.{IsCleaned, cleanup_retention-IsCleaned}

-- Times are written by as many strokes.
abbrev pub strokes : String → ℕ
strokes String.[] = 0
strokes (String.◌∷◌ c s) = suc (strokes s)

abbrev pub stroked : ℕ → String
stroked zero = ""
stroked (suc n) = String.◌∷◌ "|" (stroked n)

abbrev pub platform : Platform
platform = record {
  parse_datetime = λ s. some (strokes s);
  format_datetime = stroked;
  repr = λ s. s;
  lower = λ s. s;
  sha256_hex = λ s. s;
}

strokes-stroked : (n : ℕ) → strokes (stroked n) ≡ n
strokes-stroked zero = refl
strokes-stroked (suc n) = ap suc (strokes-stroked n)

pub platform-RoundTrips : RoundTrips platform
platform-RoundTrips n = ap some (strokes-stroked n)

abbrev snapshot : String → Snapshot
snapshot at = record {
  session_id = "S";
  symbol = "SPX";
  expiry = "E";
  mode = "live";
  snapshot_time = at;
  rows = Json.null ∷ [];
  rest = [];
}

abbrev no_rows : Store
no_rows = record { sessions = []; snapshots = []; next_id = 1 }

no_rows-IsSummed : IsSummed no_rows
unfolding times_of get
no_rows-IsSummed k = refl

abbrev row_at : ℕ → SnapshotRow
row_at at = record { session_id = "S"; snapshot_time = at; payload = snapshot "|"; row_count = 1 }

abbrev two_rows : Store
two_rows = record {
  sessions = [];
  snapshots = (1, row_at 3) ∷ (2, row_at 200000000000) ∷ [];
  next_id = 3;
}

abbrev calls : List StoreCall
calls =
    insert (snapshot "|") "ibkr"
    ∷ insert (snapshot "|||") "ibkr"
    ∷ update 1 (snapshot "||") "ibkr"
    ∷ cleanup (λ s t. true) 3 false none
    ∷ []

run_store_calls-IsSummed_example : IsSummed (run_store_calls platform no_rows calls)
run_store_calls-IsSummed_example =
    run_store_calls-IsSummed platform calls no_rows platform-RoundTrips no_rows-IsSummed

cleanup_before_counts_example :
    Deleted
      (IsExpired (λ s t. true) none 5)
      two_rows.snapshots
      (cleanup_before (λ s t. true) 5 false none two_rows).0.snapshots
      (cleanup_before (λ s t. true) 5 false none two_rows).1.snapshots
    × ((rest : List (String × Session)) × Deleted
          (IsEnded (λ s t. true) none 5 two_rows)
          two_rows.sessions
          (cleanup_before (λ s t. true) 5 false none two_rows).0.sessions
          rest)
    × (cleanup_before (λ s t. true) 5 true none two_rows
        ≡ ((cleanup_before (λ s t. true) 5 false none two_rows).0, two_rows))
cleanup_before_counts_example = cleanup_before_counts (λ s t. true) none 5 two_rows

abbrev recorder : Recorder
recorder = record { store = no_rows; unavailable_until = none }

capture_live_pause_example :
    capture_live platform 5 10
      (ok (snapshot "|" ∷ []))
      (capture_live platform 5 9 (err (io_error "down")) recorder).1
    ≡ (
      one (not_captured "persistence_unavailable_recently"),
      (capture_live platform 5 9 (err (io_error "down")) recorder).1,
    )
unfolding capture_live capture_built recorded str_of
capture_live_pause_example =
    capture_live_pause platform 5 9 10 (err (io_error "down")) (ok (snapshot "|" ∷ [])) recorder
      "down" refl (omega arith)

abbrev settings : Settings
settings = record {
  parse_int = λ s. some (pos 1);
  replay_days = some "1";
  saved_view_days = none;
  is_atomic = true;
}

abbrev database : Database
database = record {
  captures = two_rows;
  saved_views = record { view_id = "v"; created_at = 4 } ∷ [];
}

cleanup_retention-IsCleaned_example :
    (report : RetentionReport) × (db' : Database) × (cleanup_retention settings false 10000000000000
        database
      ≡ ok (report, db'))
    × (report.replay_cutoff + replay_days_of settings * microseconds_per_day ≡ 10000000000000)
    × (report.saved_view_cutoff + saved_view_days_of settings * microseconds_per_day
        ≡ 10000000000000)
    × IsCleaned database report db'
unfolding replay_days_of saved_view_days_of retention_days
cleanup_retention-IsCleaned_example =
    cleanup_retention-IsCleaned settings 10000000000000 database refl (omega arith) (omega arith)
