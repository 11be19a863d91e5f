-- ===== src/Heatmap/Examples.antt =====
-- The theorems of the heatmaps on small tables.
use gamma_scope.Prelude.{
  ℕ, pos, String, string_eq, ◌≡◌, refl, ℤ, Bool, true, false, Option, none, some, List, [], ◌∷◌,
  All, map,
}
use gamma_scope.Prelude.Dict.{get, put}
use gamma_scope.Replay.Effects.{Result, ok, err, io_error, raise}
use gamma_scope.Replay.Publish.{and_then}
use gamma_scope.Replay.Reader.Values.{Value}
use gamma_scope.Replay.Reader.Examples.{library}
use gamma_scope.Capture.Examples.{platform, platform-RoundTrips}
use gamma_scope.Heatmap.Records.{
  OiBaseline, key_eq, baseline_key, normalized_baseline, is_lock_time,
}
use gamma_scope.Replay.Columns.{fits_text, fits_texts}
use gamma_scope.Heatmap.Columns.{baseline_fits}
use gamma_scope.Heatmap.Memory
use gamma_scope.Heatmap.Postgres
use gamma_scope.Heatmap.Postgres.{
  BaselineRow, BaselineTable, row_of, baseline_from_record, upsert_record, on_conflict,
}
use gamma_scope.Heatmap.Agreement.{view, Agrees, upsert_oi_baseline-Agrees}
use gamma_scope.Heatmap.Listed.{oi_baseline-eq}
use gamma_scope.Heatmap.Locked.{Follows, IsStored, upsert_oi_baseline-Follows}
use gamma_scope.Heatmap.Moments.{instant_key_eq}
use gamma_scope.Heatmap.Payload.{HeatmapRow, Payload, normalized_payload, first_value, cell_record}
use gamma_scope.Heatmap.Snapshots.{
  HeatmapTables, HeatmapSummary, upsert_heatmap_snapshot, write_snapshot, cells_of,
}
use gamma_scope.Heatmap.Linked.{IsLinked}
use gamma_scope.Heatmap.Service.{
  HeatmapRepository, SourceRow, SourceSnapshot, ContractInput, Heatmaps, build_heatmap_payload,
  build_for, chosen_records, baseline_records, persisted, payload_of, contract_inputs, records_from,
  by_contract, captured_at,
}
use gamma_scope.Heatmap.Unavailable.{as_unavailable, build_heatmap_payload-IsUnavailable}
use gamma_scope.Heatmap.Latest.{IsLatest, upsert_heatmap_snapshot-IsLinked}

-- The time of day is the time; a baseline of contract `c` at some strokes.
abbrev baseline : String → String → OiBaseline
baseline c time = record {
  market_date = "2026-01-02";
  symbol = "SPX";
  trading_class = "SPXW";
  expiration_date = "2026-01-02";
  contract_id = c;
  open_interest = pos 10;
  observed_at = time;
  right = "call";
  strike = 100;
  captured_at = "";
  source_snapshot_time = "";
  locked = false;
}

abbrev row_at : String → ℕ → Bool → BaselineRow
row_at c at locked = record {
  key = record {
    market_date = "2026-01-02";
    symbol = "SPX";
    trading_class = "SPXW";
    expiration_date = "2026-01-02";
    contract_id = c;
  };
  right = "call";
  strike = 100;
  open_interest = pos 7;
  observed_at = at;
  captured_at = at;
  source_snapshot_time = at;
  locked = locked;
}

-- One locked baseline and one that is not.
abbrev table : BaselineTable
table =
    ((row_at "a" 1 true).key, row_at "a" 1 true)
    ∷ ((row_at "b" 3 false).key, row_at "b" 3 false)
    ∷ []

abbrev new_york_time : ℕ → ℕ
new_york_time at = at

-- One for the locked row, one that is too old, one that is later, one that is new.
abbrev records : List OiBaseline
records = baseline "a" "||" ∷ baseline "b" "||" ∷ baseline "b" "||||" ∷ baseline "c" "|" ∷ []

records_fit : All (λ r. baseline_fits r ≡ true) records
unfolding baseline_fits fits_texts fits_text
records_fit = (refl, (refl, (refl, (refl, tt))))

upsert_oi_baseline-Agrees_example :
    Agrees platform
      (Postgres.upsert_oi_baseline platform new_york_time records table)
      (Memory.upsert_oi_baseline platform new_york_time records (view platform table))
upsert_oi_baseline-Agrees_example =
    upsert_oi_baseline-Agrees platform platform-RoundTrips new_york_time records table records_fit

oi_baseline-eq_example :
    Memory.oi_baseline "2026-01-02" "SPX" "SPXW" "2026-01-02" (view platform table)
    ≡ Postgres.oi_baseline platform "2026-01-02" "SPX" "SPXW" "2026-01-02" table
oi_baseline-eq_example = oi_baseline-eq platform "2026-01-02" "SPX" "SPXW" "2026-01-02" table

abbrev table_of : Result (List OiBaseline × BaselineTable) → BaselineTable
table_of (ok (stored, t)) = t
table_of (err e) = []

abbrev stored_of : Result (List OiBaseline × BaselineTable) → List OiBaseline
stored_of (ok (stored, t)) = stored
stored_of (err e) = []

upsert_oi_baseline-Follows_example :
    Follows table (table_of (Postgres.upsert_oi_baseline platform new_york_time records table))
    × All
        (IsStored platform new_york_time
          (table_of (Postgres.upsert_oi_baseline platform new_york_time records table)))
        records
unfolding Postgres.upsert_oi_baseline upsert_record normalized_baseline is_lock_time row_of
    on_conflict baseline_key get put baseline_fits fits_texts fits_text
upsert_oi_baseline-Follows_example =
    upsert_oi_baseline-Follows platform new_york_time records table
      (table_of (Postgres.upsert_oi_baseline platform new_york_time records table))
      (stored_of (Postgres.upsert_oi_baseline platform new_york_time records table)) refl

abbrev heatmap_row : HeatmapRow
heatmap_row = record {
  fields = ("strike", Value.float 100) ∷ ("gex", Value.float 5) ∷ ("callGex", Value.null) ∷ [];
  tags = some ("king" ∷ []);
}

abbrev payload : Payload
payload = record {
  fields =
      ("sessionId", Value.str "S")
      ∷ ("lastSyncedAt", Value.str "|||")
      ∷ ("positionMode", Value.str "oi_proxy")
      ∷ ("symbol", Value.str "SPX")
      ∷ ("tradingClass", Value.str "SPXW")
      ∷ ("expirationDate", Value.str "2026-01-02")
      ∷ ("spot", Value.float 100)
      ∷ [];
  rows = some (heatmap_row ∷ []);
}

abbrev no_heatmaps : HeatmapTables
no_heatmaps = record { snapshots = []; cells = []; buckets = [] }

no_heatmaps-IsLinked : IsLinked platform library 1 no_heatmaps
unfolding get
no_heatmaps-IsLinked = record {
  given = λ k s h. absurd (cc);
  own = λ j k r s h h' same. absurd (cc);
  cells = λ k s h. absurd (cc);
  buckets = λ k b h. absurd (cc);
}

abbrev tables_of : Result (HeatmapSummary × HeatmapTables) → HeatmapTables
tables_of (ok (summary, t)) = t
tables_of (err e) = no_heatmaps

abbrev summary : HeatmapSummary
summary = record {
  heatmap_snapshot_id = 1;
  session_id = "S";
  source_snapshot_time = "|||";
  position_mode = "oi_proxy";
  row_count = 1;
}

upsert_heatmap_snapshot-IsLinked_example :
    IsLinked platform library 2
      (tables_of (upsert_heatmap_snapshot platform library 1 payload no_heatmaps))
    × IsLatest platform summary
        (tables_of (upsert_heatmap_snapshot platform library 1 payload no_heatmaps))
unfolding upsert_heatmap_snapshot normalized_payload first_value write_snapshot cells_of cell_record
    get put
upsert_heatmap_snapshot-IsLinked_example =
    upsert_heatmap_snapshot-IsLinked platform library 1 no_heatmaps no_heatmaps-IsLinked payload
      summary (tables_of (upsert_heatmap_snapshot platform library 1 payload no_heatmaps))
      platform-RoundTrips refl

abbrev row_of_input : ContractInput → HeatmapRow
row_of_input input = record { fields = ("strike", Value.float input.strike) ∷ []; tags = none }

abbrev heatmaps : Heatmaps
heatmaps = record {
  platform = platform;
  new_york_time = λ at. at;
  new_york_date = λ at. "2026-01-02";
  days_to = λ from to. ok 0;
  heatmap_rows = λ metric spot inputs. ok (map row_of_input inputs, Value.null);
}

abbrev source_row : String → Option ℤ → SourceRow
source_row c interest = record {
  contract_id = c;
  right = "call";
  strike = 100;
  open_interest = interest;
  custom_gamma = some 2;
  custom_vanna = some 3;
}

abbrev map_status : Result Payload → Result (Option Value)
map_status r = and_then r λ payload. ok (get "persistenceStatus" payload.fields)

abbrev unreachable : HeatmapRepository BaselineTable
unreachable = record {
  oi_baseline = λ m s c x. raise (io_error "connection refused");
  upsert_oi_baseline = λ records. raise (io_error "connection refused");
  upsert_heatmap_snapshot = λ payload. raise (io_error "connection refused");
}

abbrev live_snapshot : SourceSnapshot
live_snapshot = record {
  session_id = "live";
  symbol = "SPX";
  expiry = "2026-01-02";
  snapshot_time = "|||";
  mode = "live";
  spot = 100;
  freshness_ms = none;
  rows = source_row "a" (some (pos 10)) ∷ source_row "b" none ∷ [];
}

build_heatmap_payload-IsUnavailable_example :
    build_heatmap_payload heatmaps unreachable true "gex" live_snapshot []
    ≡ as_unavailable (build_heatmap_payload heatmaps unreachable false "gex" live_snapshot [])
build_heatmap_payload-IsUnavailable_example =
    build_heatmap_payload-IsUnavailable heatmaps unreachable (io_error "connection refused")
      (λ m s c x t. refl) "gex" live_snapshot []

-- The status when the database is down.
is_unavailable :
    map_status (build_heatmap_payload heatmaps unreachable true "gex" live_snapshot []).0
    ≡ ok (some (Value.str "unavailable"))
unfolding build_heatmap_payload build_for chosen_records baseline_records persisted payload_of
    contract_inputs records_from by_contract captured_at get put
is_unavailable = refl
