-- ===== src/Heatmap/Snapshots.antt =====
-- `upsert_heatmap_snapshot` and `latest_bucket` of `PostgresHeatmapRepository`.
use gamma_scope.Prelude.{
  ℕ, String, string_eq, not, Option, none, some, List, [], ◌∷◌, ◌++◌, ◌==◌, nat_eq, keep, length,
}
use gamma_scope.Prelude.Dict.{Dict, get, put}
use gamma_scope.Replay.Effects.{Result, ok, err, Platform, Tx}
use gamma_scope.Replay.Publish.{and_then, parse_time}
use gamma_scope.Replay.Reader.Values.{Value, Library}
use gamma_scope.Heatmap.Moments.{Moment, instant_key_eq}
use gamma_scope.Heatmap.Payload.{
  HeatmapRow, Payload, rows_of, first_value, payload_value, text_at, text_of, normalized_payload,
  float_of, Cell, cell_record, five_minute_bucket_start,
}

-- A row of `heatmap_snapshots`, without its key.
pub record HeatmapSnapshot : Type 0 where
  pub heatmap_snapshot_id : ℕ
  pub symbol : String
  pub trading_class : String
  pub expiration_date : String
  pub spot : ℕ
  pub oi_baseline_status : Option String
  pub oi_baseline_captured_at : Option ℕ
  pub payload : Payload
  pub row_count : ℕ

-- A row of `heatmap_bucket_5m`, without its key.
pub record Bucket : Type 0 where
  pub heatmap_snapshot_id : ℕ
  pub payload : Payload
  pub row_count : ℕ

pub record HeatmapTables : Type 0 where
  pub snapshots : Dict (Moment ℕ) HeatmapSnapshot
  pub cells : List Cell
  pub buckets : Dict (Moment ℕ) Bucket

-- What `upsert_heatmap_snapshot` returns.
pub record HeatmapSummary : Type 0 where
  pub heatmap_snapshot_id : ℕ
  pub session_id : String
  pub source_snapshot_time : String
  pub position_mode : String
  pub row_count : ℕ

-- An update keeps the id of the row, an insertion takes the next one of the sequence.
abbrev pub id_of : ℕ → Option HeatmapSnapshot → ℕ
id_of next none = next
id_of next (some row) = row.heatmap_snapshot_id

module _ (p : Platform) (lib : Library) where
  abbrev pub text_or_none : Option Value → Option String
  text_or_none none = none
  text_or_none (some Value.null) = none
  text_or_none (some v) = some (lib.str v)

  abbrev pub some_time : Result ℕ → Result (Option ℕ)
  some_time (ok at) = ok (some at)
  some_time (err e) = err e

  -- `_optional_datetime`
  abbrev pub time_or_none : Option String → Result (Option ℕ)
  time_or_none none = ok none
  time_or_none (some s) = some_time (parse_time p s)

  -- The loop over the rows.
  unfoldable pub cells_of : ℕ → List HeatmapRow → Result (List Cell)
  cells_of id [] = ok []
  cells_of id (row ∷ rows) =
      and_then (cell_record p lib id row)
        λ cell. and_then (cells_of id rows) λ cells. ok (cell ∷ cells)

  -- The statements, for the parameters that were made: the snapshot, its cells and its bucket.
  unfoldable pub write_snapshot :
      Moment ℕ → ℕ → Moment ℕ → (ℕ → HeatmapSnapshot) → Tx HeatmapTables HeatmapSummary
  write_snapshot key next bucket_key snapshot t =
      let id = id_of next (get key t.snapshots) in
      let row = snapshot id in
      and_then (cells_of id (rows_of row.payload)) λ cells. ok (
        record {
          heatmap_snapshot_id = id;
          session_id = key.session_id;
          source_snapshot_time = p.format_datetime key.time;
          position_mode = key.position_mode;
          row_count = row.row_count;
        },
        record {
          snapshots = put key row t.snapshots;
          cells = keep (λ c. not (c.heatmap_snapshot_id == id)) t.cells ++ cells;
          buckets =
              put bucket_key
                (record {
                  heatmap_snapshot_id = id;
                  payload = row.payload;
                  row_count = row.row_count;
                })
                t.buckets;
        },
      )

  -- `upsert_heatmap_snapshot`; `next` is what the sequence gives for a new row.
  unfoldable pub upsert_heatmap_snapshot : ℕ → Payload → Tx HeatmapTables HeatmapSummary
  upsert_heatmap_snapshot next payload t = and_then (normalized_payload p lib payload) λ normalized.
      and_then (text_at p lib "sessionId" normalized) λ session_id.
        and_then (text_at p lib "lastSyncedAt" normalized) λ synced.
          and_then (parse_time p synced) λ at.
            and_then (text_at p lib "positionMode" normalized) λ mode.
              and_then (text_of p lib "symbol" [] normalized) λ symbol.
                and_then (text_of p lib "trading_class" ("tradingClass" ∷ []) normalized)
                  λ trading_class.
                    and_then (text_of p lib "expiration_date" ("expirationDate" ∷ []) normalized)
                      λ expiration_date.
                        and_then
                          (and_then (payload_value "spot" [] normalized) λ v. float_of p lib v)
                          λ spot.
                            and_then
                              (time_or_none (
                                text_or_none (
                                  first_value
                                    ("oi_baseline_captured_at" ∷ "oiBaselineCapturedAt" ∷ [])
                                    normalized.fields)))
                              λ captured_at.
                                and_then
                                  (and_then (five_minute_bucket_start p synced) λ s. parse_time p s)
                                  λ bucket.
                                    write_snapshot
                                      (record {
                                        session_id = session_id;
                                        time = at;
                                        position_mode = mode;
                                      })
                                      next
                                      (record {
                                        session_id = session_id;
                                        time = bucket;
                                        position_mode = mode;
                                      })
                                      (λ id. record {
                                        heatmap_snapshot_id = id;
                                        symbol = symbol;
                                        trading_class = trading_class;
                                        expiration_date = expiration_date;
                                        spot = spot;
                                        oi_baseline_status = text_or_none (
                                            first_value
                                              ("oi_baseline_status" ∷ "oiBaselineStatus" ∷ [])
                                              normalized.fields);
                                        oi_baseline_captured_at = captured_at;
                                        payload = normalized;
                                        row_count = length (rows_of normalized);
                                      })
                                      t

-- `latest_bucket`, of the instant of `bucket_start`.
unfoldable pub latest_bucket : String → ℕ → String → HeatmapTables → Option Bucket
latest_bucket session_id at mode t =
    get (record { session_id = session_id; time = at; position_mode = mode }) t.buckets
