-- ===== src/Heatmap/Service.antt =====
-- `build_heatmap_payload` of heatmap/service.py, over any repository.
--
-- The exposures, colours and nodes of a metric (heatmap/exposure.py, heatmap/nodes.py, in floating
-- point) are a field of the record `Heatmaps`. The values of the snapshot have their types: the
-- conversions by str(), float() and int() do nothing.
use gamma_scope.Prelude.{
  ℕ, ℤ, pos, String, string_eq, Bool, true, false, ◌||◌, Option, none, some, List, [], ◌∷◌, ◌==◌,
  leb, ltb, keep, map, if◌then◌else◌,
}
use gamma_scope.Prelude.Order.{str_ord}
use gamma_scope.Prelude.Sort.{min_by}
use gamma_scope.Prelude.Dict.{Dict, get, put, values}
use gamma_scope.Replay.Effects.{
  Result, ok, err, value_error, joined, Platform, Exec, pure, raise, lift, ◌>>=◌,
}
use gamma_scope.Replay.Publish.{and_then, parse_time}
use gamma_scope.Replay.Reader.Values.{Value}
use gamma_scope.Heatmap.Records.{OiBaseline, lock_time}
use gamma_scope.Heatmap.Payload.{HeatmapRow, Payload}

-- `HeatmapRepository`: what the service calls, over the state of a repository.
pub record HeatmapRepository (S : Type 0) : Type 0 where
  pub oi_baseline : String → String → String → String → Exec S (List OiBaseline)
  pub upsert_oi_baseline : List OiBaseline → Exec S (List OiBaseline)
  pub upsert_heatmap_snapshot : Payload → Exec S (Unit {0})

-- A row of a live or replayed snapshot.
pub record SourceRow : Type 0 where
  pub contract_id : String
  pub right : String
  pub strike : ℕ
  pub open_interest : Option ℤ
  pub custom_gamma : Option ℕ
  pub custom_vanna : Option ℕ

pub record SourceSnapshot : Type 0 where
  pub session_id : String
  pub symbol : String
  pub expiry : String
  pub snapshot_time : String
  pub mode : String
  pub spot : ℕ
  pub freshness_ms : Option ℕ
  pub rows : List SourceRow

-- `HeatmapContractInput` of heatmap/exposure.py
pub record ContractInput : Type 0 where
  pub contract_id : String
  pub right : String
  pub strike : ℕ
  pub baseline_open_interest : Option ℤ
  pub custom_gamma : Option ℕ
  pub custom_vanna : Option ℕ

pub record Heatmaps : Type 0 where
  pub platform : Platform
  -- the time of day and the ISO date in New York
  pub new_york_time : ℕ → ℕ
  pub new_york_date : ℕ → String
  -- the days from a date to another, not below 0
  pub days_to : String → String → Result ℕ
  -- the rows, and the value of the key `nodes`
  pub heatmap_rows : String → ℕ → List ContractInput → Result (List HeatmapRow × Value)

-- `_trading_class`
abbrev pub trading_class : String → String
trading_class symbol = if symbol == "SPX" then "SPXW" else symbol

-- `{record.contract_id: record for record in records}`, and `update` by one
unfoldable pub by_contract : List OiBaseline → Dict String OiBaseline → Dict String OiBaseline
by_contract [] d = d
by_contract (r ∷ records) d = by_contract records (put r.contract_id r d)

abbrev pub record_of : SourceSnapshot → String → String → SourceRow → ℤ → OiBaseline
record_of snapshot snapshot_time market_date row interest = record {
  market_date = market_date;
  symbol = snapshot.symbol;
  trading_class = trading_class snapshot.symbol;
  expiration_date = snapshot.expiry;
  contract_id = row.contract_id;
  open_interest = interest;
  observed_at = snapshot_time;
  right = row.right;
  strike = row.strike;
  captured_at = snapshot_time;
  source_snapshot_time = snapshot_time;
  locked = false;
}

abbrev pub record_then :
    SourceSnapshot → String → String → SourceRow → Option ℤ → List OiBaseline → List OiBaseline
record_then snapshot snapshot_time market_date row none rest = rest
record_then snapshot snapshot_time market_date row (some interest) rest =
    record_of snapshot snapshot_time market_date row interest ∷ rest

-- `_baseline_records_from_snapshot`
unfoldable pub records_from : SourceSnapshot → String → String → List SourceRow → List OiBaseline
records_from snapshot snapshot_time market_date [] = []
records_from snapshot snapshot_time market_date (row ∷ rows) =
    record_then snapshot snapshot_time market_date row row.open_interest
      (records_from snapshot snapshot_time market_date rows)

-- `_right`
abbrev pub checked_right : String → Result String
checked_right right =
    if right == "call" || right == "put"
    then ok right
    else err (value_error (joined ("unsupported option right: " ∷ right ∷ [])))

-- `_baseline_open_interest`
abbrev pub interest_of : Option OiBaseline → Option ℤ
interest_of none = none
interest_of (some r) = some r.open_interest

abbrev pub baseline_open_interest : String → Dict String OiBaseline → Option ℤ
baseline_open_interest contract_id baselines = interest_of (get contract_id baselines)

-- The inputs of the exposures.
unfoldable pub contract_inputs :
    Dict String OiBaseline → List SourceRow → Result (List ContractInput)
contract_inputs baselines [] = ok []
contract_inputs baselines (row ∷ rows) = and_then (checked_right row.right) λ right.
    and_then (contract_inputs baselines rows) λ inputs. ok (
      record {
        contract_id = row.contract_id;
        right = right;
        strike = row.strike;
        baseline_open_interest = baseline_open_interest row.contract_id baselines;
        custom_gamma = row.custom_gamma;
        custom_vanna = row.custom_vanna;
      }
      ∷ inputs)

-- `_baseline_captured_at`
abbrev pub optional_text : Option String → Value
optional_text none = Value.null
optional_text (some s) = Value.str s

unfoldable pub captured_at : List OiBaseline → Value
captured_at records = optional_text (
    min_by str_ord (λ s. s)
      (keep (λ s. if s == "" then false else true) (map (λ r. r.captured_at) records)))

-- `_is_stale`
abbrev pub is_stale : Option ℕ → Bool
is_stale none = false
is_stale (some ms) = ltb 10000 ms

abbrev pub with_status : String → Payload → Payload
with_status status payload = record payload {
  fields = put "persistenceStatus" (Value.str status) payload.fields;
}

-- `try: m except Exception: fallback`, with whether it raised.
abbrev pub attempted : {S A : Type 0} → A → Result A × S → Result (A × Bool) × S
attempted fallback (ok a, t) = (ok (a, false), t)
attempted fallback (err e, t) = (ok (fallback, true), t)

abbrev pub is_metric : String → Bool
is_metric metric = metric == "gex" || metric == "vex"

module _ (h : Heatmaps) where
  -- What is computed from the records.
  unfoldable pub payload_of :
      String → SourceSnapshot → ℕ → String → List OiBaseline → Result Payload
  payload_of metric snapshot at snapshot_time records =
      and_then (contract_inputs (by_contract records []) snapshot.rows) λ inputs.
        and_then (h.heatmap_rows metric snapshot.spot inputs) λ (rows, nodes).
          and_then (h.days_to (h.new_york_date at) snapshot.expiry) λ dte.
            let is_locked = leb lock_time (h.new_york_time at) in
            ok (record {
              fields =
                  ("sessionId", Value.str snapshot.session_id)
                  ∷ ("symbol", Value.str snapshot.symbol)
                  ∷ ("tradingClass", Value.str (trading_class snapshot.symbol))
                  ∷ ("dte", Value.int (pos dte))
                  ∷ ("expirationDate", Value.str snapshot.expiry)
                  ∷ ("spot", Value.float snapshot.spot)
                  ∷ ("metric", Value.str metric)
                  ∷ ("positionMode", Value.str "oi_proxy")
                  ∷ ("oiBaselineStatus", Value.str (if is_locked then "locked" else "provisional"))
                  ∷ ("oiBaselineCapturedAt", if is_locked then captured_at records else Value.null)
                  ∷ ("lastSyncedAt", Value.str snapshot_time)
                  ∷ ("isLive", Value.bool (snapshot.mode == "live"))
                  ∷ ("isStale", Value.bool (is_stale snapshot.freshness_ms))
                  ∷ ("persistenceStatus", Value.str "pending")
                  ∷ ("nodes", nodes)
                  ∷ [];
              rows = some rows;
            })

module _ {S : Type 0} (h : Heatmaps) (repository : HeatmapRepository S) where
  abbrev pub upsert_unless_empty : List OiBaseline → Exec S (List OiBaseline)
  upsert_unless_empty [] = pure []
  upsert_unless_empty (r ∷ records) = repository.upsert_oi_baseline (r ∷ records)

  -- `_baseline_records`
  unfoldable pub baseline_records : SourceSnapshot → String → String → Exec S (List OiBaseline)
  baseline_records snapshot snapshot_time market_date = do
    existing ←
        repository.oi_baseline market_date snapshot.symbol (trading_class snapshot.symbol)
          snapshot.expiry
    new ← upsert_unless_empty (records_from snapshot snapshot_time market_date snapshot.rows)
    pure (values (by_contract new (by_contract existing [])))

  -- The records, and whether persistence is unavailable.
  unfoldable pub chosen_records :
      Bool → SourceSnapshot → String → String → Exec S (List OiBaseline × Bool)
  chosen_records true snapshot snapshot_time market_date t =
      attempted (records_from snapshot snapshot_time market_date snapshot.rows)
        (baseline_records snapshot snapshot_time market_date t)
  chosen_records false snapshot snapshot_time market_date t =
      (ok (records_from snapshot snapshot_time market_date snapshot.rows, false), t)

  -- The last step: the payload is stored, unless persistence is off or has failed.
  abbrev pub status_of : Payload → Result (Unit {0}) × S → Result Payload × S
  status_of payload (ok _, t) = (ok (with_status "persisted" payload), t)
  status_of payload (err e, t) = (ok (with_status "unavailable" payload), t)

  unfoldable pub persisted : Bool → Bool → Payload → Exec S Payload
  persisted false unavailable payload t = (ok (with_status "skipped" payload), t)
  persisted true true payload t = (ok (with_status "unavailable" payload), t)
  persisted true false payload t = status_of payload (repository.upsert_heatmap_snapshot payload t)

  unfoldable pub build_for : Bool → String → SourceSnapshot → ℕ → Exec S Payload
  build_for persist metric snapshot at = do
    chosen ← chosen_records persist snapshot (h.platform.format_datetime at) (h.new_york_date at)
    payload ← lift (payload_of h metric snapshot at (h.platform.format_datetime at) chosen.0)
    persisted persist chosen.1 payload

  unfoldable pub build_heatmap_payload : Bool → String → SourceSnapshot → Exec S Payload
  build_heatmap_payload persist metric snapshot =
      if is_metric metric
      then lift (parse_time h.platform snapshot.snapshot_time) >>= build_for persist metric snapshot
      else raise (value_error (joined ("unsupported heatmap metric: " ∷ metric ∷ [])))
