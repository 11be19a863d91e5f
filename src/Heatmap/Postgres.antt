-- ===== src/Heatmap/Postgres.antt =====
-- `PostgresHeatmapRepository` of heatmap/repository.py: the baselines.
--
-- The table is a dictionary by its unique key; dates are in their ISO form, and the ORDER BY of a
-- text is that of its characters (collation C).
use gamma_scope.Prelude.{
  ℕ, ℤ, String, string_eq, Bool, not, ◌&&◌, ◌||◌, Option, none, some, List, [], ◌∷◌, leb, keep, map,
  if◌then◌else◌,
}
use gamma_scope.Prelude.Order.{str_ord}
use gamma_scope.Prelude.Sort.{sorted}
use gamma_scope.Prelude.Dict.{Dict, get, put, values}
use gamma_scope.Replay.Effects.{Result, ok, err, value_error, Platform, Tx}
use gamma_scope.Replay.Columns.{fitting}
use gamma_scope.Replay.Publish.{and_then, parse_time}
use gamma_scope.Heatmap.Records.{OiBaseline, BaselineKey, key_eq, baseline_key, normalized_baseline}
use gamma_scope.Heatmap.Columns.{baseline_fits}
use gamma_scope.Heatmap.Memory.{is_of}

-- A row of `heatmap_oi_baselines`.
pub record BaselineRow : Type 0 where
  pub key : BaselineKey
  pub right : String
  pub strike : ℕ
  pub open_interest : ℤ
  pub observed_at : ℕ
  pub captured_at : ℕ
  pub source_snapshot_time : ℕ
  pub locked : Bool

abbrev pub BaselineTable : Type 0
BaselineTable = Dict BaselineKey BaselineRow

-- INSERT, or the DO UPDATE with its WHERE; `none` is no row RETURNING. The columns that it leaves
-- are those of the key, in which the rows agree.
unfoldable pub on_conflict : BaselineRow → Option BaselineRow → Option BaselineRow
on_conflict row none = some row
on_conflict row (some existing) =
    if not existing.locked
      && (row.locked || leb existing.source_snapshot_time row.source_snapshot_time)
    then some row
    else none

module _ (p : Platform) where
  -- The parameters of the statement, if their columns take them.
  unfoldable pub row_of : OiBaseline → Result BaselineRow
  row_of n = and_then (parse_time p n.observed_at) λ observed.
      and_then (parse_time p n.captured_at) λ captured.
        and_then (parse_time p n.source_snapshot_time) λ source. fitting (baseline_fits n) (record {
          key = baseline_key n;
          right = n.right;
          strike = n.strike;
          open_interest = n.open_interest;
          observed_at = observed;
          captured_at = captured;
          source_snapshot_time = source;
          locked = n.locked;
        })

  -- `_baseline_from_record`
  unfoldable pub baseline_from_record : BaselineRow → OiBaseline
  baseline_from_record row = record {
    market_date = row.key.market_date;
    symbol = row.key.symbol;
    trading_class = row.key.trading_class;
    expiration_date = row.key.expiration_date;
    contract_id = row.key.contract_id;
    open_interest = row.open_interest;
    observed_at = p.format_datetime row.observed_at;
    right = row.right;
    strike = row.strike;
    captured_at = p.format_datetime row.captured_at;
    source_snapshot_time = p.format_datetime row.source_snapshot_time;
    locked = row.locked;
  }

  -- The SELECT where no row came back; there is one, the conflicting.
  abbrev pub selected : BaselineTable → Option BaselineRow → Result (OiBaseline × BaselineTable)
  selected t none = err (value_error "'NoneType' object is not subscriptable")
  selected t (some row) = ok (baseline_from_record row, t)

  abbrev pub returned :
      BaselineRow → BaselineTable → Option BaselineRow → Result (OiBaseline × BaselineTable)
  returned row t (some written) = ok (baseline_from_record written, put row.key written t)
  returned row t none = selected t (get row.key t)

  module _ (new_york_time : ℕ → ℕ) where
    unfoldable pub upsert_record : OiBaseline → Tx BaselineTable OiBaseline
    unfolding on_conflict
    upsert_record r t =
        and_then (normalized_baseline p new_york_time r)
          λ n. and_then (row_of n) λ row. returned row t (on_conflict row (get row.key t))

    -- `upsert_oi_baseline`, in one transaction.
    unfoldable pub upsert_oi_baseline : List OiBaseline → Tx BaselineTable (List OiBaseline)
    upsert_oi_baseline [] t = ok ([], t)
    upsert_oi_baseline (r ∷ records) t = and_then (upsert_record r t) λ (stored, t').
        and_then (upsert_oi_baseline records t') λ (rest, t''). ok (stored ∷ rest, t'')

  -- `oi_baseline`
  unfoldable pub oi_baseline : String → String → String → String → BaselineTable → List OiBaseline
  oi_baseline market_date symbol trading_class expiration_date t = map baseline_from_record (
      sorted str_ord (λ row. row.key.contract_id)
        (values (keep (λ e. is_of market_date symbol trading_class expiration_date e.0) t)))
