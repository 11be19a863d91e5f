-- ===== src/Heatmap/Memory.antt =====
-- `InMemoryHeatmapRepository` of heatmap/repository.py: the baselines.
use gamma_scope.Prelude.{
  ℕ, String, string_eq, Bool, true, false, ◌&&◌, Option, none, some, List, [], ◌∷◌, ◌==◌, leb, keep,
  if◌then◌else◌,
}
use gamma_scope.Prelude.Order.{str_ord}
use gamma_scope.Prelude.Sort.{sorted}
use gamma_scope.Prelude.Dict.{Dict, get, put, values}
use gamma_scope.Replay.Effects.{Result, ok, Platform, Tx, Exec, pure, transact, ◌>>=◌}
use gamma_scope.Replay.Publish.{and_then, parse_time}
use gamma_scope.Heatmap.Records.{OiBaseline, BaselineKey, key_eq, baseline_key, normalized_baseline}

abbrev pub Baselines : Type 0
Baselines = Dict BaselineKey OiBaseline

module _ (p : Platform) where
  -- `_should_replace_provisional`
  unfoldable pub should_replace_provisional : OiBaseline → OiBaseline → Result Bool
  should_replace_provisional existing incoming =
      if incoming.locked
      then ok true
      else and_then (parse_time p incoming.source_snapshot_time)
          λ new. and_then (parse_time p existing.source_snapshot_time) λ old. ok (leb old new)

  abbrev pub replace_if : OiBaseline → OiBaseline → Baselines → Bool → OiBaseline × Baselines
  replace_if existing n m true = (n, put (baseline_key n) n m)
  replace_if existing n m false = (existing, m)

  abbrev pub upsert_provisional :
      OiBaseline → OiBaseline → Baselines → Result (OiBaseline × Baselines)
  upsert_provisional existing n m =
      and_then (should_replace_provisional existing n) λ b. ok (replace_if existing n m b)

  abbrev pub upsert_normalized :
      OiBaseline → Baselines → Option OiBaseline → Result (OiBaseline × Baselines)
  upsert_normalized n m none = ok (n, put (baseline_key n) n m)
  upsert_normalized n m (some existing) =
      if existing.locked then ok (existing, m) else upsert_provisional existing n m

  module _ (new_york_time : ℕ → ℕ) where
    -- The body of the loop; what an iteration raises, earlier ones have stored.
    unfoldable pub upsert_baseline : OiBaseline → Tx Baselines OiBaseline
    upsert_baseline r m =
        and_then (normalized_baseline p new_york_time r)
          λ n. upsert_normalized n m (get (baseline_key n) m)

    -- `upsert_oi_baseline`
    unfoldable pub upsert_oi_baseline : List OiBaseline → Exec Baselines (List OiBaseline)
    upsert_oi_baseline [] = pure []
    upsert_oi_baseline (r ∷ records) = do
      stored ← transact (upsert_baseline r)
      rest ← upsert_oi_baseline records
      pure (stored ∷ rest)

abbrev pub is_of : String → String → String → String → BaselineKey → Bool
is_of market_date symbol trading_class expiration_date k =
    k.market_date == market_date
    && k.symbol == symbol
    && k.trading_class == trading_class
    && k.expiration_date == expiration_date

-- `oi_baseline`
unfoldable pub oi_baseline : String → String → String → String → Baselines → List OiBaseline
oi_baseline market_date symbol trading_class expiration_date m =
    sorted str_ord (λ r. r.contract_id)
      (values (keep (λ e. is_of market_date symbol trading_class expiration_date e.0) m))
