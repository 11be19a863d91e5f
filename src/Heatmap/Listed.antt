-- ===== src/Heatmap/Listed.antt =====
-- `oi_baseline` of heatmap/repository.py in PostgreSQL and in memory.
use gamma_scope.Prelude.{
  String, string_eq, ◌≡◌, refl, sym, ap, ◌∙◌, Bool, [], ◌∷◌, keep, map, inl, inr, Bool-cases,
}
use gamma_scope.Prelude.Order.{str_ord}
use gamma_scope.Prelude.Sort.{sorted, map-sorted}
use gamma_scope.Prelude.Dict.{values}
use gamma_scope.Replay.Effects.{Platform}
use gamma_scope.Heatmap.Records.{BaselineKey, key_eq}
use gamma_scope.Heatmap.Memory
use gamma_scope.Heatmap.Memory.{
  Baselines, is_of, upsert_baseline, upsert_normalized, upsert_provisional,
  should_replace_provisional, replace_if,
}
use gamma_scope.Heatmap.Postgres
use gamma_scope.Heatmap.Postgres.{
  BaselineRow, BaselineTable, on_conflict, row_of, baseline_from_record, returned, selected,
  upsert_record,
}
use gamma_scope.Heatmap.Agreement.{view}

module _ (p : Platform) where
  values-keep-view :
      (q : BaselineKey → Bool) (t : BaselineTable)
      → values (keep (λ e. q e.0) (view p t))
        ≡ map (baseline_from_record p) (values (keep (λ e. q e.0) t))
  values-keep-view q [] = refl
  values-keep-view q ((k, row) ∷ t) = elim (Bool-cases (q k)) [
    | inl e ↦ rw e (ap (◌∷◌ (baseline_from_record p row)) (values-keep-view q t))
    | inr e ↦ rw e (values-keep-view q t)
  ]

  -- From a table that memory holds as well, `oi_baseline` returns the same list in memory as in
  -- PostgreSQL, in the same order.
  pub oi_baseline-eq :
      (market_date symbol trading_class expiration_date : String) (t : BaselineTable)
      → Memory.oi_baseline market_date symbol trading_class expiration_date (view p t)
        ≡ Postgres.oi_baseline p market_date symbol trading_class expiration_date t
  unfolding Memory.oi_baseline Postgres.oi_baseline baseline_from_record
  oi_baseline-eq market_date symbol trading_class expiration_date t =
      ap (sorted str_ord (λ r. r.contract_id))
        (values-keep-view (is_of market_date symbol trading_class expiration_date) t)
      ∙ sym (
          map-sorted str_ord (λ r. r.contract_id) (baseline_from_record p)
            (values (keep (λ e. is_of market_date symbol trading_class expiration_date e.0) t)))
