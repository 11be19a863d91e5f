-- ===== src/Heatmap/Unavailable.antt =====
-- `build_heatmap_payload` of heatmap/service.py while the database is down.
use gamma_scope.Prelude.{ℕ, String, string_eq, ◌≡◌, refl, ap, ◌∙◌, Bool, true, false, if◌then◌else◌}
use gamma_scope.Prelude.Dict.{put-put_same}
use gamma_scope.Replay.Effects.{Error, Result, ok, err, ◌>>=◌, lift, raise, continue}
use gamma_scope.Replay.Publish.{and_then, parse_time}
use gamma_scope.Replay.Reader.Values.{Value}
use gamma_scope.Heatmap.Payload.{Payload}
use gamma_scope.Heatmap.Service.{
  HeatmapRepository, SourceSnapshot, Heatmaps, with_status, chosen_records, payload_of, persisted,
  build_for, build_heatmap_payload, baseline_records, records_from, trading_class, is_metric,
}

-- The outcome with the persistence status `unavailable`.
abbrev pub as_unavailable : {S : Type 0} → Result Payload × S → Result Payload × S
as_unavailable (r, s) = (and_then r λ payload. ok (with_status "unavailable" payload), s)

with_status-with_status :
    (x y : String) (payload : Payload)
    → with_status x (with_status y payload) ≡ with_status x payload
with_status-with_status x y payload =
    rw (put-put_same "persistenceStatus" (Value.str x) (Value.str y) payload.fields)

module _ {S : Type 0} (h : Heatmaps) (repository : HeatmapRepository S) where
  module _ (snapshot : SourceSnapshot) (snapshot_time market_date : String) (e : Error) (t : S)
      (down : repository.oi_baseline market_date snapshot.symbol
          (trading_class snapshot.symbol)
          snapshot.expiry
          t
        ≡ (err e, t)) where
    baseline_records-down :
        baseline_records h repository snapshot snapshot_time market_date t ≡ (err e, t)
    unfolding baseline_records
    baseline_records-down = rw down

    chosen_records-down :
        chosen_records h repository true snapshot snapshot_time market_date t
        ≡ (ok (records_from snapshot snapshot_time market_date snapshot.rows, true), t)
    unfolding chosen_records
    chosen_records-down = rw baseline_records-down

  persisted-unavailable :
      (r : Result Payload) (t : S)
      → (lift r >>= persisted h repository true true) t
        ≡ as_unavailable ((lift r >>= persisted h repository false false) t)
  unfolding persisted
  persisted-unavailable (ok payload) t =
      rw (with_status-with_status "unavailable" "skipped" payload)
  persisted-unavailable (err e) t = refl

  module _ (e : Error)
      (down : (m s c x : String) (t : S) → repository.oi_baseline m s c x t ≡ (err e, t)) where
    build_for-down :
        (metric : String) (snapshot : SourceSnapshot) (at : ℕ) (t : S)
        → build_for h repository true metric snapshot at t
          ≡ as_unavailable (build_for h repository false metric snapshot at t)
    unfolding build_for chosen_records
    build_for-down metric snapshot at t =
        ap
          (λ outcome.
            let (r, s) = outcome in
            continue r
              (λ chosen.
                lift (payload_of h metric snapshot at (h.platform.format_datetime at) chosen.0)
                >>= persisted h repository true chosen.1)
              s)
          (chosen_records-down snapshot (h.platform.format_datetime at) (h.new_york_date at) e t (
            down (h.new_york_date at) snapshot.symbol (trading_class snapshot.symbol)
              snapshot.expiry t))
        ∙ persisted-unavailable
            (payload_of h metric snapshot at (h.platform.format_datetime at) (
              records_from snapshot (h.platform.format_datetime at) (h.new_york_date at)
                snapshot.rows))
            t

    branches :
        (metric : String) (snapshot : SourceSnapshot) (e : Error) (b : Bool) (r : Result ℕ) (t : S)
        → (if b then lift r >>= build_for h repository true metric snapshot else raise e) t
          ≡ as_unavailable
              ((if b then lift r >>= build_for h repository false metric snapshot else raise e) t)
    branches metric snapshot e false r t = refl
    branches metric snapshot e true (err x) t = refl
    branches metric snapshot e true (ok at) t = build_for-down metric snapshot at t

    -- While every reading of the baselines raises and changes nothing, a heatmap that is to be
    -- stored has the outcome of one that is not, with the persistence status `unavailable`: the
    -- same payload from the snapshot's own open interest, or the same error, and the repository
    -- stays as it is. So a database that is down never fails a heatmap.
    pub build_heatmap_payload-IsUnavailable :
        (metric : String) (snapshot : SourceSnapshot) (t : S)
        → build_heatmap_payload h repository true metric snapshot t
          ≡ as_unavailable (build_heatmap_payload h repository false metric snapshot t)
    unfolding build_heatmap_payload
    build_heatmap_payload-IsUnavailable metric snapshot t =
        branches metric snapshot _ (is_metric metric) (parse_time h.platform snapshot.snapshot_time)
          t
