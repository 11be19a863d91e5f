-- ===== src/Heatmap/Latest.antt =====
-- `upsert_heatmap_snapshot` of heatmap/repository.py as a whole.
use mathlib.Core.Path.{subst}
use gamma_scope.Prelude.{
  ℕ, suc, String, string_eq, nat_eq, ◌≡◌, refl, sym, ap, ◌∙◌, some, List, [], ◌∷◌, ◌++◌,
}
use gamma_scope.Prelude.Dict.{get, put, get-put_self}
use gamma_scope.Replay.Effects.{ok, Platform}
use gamma_scope.Replay.Publish.{and_then, parse_time, time_or_error}
use gamma_scope.Replay.Publish.Rows.{and_then-eq-ok, and_then_elim}
use gamma_scope.Replay.Reader.Values.{Library}
use gamma_scope.Capture.Store.Summed.{RoundTrips}
use gamma_scope.Heatmap.Steps.{ok_eq}
use gamma_scope.Heatmap.Moments.{Moment, instant_key_eq}
use gamma_scope.Heatmap.Payload.{
  Payload, rows_of, first_value, payload_value, text_at, text_of, normalized_payload, float_of,
  Cell, bucket_of, five_minute_bucket_start,
}
use gamma_scope.Heatmap.Snapshots.{
  HeatmapSnapshot, Bucket, HeatmapTables, HeatmapSummary, id_of, text_or_none, time_or_none,
  cells_of, write_snapshot, upsert_heatmap_snapshot, latest_bucket,
}
use gamma_scope.Heatmap.Linked.{IsLinked, without, bucket_key}
use gamma_scope.Heatmap.Written.{bucket_row, written-IsLinked}

-- What a write returns is what the bucket then holds.
abbrev pub IsLatest : Platform → HeatmapSummary → HeatmapTables → Type 0
IsLatest p summary t =
    (at : ℕ) × (b : Bucket) × (summary.source_snapshot_time ≡ p.format_datetime at)
    × (latest_bucket summary.session_id (bucket_of at) summary.position_mode t ≡ some b)
    × (b.heatmap_snapshot_id ≡ summary.heatmap_snapshot_id)
    × (b.row_count ≡ summary.row_count)

-- What a write gives, by the id and the bucket.
abbrev outcome :
    Platform
    → HeatmapTables
    → Moment ℕ
    → HeatmapSnapshot
    → List Cell
    → ℕ
    → Moment ℕ
    → HeatmapSummary × HeatmapTables
outcome p t key s made id bucket = (
  record {
    heatmap_snapshot_id = id;
    session_id = key.session_id;
    source_snapshot_time = p.format_datetime key.time;
    position_mode = key.position_mode;
    row_count = s.row_count;
  },
  record {
    snapshots = put key s t.snapshots;
    cells = without id t.cells ++ made;
    buckets =
        put bucket
          (record { heatmap_snapshot_id = id; payload = s.payload; row_count = s.row_count })
          t.buckets;
  },
)

module _ (p : Platform) (lib : Library) (next : ℕ) (t : HeatmapTables)
    (h : IsLinked p lib next t) where
  write_snapshot-IsLinked :
      (key bucket : Moment ℕ) (snapshot : ℕ → HeatmapSnapshot) (summary : HeatmapSummary)
      (t' : HeatmapTables)
      → ((id : ℕ) → (snapshot id).heatmap_snapshot_id ≡ id)
      → bucket_key key ≡ bucket
      → write_snapshot p lib key next bucket snapshot t ≡ ok (summary, t')
      → IsLinked p lib (suc next) t' × IsLatest p summary t'
  unfolding write_snapshot latest_bucket
  write_snapshot-IsLinked key bucket snapshot summary t' numbered its_bucket done =
      let id = id_of next (get key t.snapshots) in
      let s = snapshot id in
      let (made, made_of, e) = and_then-eq-ok (cells_of p lib id (rows_of s.payload)) _ done in
      let its : s.heatmap_snapshot_id ≡ id = numbered id in
      let made_its : cells_of p lib s.heatmap_snapshot_id (rows_of s.payload) ≡ ok made =
        ap (λ i. cells_of p lib i (rows_of s.payload)) its ∙ made_of in
      let result : outcome p t key s made s.heatmap_snapshot_id (bucket_key key) ≡ (summary, t') =
        ap (λ i. outcome p t key s made i (bucket_key key)) its
        ∙ ap (outcome p t key s made id) its_bucket
        ∙ ok_eq _ _ e in
      subst (λ x. IsLinked p lib (suc next) x.1 × IsLatest p x.0 x.1) result
        (
          written-IsLinked p lib next t h key s its made made_its,
          (
            key.time,
            bucket_row s,
            refl,
            get-put_self (bucket_key key) (bucket_row s) t.buckets,
            refl,
            refl,
          ),
        )

  parse_bucket :
      (synced : String) (at bucket : ℕ)
      → RoundTrips p
      → parse_time p synced ≡ ok at
      → and_then (five_minute_bucket_start p synced) (λ s. parse_time p s) ≡ ok bucket
      → bucket_of at ≡ bucket
  parse_bucket synced at bucket trip read done =
      let found : parse_time p (p.format_datetime (bucket_of at)) ≡ ok bucket =
        sym (
          ap
            (λ r.
              and_then (and_then r λ x. ok (p.format_datetime (bucket_of x))) λ s. parse_time p s)
            read)
        ∙ done in
      ok_eq (bucket_of at) bucket (sym (ap (time_or_error _) (trip (bucket_of at))) ∙ found)

  -- A heatmap that is written over heatmaps that hang together leaves them so: every id is one
  -- snapshot's, the cells under an id are those of its last payload, and every bucket holds the last
  -- payload of a snapshot of its five minutes; and the bucket of the written snapshot then holds it,
  -- with the id and the number of rows that are returned. Formatted datetimes must be parsed back.
  pub upsert_heatmap_snapshot-IsLinked :
      (payload : Payload) (summary : HeatmapSummary) (t' : HeatmapTables)
      → RoundTrips p
      → upsert_heatmap_snapshot p lib next payload t ≡ ok (summary, t')
      → IsLinked p lib (suc next) t' × IsLatest p summary t'
  unfolding upsert_heatmap_snapshot
  upsert_heatmap_snapshot-IsLinked payload summary t' trip done =
      let G = IsLinked p lib (suc next) t' × IsLatest p summary t' in
      and_then_elim G (normalized_payload p lib payload) _ done λ n _ h1.
        and_then_elim G (text_at p lib "sessionId" n) _ h1 λ session_id _ h2.
          and_then_elim G (text_at p lib "lastSyncedAt" n) _ h2 λ synced _ h3.
            and_then_elim G (parse_time p synced) _ h3 λ at read h4.
              and_then_elim G (text_at p lib "positionMode" n) _ h4 λ mode _ h5.
                and_then_elim G (text_of p lib "symbol" [] n) _ h5 λ _ _ h6.
                  and_then_elim G (text_of p lib "trading_class" ("tradingClass" ∷ []) n) _ h6
                    λ _ _ h7.
                      and_then_elim G (text_of p lib "expiration_date" ("expirationDate" ∷ []) n) _
                        h7
                        λ _ _ h8.
                          and_then_elim G
                            (and_then (payload_value "spot" [] n) λ v. float_of p lib v) _ h8
                            λ _ _ h9.
                              and_then_elim G
                                (time_or_none p lib (
                                  text_or_none p lib (
                                    first_value
                                      ("oi_baseline_captured_at" ∷ "oiBaselineCapturedAt" ∷ [])
                                      n.fields)))
                                _ h9
                                λ _ _ h10.
                                  and_then_elim G
                                    (and_then (five_minute_bucket_start p synced)
                                      λ s. parse_time p s)
                                    _ h10
                                    λ bucket found h11.
                                      write_snapshot-IsLinked
                                        (record {
                                          session_id = session_id;
                                          time = at;
                                          position_mode = mode;
                                        })
                                        _ _ summary t' (λ id. refl)
                                        (ap
                                          (λ b. record {
                                            session_id = session_id;
                                            time = b;
                                            position_mode = mode;
                                          })
                                          (parse_bucket synced at bucket trip read found))
                                        h11
