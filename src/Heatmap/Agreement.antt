-- ===== src/Heatmap/Agreement.antt =====
-- The baselines of heatmap/repository.py in PostgreSQL and in memory.
use mathlib.Core.Path.{subst}
use gamma_scope.Prelude.{
  ℕ, string_eq, ◌≡◌, refl, sym, ap, ◌∙◌, Bool, true, false, not, ◌&&◌, ◌||◌, Option, none, some,
  List, [], ◌∷◌, ◌==◌, Eq, All, leb, ◌⊎◌, inl, inr, Bool-cases, if◌then◌else◌,
}
use gamma_scope.Prelude.Dict.{Dict, get, put}
use gamma_scope.Replay.Effects.{
  Error, Result, ok, err, Platform, Tx, pure, continue, transact, ◌>>=◌,
}
use gamma_scope.Replay.Publish.{and_then, parse_time, time_or_error}
use gamma_scope.Capture.Store.Summed.{RoundTrips}
use gamma_scope.Heatmap.Records.{
  OiBaseline, key_eq, baseline_key, normalized_baseline, locked_or_late, or_text,
}
use gamma_scope.Heatmap.Steps.{Always, Always-bind, ok_eq}
use gamma_scope.Heatmap.Columns.{baseline_fits}
use gamma_scope.Heatmap.Memory
use gamma_scope.Heatmap.Memory.{
  Baselines, is_of, upsert_baseline, upsert_normalized, upsert_provisional,
  should_replace_provisional, replace_if,
}
use gamma_scope.Heatmap.Postgres
use gamma_scope.Heatmap.Postgres.{
  BaselineRow, BaselineTable, on_conflict, row_of, baseline_from_record, returned, selected,
  upsert_record,
}

abbrev mapped : {V W : Type 0} → (V → W) → Option V → Option W
mapped f none = none
mapped f (some v) = some (f v)

module _ {K : Type 0} ⦃e : Eq K⦄ {V W : Type 0} (f : V → W) where
  abbrev pub map_values : Dict K V → Dict K W
  map_values [] = []
  map_values ((k, v) ∷ d) = (k, f v) ∷ map_values d

  get-map_values : (k : K) (d : Dict K V) → get k (map_values d) ≡ mapped f (get k d)
  unfolding get
  get-map_values k [] = refl
  get-map_values k ((j, v) ∷ d) = elim (Bool-cases (j == k)) [
    | inl e ↦ rw e refl
    | inr e ↦ rw e (get-map_values k d)
  ]

  put-map_values :
      (k : K) (v : V) (d : Dict K V) → put k (f v) (map_values d) ≡ map_values (put k v d)
  unfolding put
  put-map_values k v [] = refl
  put-map_values k v ((j, w) ∷ d) = elim (Bool-cases (j == k)) [
    | inl e ↦ rw e refl
    | inr e ↦ rw e (ap (◌∷◌ (j, f w)) (put-map_values k v d))
  ]

module _ (p : Platform) where
  -- What memory holds where the database holds a table.
  abbrev pub view : BaselineTable → Baselines
  view t = map_values (baseline_from_record p) t

  -- A memory step that does what a transaction does.
  abbrev viewed : Result (OiBaseline × BaselineTable) → Result (OiBaseline × Baselines)
  viewed (ok (b, t)) = ok (b, view t)
  viewed (err e) = err e

  -- What a call leaves in memory, against what the transaction does.
  abbrev pub Agrees :
      Result (List OiBaseline × BaselineTable) → Result (List OiBaseline) × Baselines → Type 0
  Agrees (ok (stored, t)) x = x ≡ (ok stored, view t)
  Agrees (err e) x = x.0 ≡ err e

  module _ (trip : RoundTrips p) (new_york_time : ℕ → ℕ) where
    parse_formatted : (at : ℕ) → parse_time p (p.format_datetime at) ≡ ok at
    parse_formatted at = ap (time_or_error (p.format_datetime at)) (trip at)

    result_cases :
        {A : Type 0} (x : Result A) → ((e : Error) × (x ≡ err e)) ⊎ ((a : A) × (x ≡ ok a))
    result_cases (err e) = inl (e, refl)
    result_cases (ok a) = inr (a, refl)

    -- The row of a normalised record, and what both say of its replacement.
    row_of_formatted :
        (r : OiBaseline) (observed captured source : ℕ) (locked : Bool)
        → baseline_fits r ≡ true
        → let n = record r {
          observed_at = p.format_datetime observed;
          captured_at = p.format_datetime captured;
          source_snapshot_time = p.format_datetime source;
          locked = locked;
        } in
          (row : BaselineRow) × (row_of p n ≡ ok row) × (baseline_from_record p row ≡ n)
    unfolding row_of baseline_from_record baseline_key baseline_fits
    row_of_formatted r observed captured source locked fits = (
      _,
      rw (parse_formatted observed, parse_formatted captured, parse_formatted source, fits) refl,
      refl,
    )

    -- A normalised record is one that the database gives back as it is.
    abbrev HasRow : OiBaseline → Type 0
    HasRow n = (row : BaselineRow) × (row_of p n ≡ ok row) × (baseline_from_record p row ≡ n)

    normalized-HasRow :
        (r : OiBaseline)
        → baseline_fits r ≡ true
        → Always HasRow (normalized_baseline p new_york_time r)
    unfolding normalized_baseline
    normalized-HasRow r fits = Always-bind HasRow (parse_time p r.observed_at) _ λ observed.
        Always-bind HasRow
          (parse_time p (or_text r.captured_at (or_text r.source_snapshot_time r.observed_at))) _
          λ captured.
            Always-bind HasRow
              (parse_time p (or_text r.source_snapshot_time (or_text r.captured_at r.observed_at)))
              _
              λ source.
                Always-bind HasRow
                  (locked_or_late p new_york_time r.locked (p.format_datetime source)) _
                  λ locked. λ n h.
                    subst HasRow (ok_eq _ n h)
                      (row_of_formatted r observed captured source locked fits)

    one_decision :
        {A : Type 0} (b c late : Bool) (x : Result Bool) (f : Bool → A)
        → x ≡ ok late
        → (if b then ok (f false) else and_then (if c then ok true else x) (λ d. ok (f d)))
          ≡ ok (f (not b && (c || late)))
    one_decision true c late x f h = refl
    one_decision false true late x f h = refl
    one_decision false false late x f h = rw h refl

    -- What both stores decide about a stored row.
    abbrev is_replaced : BaselineRow → BaselineRow → Bool
    is_replaced row existing =
        not existing.locked
        && (row.locked || leb existing.source_snapshot_time row.source_snapshot_time)

    parsed_order :
        (new old : ℕ)
        → and_then
            (parse_time p (p.format_datetime new))
            (λ x. and_then (parse_time p (p.format_datetime old)) λ y. ok (leb y x))
          ≡ ok (leb old new)
    parsed_order new old = rw (parse_formatted new, parse_formatted old) refl

    memory_decides :
        (row existing : BaselineRow) (t : BaselineTable)
        → upsert_normalized p
            (baseline_from_record p row)
            (view t)
            (some (baseline_from_record p existing))
          ≡ ok (
              replace_if p
                (baseline_from_record p existing)
                (baseline_from_record p row)
                (view t)
                (is_replaced row existing))
    unfolding baseline_from_record should_replace_provisional
    memory_decides row existing t =
        one_decision existing.locked row.locked
          (leb existing.source_snapshot_time row.source_snapshot_time) _
          (replace_if p (baseline_from_record p existing) (baseline_from_record p row) (view t))
          (parsed_order row.source_snapshot_time existing.source_snapshot_time)

    database_decides :
        (row existing : BaselineRow) (t : BaselineTable) (d : Bool)
        → get row.key t ≡ some existing
        → viewed (returned p row t (if d then some row else none))
          ≡ ok (
              replace_if p
                (baseline_from_record p existing)
                (baseline_from_record p row)
                (view t)
                d)
    unfolding baseline_from_record baseline_key
    database_decides row existing t true found =
        ap (λ m. ok (baseline_from_record p row, m))
          (sym (put-map_values (baseline_from_record p) row.key row t))
    database_decides row existing t false found = rw found refl

    -- A row's step, whether its key is stored or not.
    upsert_row :
        (row : BaselineRow) (t : BaselineTable) (stored : Option BaselineRow)
        → get row.key t ≡ stored
        → upsert_normalized p
            (baseline_from_record p row)
            (view t)
            (mapped (baseline_from_record p) stored)
          ≡ viewed (returned p row t (on_conflict row stored))
    unfolding on_conflict baseline_from_record baseline_key
    upsert_row row t none found =
        ap (λ m. ok (baseline_from_record p row, m))
          (put-map_values (baseline_from_record p) row.key row t)
    upsert_row row t (some existing) found =
        memory_decides row existing t
        ∙ sym (database_decides row existing t (is_replaced row existing) found)

    upsert_seen :
        (row : BaselineRow) (n : OiBaseline) (t : BaselineTable)
        → baseline_from_record p row ≡ n
        → upsert_normalized p n (view t) (get (baseline_key n) (view t))
          ≡ viewed (returned p row t (on_conflict row (get row.key t)))
    unfolding baseline_from_record baseline_key
    upsert_seen row n t same =
        subst
          (λ x.
            upsert_normalized p x (view t) (get (baseline_key x) (view t))
            ≡ viewed (returned p row t (on_conflict row (get row.key t))))
          same
          (ap (upsert_normalized p (baseline_from_record p row) (view t))
              (get-map_values (baseline_from_record p) row.key t)
            ∙ upsert_row row t (get row.key t) refl)

    -- One record.
    upsert_agrees :
        (r : OiBaseline) (t : BaselineTable) (x : Result OiBaseline)
        → Always HasRow x
        → and_then x (λ n. upsert_normalized p n (view t) (get (baseline_key n) (view t)))
          ≡ viewed (
              and_then x λ n.
                and_then (row_of p n) λ row. returned p row t (on_conflict row (get row.key t)))
    upsert_agrees r t (err e) h = refl
    upsert_agrees r t (ok n) h = let (row, is, same) = h n refl in rw is (upsert_seen row n t same)

    Agrees-stored :
        (stored : OiBaseline) (y : Result (List OiBaseline × BaselineTable))
        (z : Result (List OiBaseline) × Baselines)
        → Agrees y z
        → Agrees
            (and_then y λ (rest, t). ok (stored ∷ rest, t))
            (continue z.0 (λ rest. pure (stored ∷ rest)) z.1)
    Agrees-stored stored (ok (rest, t)) z h = rw h refl
    Agrees-stored stored (err e) z h = rw h refl

    -- The rest of the call, after a record.
    Agrees-bind :
        (x : Result (OiBaseline × BaselineTable)) (m : Tx Baselines OiBaseline) (t : BaselineTable)
        (records : List OiBaseline)
        → m (view t) ≡ viewed x
        → ((t' : BaselineTable)
            → Agrees
                (Postgres.upsert_oi_baseline p new_york_time records t')
                (Memory.upsert_oi_baseline p new_york_time records (view t')))
        → Agrees
            (and_then x λ (stored, t').
              and_then
                (Postgres.upsert_oi_baseline p new_york_time records t')
                λ (rest, t''). ok (stored ∷ rest, t''))
            ((transact m >>= λ stored.
                Memory.upsert_oi_baseline p new_york_time records >>= λ rest. pure (stored ∷ rest))
              (view t))
    Agrees-bind (err e) m t records same h = rw same refl
    Agrees-bind (ok (stored, t')) m t records same h = rw same (Agrees-stored stored _ _ (h t'))

    -- From a table that memory holds as well, `upsert_oi_baseline` returns the same records in memory
    -- as in PostgreSQL and leaves the same baselines, or raises the same error in both, if a
    -- formatted datetime is parsed back and each record fits its columns, which are an INTEGER for
    -- the open interest, DATE for the two dates, given in ISO form, and TEXT; what memory keeps
    -- after an error is not said.
    pub upsert_oi_baseline-Agrees :
        (records : List OiBaseline) (t : BaselineTable)
        → All (λ r. baseline_fits r ≡ true) records
        → Agrees
            (Postgres.upsert_oi_baseline p new_york_time records t)
            (Memory.upsert_oi_baseline p new_york_time records (view t))
    unfolding Postgres.upsert_oi_baseline Memory.upsert_oi_baseline upsert_baseline upsert_record
    upsert_oi_baseline-Agrees [] t fits = refl
    upsert_oi_baseline-Agrees (r ∷ records) t fits =
        Agrees-bind (upsert_record p new_york_time r t) (upsert_baseline p new_york_time r) t
          records
          (upsert_agrees r t (normalized_baseline p new_york_time r) (normalized-HasRow r fits.0))
          (λ t'. upsert_oi_baseline-Agrees records t' fits.1)
