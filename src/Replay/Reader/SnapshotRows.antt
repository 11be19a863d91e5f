-- ===== src/Replay/Reader/SnapshotRows.antt =====
-- The snapshots' rows of a pair that is read without errors.
use mathlib.Core.List.{append_assoc, append-nil}
use gamma_scope.Prelude.{
  ℕ, suc, String, ◌≡◌, refl, sym, ap, ◌∙◌, Option, none, some, List, [], ◌∷◌, ◌++◌, map, length,
  get_elem?, length-append, arith,
}
use gamma_scope.Replay.Tables.{SnapshotRecord}
use gamma_scope.Replay.Reader.Values.{Row, Library, cell, source_id_or_none}
use gamma_scope.Replay.Reader.Reports.{Report, messages}
use gamma_scope.Replay.Reader.Rules.{snapshot_row_reports}
use gamma_scope.Replay.Reader.Scan.{ScanStats, counts_of}
use gamma_scope.Replay.Reader.Read.{
  SnapshotScan, scan_snapshot, scan_snapshots, listed, normalize_snapshots, id_or_error,
}
use gamma_scope.Replay.Reader.Checked.{Gives, and_then_of_ok, append-eq-nil}
use gamma_scope.Replay.Reader.Normalized.{reported_id, normalize_snapshot-IsRowOf}

messages-eq-nil : (rs : List Report) → messages rs ≡ [] → rs ≡ []
messages-eq-nil [] h = refl
messages-eq-nil (r ∷ rs) h = absurd (cc)

get_elem?-append :
    {A : Type 0} (xs ys : List A) (y : A) → get_elem? (xs ++ y ∷ ys) (length xs) ≡ some y
get_elem?-append [] ys y = refl
get_elem?-append (x ∷ xs) ys y = get_elem?-append xs ys y

abbrev id_then : Option String → List String → List String
id_then none ids = ids
id_then (some id) ids = id ∷ ids

listed-append : (o : Option String) (xs ys : List String) → listed o xs ++ ys ≡ xs ++ id_then o ys
listed-append none xs ys = refl
listed-append (some x) xs ys = append_assoc xs (x ∷ []) ys

module _ (lib : Library) where
  -- The ids of the rows that have one.
  unfoldable pub row_ids : List Row → List String
  row_ids [] = []
  row_ids (row ∷ rows) = id_then (source_id_or_none lib (cell "snapshot_id" row)) (row_ids rows)

  abbrev pub AllClean : List Row → ℕ → Type 0
  AllClean [] i = Unit
  AllClean (row ∷ rows) i = (snapshot_row_reports lib row i ≡ []) × AllClean rows (suc i)

  pub scan_snapshots-ids :
      (rows : List Row) (i : ℕ) (s : SnapshotScan)
      → (scan_snapshots lib rows i s).ids ≡ s.ids ++ row_ids rows
  unfolding scan_snapshots scan_snapshot row_ids
  scan_snapshots-ids [] i s = sym (append-nil s.ids)
  scan_snapshots-ids (row ∷ rows) i s =
      scan_snapshots-ids rows (suc i) (scan_snapshot lib row i s)
      ∙ listed-append (source_id_or_none lib (cell "snapshot_id" row)) s.ids (row_ids rows)

  -- A scan without messages has no reports on any row.
  pub scan_snapshots-AllClean :
      (rows : List Row) (i : ℕ) (s : SnapshotScan)
      → (scan_snapshots lib rows i s).errors ≡ []
      → (s.errors ≡ []) × AllClean rows i
  unfolding scan_snapshots scan_snapshot
  scan_snapshots-AllClean [] i s h = (h, tt)
  scan_snapshots-AllClean (row ∷ rows) i s h =
      let (now, clean) = scan_snapshots-AllClean rows (suc i) (scan_snapshot lib row i s) h in
      let (before, reported) = append-eq-nil s.errors _ now in
      let (none_reported, _) =
        append-eq-nil (messages (snapshot_row_reports lib row i)) _ reported in
      (before, (messages-eq-nil _ none_reported, clean))

  abbrev pub HasIds : List String → List SnapshotRecord → Type 0
  HasIds ids snapshots = map (λ s. s.source_snapshot_id) snapshots ≡ ids

  -- Clean rows are normalised, each under its id.
  pub normalize_snapshots-HasIds :
      (rows : List Row) (before : List String) (i : ℕ) (session_id expiry : String)
      (ids : List String) (q : ScanStats)
      → i ≡ length before
      → ids ≡ before ++ row_ids rows
      → AllClean rows i
      → Gives (HasIds (row_ids rows)) (normalize_snapshots lib rows i session_id expiry ids q)
  unfolding normalize_snapshots row_ids
  normalize_snapshots-HasIds [] before i session_id expiry ids q at all clean = ([], refl, refl)
  normalize_snapshots-HasIds (row ∷ rows) before i session_id expiry ids q at all (clean, rest) =
      let (id, named) = reported_id lib row i clean in
      let here : ids ≡ before ++ id ∷ row_ids rows =
        all ∙ ap (λ o. before ++ id_then o (row_ids rows)) named in
      let found : get_elem? ids i ≡ some id =
        ap (λ l. get_elem? l i) here
        ∙ ap (get_elem? (before ++ id ∷ row_ids rows)) at
        ∙ get_elem?-append before (row_ids rows) id in
      let (s, s_is, (same_id, _)) =
        normalize_snapshot-IsRowOf lib row i i session_id expiry id (counts_of id q) clean named in
      let (snapshots, are, same_ids) =
        normalize_snapshots-HasIds rows (before ++ id ∷ []) (suc i) session_id expiry ids q
          (omega (arith, length-append before (id ∷ []), at))
          (here ∙ sym (append_assoc before (id ∷ []) (row_ids rows))) rest in
      let Q = HasIds (row_ids (row ∷ rows)) in
      let names : HasIds (row_ids (row ∷ rows)) (s ∷ snapshots) =
        ap (λ x. x ∷ map (λ y. y.source_snapshot_id) snapshots) same_id
        ∙ ap (◌∷◌ id) same_ids
        ∙ sym (ap (λ o. id_then o (row_ids rows)) named) in
      and_then_of_ok Q _ _ id (ap (id_or_error lib) found) (
        and_then_of_ok Q _ _ s s_is
          (and_then_of_ok Q _ _ snapshots are (s ∷ snapshots, refl, names)))
