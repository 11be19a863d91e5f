-- ===== src/Replay/Reader/Contract.antt =====
-- What replay/importer.py relies on when it calls `read_replay_parquet_pair`.
use gamma_scope.Prelude.{
  ℕ, suc, String, string_eq, ◌||◌, All, none, ◌≢◌, ◌≡◌, refl, sym, ap, ◌∙◌, Bool, true, false, not,
  List, [], ◌∷◌, ◌++◌, length, keep, arith, nat_beq,
}
use gamma_scope.Prelude.Order.{str_ord}
use gamma_scope.Prelude.Sort.{sorted, length-sorted}
use gamma_scope.Prelude.Dict.{get}
use gamma_scope.Replay.Effects.{
  Error, key_error, value_error, unique_violation, io_error, overflow_error, data_error, Result, ok,
  err,
}
use gamma_scope.Replay.Tables.{SnapshotRecord}
use gamma_scope.Replay.Importer.{ReadResult}
use gamma_scope.Replay.Publish.Batches.{IsDone}
use gamma_scope.Replay.ImportFlow.{is_empty}
use gamma_scope.Replay.ImportFlow.SessionId.{IsReadable}
use gamma_scope.Replay.Reader.Values.{Row, Library, iso_time, cell, escaping}
use gamma_scope.Replay.Reader.Normalize.{QuoteRows}
use gamma_scope.Replay.Reader.Scan.{is_element, ScanStats, scan_quotes}
use gamma_scope.Replay.Reader.Read.{
  ParquetPair, SnapshotScan, check_times, scan_snapshots, pair_errors, failed, unless, unless_none,
  is_none, duplicates, same_set,
}
use gamma_scope.Replay.Reader.Pair.{
  no_scan, first_or_error, accept_pair, accept_or_fail, scan_checked, scan_pair, convert_or_fail,
  open_pair, read_pair,
}
use gamma_scope.Replay.Reader.Checked.{Gives, and_then_of_ok, append-eq-nil}
use gamma_scope.Replay.Reader.NormalizedQuote.{KeepsEmpty}
use gamma_scope.Replay.Reader.SnapshotRows.{
  row_ids, AllClean, HasIds, scan_snapshots-ids, scan_snapshots-AllClean,
  normalize_snapshots-HasIds,
}
use gamma_scope.Replay.Reader.Normalized.{reported_id}
use gamma_scope.Replay.Reader.SnapshotMap.{snapshot_map-has_ids, element_of_kept}
use gamma_scope.Replay.Reader.QuoteScan.{AllSound, scan_quotes-AllSound, iter_quotes-IsDone}

-- A result with errors holds no snapshot; one without holds a snapshot, the expiry, and quotes
-- that can all be read.
abbrev pub IsRead : ReadResult → Type 0
IsRead read = IsReadable read × (is_empty read.errors ≡ true → IsDone read.quotes)

unless-eq-nil : (b : Bool) (m : String) → unless b m ≡ [] → b ≡ true
unless-eq-nil true m h = refl
unless-eq-nil false m h = absurd (cc)

unless_none-eq-nil : (m : String) (xs : List String) → unless_none m xs ≡ [] → xs ≡ []
unless_none-eq-nil m [] h = refl
unless_none-eq-nil m (x ∷ xs) h = absurd (cc)

sorted-eq-nil : (xs : List String) → sorted str_ord (λ x. x) xs ≡ [] → xs ≡ []
sorted-eq-nil [] h = refl
sorted-eq-nil (x ∷ xs) h = absurd (
    let n : 0 ≡ suc (length xs) = ap length (sym h) ∙ length-sorted str_ord (λ x. x) (x ∷ xs) in
    omega arith)

one_element : (xs : List String) → nat_beq (length xs) 1 ≡ true → (x : String) × (xs ≡ x ∷ [])
one_element [] h = absurd (cc)
one_element (x ∷ []) h = (x, refl)
one_element (x ∷ y ∷ xs) h = absurd (ground arith)

-- What follows from a pair without errors.
record IsSoundPair (s : SnapshotScan) (q : ScanStats) (scanned : List String) : Type 0 where
  snapshots : s.errors ≡ []
  expiry : (e : String) × (s.expiries ≡ e ∷ [])
  quotes : scanned ≡ []
  known : (x : String) → is_element x q.quote_snapshot_ids ≡ true → is_element x s.ids ≡ true

sound_pair :
    (s : SnapshotScan) (q : ScanStats) (scanned : List String)
    → s.errors ++ pair_errors s q scanned ≡ []
    → IsSoundPair s q scanned
unfolding pair_errors
sound_pair s q scanned h =
    let (no_snapshot, h1) = append-eq-nil s.errors _ h in
    let (one, h2) = append-eq-nil (unless (nat_beq (length s.expiries) 1) _) _ h1 in
    let (_, h3) = append-eq-nil (unless_none _ (duplicates s.ids)) _ h2 in
    let (no_scan_error, h4) = append-eq-nil scanned _ h3 in
    let (_, h5) = append-eq-nil (unless (nat_beq (length q.quote_expiries) 1) _) _ h4 in
    let (_, h6) =
      append-eq-nil
        (unless
          (is_none s.expiries || is_none q.quote_expiries || same_set s.expiries q.quote_expiries)
          _)
        _ h5 in
    let missing = keep (λ x. not (is_element x s.ids)) q.quote_snapshot_ids in
    let (no_missing, _) = append-eq-nil (unless_none _ (sorted str_ord (λ x. x) missing)) _ h6 in
    record {
      snapshots = no_snapshot;
      expiry = one_element s.expiries (unless-eq-nil _ _ one);
      quotes = no_scan_error;
      known = λ x found.
          element_of_kept s.ids q.quote_snapshot_ids x
            (sorted-eq-nil missing (unless_none-eq-nil _ _ no_missing)) found;
    }

failed-IsRead :
    (e : String) (errors warnings : List String) → Gives IsRead (ok (failed (e ∷ errors) warnings))
failed-IsRead e errors warnings = (_, refl, ((λ h. absurd (cc)), λ h. absurd (cc)))

module _ (lib : Library) where
  -- UTC leaves the time of the row in the range of datetimes.
  abbrev pub InRange : Row → Type 0
  InRange row = (m : String) → iso_time lib (cell "market_time" row) ≢ err (overflow_error m)

  abbrev pub RowsInRange : Result (List Row) → Type 0
  RowsInRange (ok rows) = All InRange rows
  RowsInRange (err e) = Unit

  abbrev pub TableInRange : Result (List String × Result (List Row)) → Type 0
  TableInRange (ok (columns, rows)) = RowsInRange rows
  TableInRange (err e) = Unit

  escaping-eq-none :
      (r : Result String) → ((m : String) → r ≢ err (overflow_error m)) → escaping lib r ≡ none
  escaping-eq-none (ok s) h = refl
  escaping-eq-none (err (overflow_error m)) h = absurd (h m refl)
  escaping-eq-none (err (key_error m)) h = refl
  escaping-eq-none (err (value_error m)) h = refl
  escaping-eq-none (err (unique_violation m)) h = refl
  escaping-eq-none (err (io_error m)) h = refl
  escaping-eq-none (err (data_error m)) h = refl

  check_times-eq-ok : (rows : List Row) → All InRange rows → check_times lib rows ≡ ok tt
  unfolding check_times
  check_times-eq-ok [] h = refl
  check_times-eq-ok (row ∷ rows) h =
      rw (escaping-eq-none (iso_time lib (cell "market_time" row)) h.0) (check_times-eq-ok rows h.1)

module _ (lib : Library) (text : Error → String) (session_id : String)
    (plain : KeepsEmpty lib) where
  nonempty_snapshots :
      (row : Row) (rows : List Row) (i : ℕ) (snapshots : List SnapshotRecord)
      → AllClean lib (row ∷ rows) i
      → HasIds lib (row_ids lib (row ∷ rows)) snapshots
      → (s : SnapshotRecord) × (rest : List SnapshotRecord) × (snapshots ≡ s ∷ rest)
  unfolding row_ids
  nonempty_snapshots row rows i (s ∷ snapshots) clean h = (s, snapshots, refl)
  nonempty_snapshots row rows i [] (clean, _) h =
      absurd (let (id, named) = reported_id lib row i clean in let h' = rw named at h in cc)

  accept_pair-IsRead :
      (row : Row) (rows : List Row) (quotes : QuoteRows) (s : SnapshotScan) (q : ScanStats)
      (scanned warnings : List String)
      → s.ids ≡ row_ids lib (row ∷ rows)
      → AllClean lib (row ∷ rows) 0
      → IsSoundPair s q scanned
      → AllSound lib s.ids quotes
      → Gives IsRead (accept_pair lib text session_id (row ∷ rows) quotes s q warnings)
  unfolding accept_pair get
  accept_pair-IsRead row rows quotes s q scanned warnings ids clean x sound =
      let (expiry, one) = x.expiry in
      let (snapshots, are, named) =
        normalize_snapshots-HasIds lib (row ∷ rows) [] 0 session_id expiry s.ids q refl ids clean in
      let present = λ (id : String) (h : is_element id s.ids ≡ true).
        snapshot_map-has_ids snapshots id [] (ap (is_element id) (named ∙ sym ids) ∙ h) in
      and_then_of_ok IsRead _ _ expiry (ap (first_or_error) one) (
        and_then_of_ok IsRead _ _ snapshots are (
          _,
          refl,
          (
            (λ _. (nonempty_snapshots row rows 0 snapshots clean named, (expiry, refl))),
            λ _. iter_quotes-IsDone lib _ session_id expiry quotes s.ids plain present sound,
          ),
        ))

  accept_or_fail-IsRead :
      (row : Row) (rows : List Row) (quotes : QuoteRows) (s : SnapshotScan) (q : ScanStats)
      (scanned warnings : List String) (errors : List String)
      → (errors ≡ []
          → Gives IsRead (accept_pair lib text session_id (row ∷ rows) quotes s q warnings))
      → Gives IsRead (accept_or_fail lib text session_id (row ∷ rows) quotes s q warnings errors)
  accept_or_fail-IsRead row rows quotes s q scanned warnings [] h = h refl
  accept_or_fail-IsRead row rows quotes s q scanned warnings (e ∷ errors) h =
      failed-IsRead e errors warnings

  scan_checked-IsRead :
      (row : Row) (rows : List Row) (quotes : QuoteRows)
      → Gives IsRead (scan_checked lib text session_id (row ∷ rows) quotes)
  unfolding scan_checked
  scan_checked-IsRead row rows quotes =
      let s = scan_snapshots lib (row ∷ rows) 0 no_scan in
      let q = (scan_quotes lib text quotes).0 in
      let scanned = (scan_quotes lib text quotes).1 in
      let ids = scan_snapshots-ids lib (row ∷ rows) 0 no_scan in
      accept_or_fail-IsRead row rows quotes s q scanned _ _ λ none_found.
        let x = sound_pair s q scanned none_found in
        let (_, clean) = scan_snapshots-AllClean lib (row ∷ rows) 0 no_scan x.snapshots in
        accept_pair-IsRead row rows quotes s q scanned _ ids clean x
          (scan_quotes-AllSound lib text quotes s.ids x.quotes x.known)

  scan_pair-IsRead :
      (row : Row) (rows : List Row) (quotes : QuoteRows)
      → All (InRange lib) (row ∷ rows)
      → Gives IsRead (scan_pair lib text session_id (row ∷ rows) quotes)
  unfolding scan_pair
  scan_pair-IsRead row rows quotes range =
      and_then_of_ok IsRead (check_times lib (row ∷ rows))
        (λ _. scan_checked lib text session_id (row ∷ rows) quotes) tt
        (check_times-eq-ok lib (row ∷ rows) range) (scan_checked-IsRead row rows quotes)

  convert_rows-IsRead :
      (errors : List String) (rows : Result (List Row)) (quotes : QuoteRows)
      → RowsInRange lib rows
      → Gives IsRead (convert_or_fail lib text session_id errors rows quotes)
  convert_rows-IsRead (e ∷ errors) rows quotes range = failed-IsRead e errors []
  convert_rows-IsRead [] (err e) quotes range = failed-IsRead _ [] []
  convert_rows-IsRead [] (ok []) quotes range = failed-IsRead _ [] []
  convert_rows-IsRead [] (ok (row ∷ rows)) quotes range = scan_pair-IsRead row rows quotes range

  open_pair-IsRead :
      (snapshots : Result (List String × Result (List Row)))
      (quotes : Result (List String × QuoteRows))
      → TableInRange lib snapshots
      → Gives IsRead (open_pair lib text session_id snapshots quotes)
  unfolding open_pair
  open_pair-IsRead (ok (snapshot_columns, rows)) (ok (quote_columns, quotes)) range =
      convert_rows-IsRead _ rows quotes range
  open_pair-IsRead (ok x) (err e) range = failed-IsRead _ [] []
  open_pair-IsRead (err e) (ok y) range = failed-IsRead _ [] []
  open_pair-IsRead (err e) (err e') range = failed-IsRead _ _ []

  -- Reading a pair of files returns, whatever the files hold and wherever they cannot be read, if
  -- no `market_time` of a snapshot is taken out of the range of datetimes by UTC. A result without
  -- errors holds a snapshot, the expiry, and quotes that can all be read again. The text of an
  -- empty option type must stay empty.
  pub read_pair-IsRead :
      (pair : ParquetPair)
      → TableInRange lib pair.snapshots_table
      → Gives IsRead (read_pair lib text session_id pair)
  unfolding read_pair
  read_pair-IsRead pair range = open_pair-IsRead pair.snapshots_table pair.quotes_file range
