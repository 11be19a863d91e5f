-- ===== src/Replay/Reader/QuoteScan.antt =====
-- The quotes of replay/parquet_reader.py after a scan that reports nothing.
use gamma_scope.Prelude.{
  ℕ, String, string_eq, ◌≡◌, ◌≢◌, refl, sym, ap, ◌∙◌, Bool, true, false, Option, none, some, List,
  [], ◌∷◌, ◌++◌, ◌==◌, inl, inr, Bool-cases,
}
use gamma_scope.Prelude.Dict.{Dict, put}
use gamma_scope.Replay.Effects.{Error}
use gamma_scope.Replay.Tables.{SnapshotRecord}
use gamma_scope.Replay.Publish.Batches.{IsDone}
use gamma_scope.Replay.Reader.Values.{
  Row, Library, cell, source_id_or_none, parse_finite_float, Number, finite, non_finite, invalid,
  is_valid_quote, date_string,
}
use gamma_scope.Replay.Reader.Reports.{Report}
use gamma_scope.Replay.Reader.Limiter.{Limiter, add, add_all, flush}
use gamma_scope.Replay.Reader.Rules.{quote_row_reports, expiry_reports, quotes_table}
use gamma_scope.Replay.Reader.Normalize.{QuoteRows, end_of_file, unreadable, row_then, iter_quotes}
use gamma_scope.Replay.Reader.Scan.{
  is_element, ScanStats, no_stats, scan_checks, with_expiry, with_validity, with_strike,
  with_snapshot, raised_by, unless_raised, scan_row, scan_rows, scan_quotes, scan_error,
}
use gamma_scope.Replay.Reader.Read.{gathered}
use gamma_scope.Replay.Reader.Checked.{append-eq-nil}
use gamma_scope.Replay.Reader.NormalizedQuote.{KeepsEmpty, quote_id, normalize_quote-IsOk}
use gamma_scope.Replay.Reader.SnapshotMap.{IsPresent, element-add_self, element-gathered}

put-not-nil {ℓ} : {V : Type ℓ} (k : String) (v : V) (d : Dict String V) → put k v d ≢ []
unfolding put
put-not-nil k v [] = λ h. cc
put-not-nil k v ((j, w) ∷ d) = λ h. elim (Bool-cases (j == k)) [
  | inl e ↦ let h' = rw e at h in cc
  | inr e ↦ let h' = rw e at h in cc
]

add_all-eq-nil : (rs : List Report) (l : Limiter) → add_all rs l ≡ [] → (rs ≡ []) × (l ≡ [])
unfolding add_all add
add_all-eq-nil [] l h = (refl, h)
add_all-eq-nil (r ∷ rs) l h = absurd (put-not-nil r.key _ l (add_all-eq-nil rs (add r l) h).1)

flush-eq-nil : (lib : Library) (l : Limiter) → flush lib l ≡ [] → l ≡ []
unfolding flush
flush-eq-nil lib [] h = refl
flush-eq-nil lib (e ∷ l) h = absurd (cc)

-- What a part of a row's step leaves alone, and the id it adds.
pub record IsStep (id : Option String) (s s' : ScanStats) : Type 0 where
  pub limiter : s'.limiter ≡ s.limiter
  pub ids : s'.quote_snapshot_ids ≡ gathered id s.quote_snapshot_ids
  pub count : s'.quote_count ≡ s.quote_count

module _ (lib : Library) where
  with_strike-IsStep :
      (id : String) (n : Number) (b : Bool) (s : ScanStats)
      → IsStep none s (with_strike lib id n (with_validity lib id b s))
  with_strike-IsStep id (finite x) true s = record { limiter = refl; ids = refl; count = refl }
  with_strike-IsStep id (finite x) false s = record { limiter = refl; ids = refl; count = refl }
  with_strike-IsStep id non_finite true s = record { limiter = refl; ids = refl; count = refl }
  with_strike-IsStep id non_finite false s = record { limiter = refl; ids = refl; count = refl }
  with_strike-IsStep id invalid true s = record { limiter = refl; ids = refl; count = refl }
  with_strike-IsStep id invalid false s = record { limiter = refl; ids = refl; count = refl }

  with_snapshot-IsStep :
      (row : Row) (o : Option String) (s : ScanStats) → IsStep o s (with_snapshot lib row o s)
  with_snapshot-IsStep row none s = record { limiter = refl; ids = refl; count = refl }
  with_snapshot-IsStep row (some id) s =
      let x =
        with_strike-IsStep id (parse_finite_float lib (cell "strike" row)) (is_valid_quote lib row)
          _ in
      record { limiter = x.limiter; ids = x.ids; count = x.count }

  with_expiry-IsStep : (o : Option String) (s : ScanStats) → IsStep none s (with_expiry lib o s)
  with_expiry-IsStep none s = record { limiter = refl; ids = refl; count = refl }
  with_expiry-IsStep (some day) s = record { limiter = refl; ids = refl; count = refl }

  abbrev row_reports : Row → ℕ → List Report
  row_reports row i =
      quote_row_reports lib row i ++ expiry_reports lib (cell "expiry" row) quotes_table i

  -- A row's step as a whole.
  scan_row-IsStep :
      (row : Row) (s : ScanStats)
      → IsStep
          (source_id_or_none lib (cell "snapshot_id" row))
          (scan_checks lib row s)
          (scan_row lib row s)
  unfolding scan_row
  scan_row-IsStep row s =
      let id = source_id_or_none lib (cell "snapshot_id" row) in
      let s1 = scan_checks lib row s in
      let x = with_expiry-IsStep (date_string lib (cell "expiry" row)) s1 in
      let y =
        with_snapshot-IsStep row id (with_expiry lib (date_string lib (cell "expiry" row)) s1) in
      record {
        limiter = y.limiter ∙ x.limiter;
        ids = y.ids ∙ ap (gathered id) x.ids;
        count = y.count ∙ x.count;
      }

  -- Each row passed its checks, and has an id of the list; the file was read to its end.
  abbrev pub AllSound : List String → QuoteRows → Type 0
  AllSound ids end_of_file = Unit
  AllSound ids (unreadable e) = ⊥
  AllSound ids (row_then row rows) =
      ((i : ℕ) × (quote_row_reports lib row i ≡ []))
      × ((id : String) × (source_id_or_none lib (cell "snapshot_id" row) ≡ some id)
          × (is_element id ids ≡ true))
      × AllSound ids rows

  unless_raised-keeps_ids :
      (row : Row) (s : ScanStats) (rest : ScanStats × Option Error) (x : String) (o : Option Error)
      → is_element x s.quote_snapshot_ids ≡ true
      → is_element x rest.0.quote_snapshot_ids ≡ true
      → is_element x (unless_raised lib row s rest o).0.quote_snapshot_ids ≡ true
  unless_raised-keeps_ids row s rest x none h k = k
  unless_raised-keeps_ids row s rest x (some e) h k = h

  -- A scan that read to the end met no row that raises.
  unless_raised-eq :
      (row : Row) (s : ScanStats) (rest : ScanStats × Option Error) (o : Option Error)
      → (unless_raised lib row s rest o).1 ≡ none
      → unless_raised lib row s rest o ≡ rest
  unless_raised-eq row s rest none h = refl
  unless_raised-eq row s rest (some e) h = absurd (cc)

  scan_rows-keeps_ids :
      (rows : QuoteRows) (s : ScanStats) (x : String)
      → is_element x s.quote_snapshot_ids ≡ true
      → is_element x (scan_rows lib rows s).0.quote_snapshot_ids ≡ true
  unfolding scan_rows scan_checks
  scan_rows-keeps_ids end_of_file s x h = h
  scan_rows-keeps_ids (unreadable e) s x h = h
  scan_rows-keeps_ids (row_then row rows) s x h =
      unless_raised-keeps_ids row s (scan_rows lib rows (scan_row lib row s)) x
        (raised_by lib (cell "market_time" row)) h
        (scan_rows-keeps_ids rows (scan_row lib row s) x (
          ap (is_element x) (scan_row-IsStep row s).ids
          ∙ element-gathered (source_id_or_none lib (cell "snapshot_id" row)) x s.quote_snapshot_ids
              h))

  pub scan_rows-AllSound :
      (rows : QuoteRows) (s : ScanStats) (ids : List String)
      → (scan_rows lib rows s).1 ≡ none
      → (scan_rows lib rows s).0.limiter ≡ []
      → ((x : String)
          → is_element x (scan_rows lib rows s).0.quote_snapshot_ids ≡ true
          → is_element x ids ≡ true)
      → AllSound ids rows × (s.limiter ≡ [])
  unfolding scan_rows scan_checks
  scan_rows-AllSound end_of_file s ids read h known = (tt, h)
  scan_rows-AllSound (unreadable e) s ids read h known = absurd (cc)
  scan_rows-AllSound (row_then row rows) s ids read h known =
      let s1 = scan_row lib row s in
      let step = scan_row-IsStep row s in
      let rest = scan_rows lib rows s1 in
      let same = unless_raised-eq row s rest (raised_by lib (cell "market_time" row)) read in
      let known' : (x : String)
          → is_element x rest.0.quote_snapshot_ids ≡ true
          → is_element x ids ≡ true =
        λ x k. known x (ap (λ r. is_element x r.0.quote_snapshot_ids) same ∙ k) in
      let (sound, now) =
        scan_rows-AllSound rows s1 ids (sym (ap (λ r. r.1) same) ∙ read)
          (sym (ap (λ r. r.0.limiter) same) ∙ h) known' in
      let (none_reported, before) =
        add_all-eq-nil (row_reports row s.quote_count) s.limiter (sym step.limiter ∙ now) in
      let (clean, _) = append-eq-nil (quote_row_reports lib row s.quote_count) _ none_reported in
      let (id, named) = quote_id lib row s.quote_count clean in
      let here : is_element id s1.quote_snapshot_ids ≡ true =
        ap (is_element id) (step.ids ∙ ap (λ o. gathered o s.quote_snapshot_ids) named)
        ∙ element-add_self id s.quote_snapshot_ids in
      (
        (
          (s.quote_count, clean),
          (id, named, known' id (scan_rows-keeps_ids rows s1 id here)),
          sound,
        ),
        before,
      )

  scan_error-eq-none :
      (text : Error → String) (e : Option Error) → scan_error text e ≡ [] → e ≡ none
  scan_error-eq-none text none h = refl
  scan_error-eq-none text (some e) h = absurd (cc)

  -- A scan without messages that found only ids of the list.
  pub scan_quotes-AllSound :
      (text : Error → String) (rows : QuoteRows) (ids : List String)
      → (scan_quotes lib text rows).1 ≡ []
      → ((x : String)
          → is_element x (scan_quotes lib text rows).0.quote_snapshot_ids ≡ true
          → is_element x ids ≡ true)
      → AllSound ids rows
  unfolding scan_quotes
  scan_quotes-AllSound text rows ids h known =
      let (read, flushed) = append-eq-nil (scan_error text (scan_rows lib rows no_stats).1) _ h in
      (scan_rows-AllSound rows no_stats ids (scan_error-eq-none text _ read)
        (flush-eq-nil lib _ flushed) known).0

  module _ (snapshot_id_map : Dict String SnapshotRecord) (session_id expiry : String) where
    -- Sound rows give all their quotes when they are read again.
    pub iter_quotes-IsDone :
        (rows : QuoteRows) (ids : List String)
        → KeepsEmpty lib
        → ((id : String) → is_element id ids ≡ true → IsPresent id snapshot_id_map)
        → AllSound ids rows
        → IsDone (iter_quotes lib snapshot_id_map session_id expiry rows)
    unfolding iter_quotes
    iter_quotes-IsDone end_of_file ids plain present sound = tt
    iter_quotes-IsDone (unreadable e) ids plain present sound = sound
    iter_quotes-IsDone (row_then row rows) ids plain present
          ((i, clean), (id, named, known), sound) =
        let (snapshot, found) = present id known in
        let (q, q_is, _) = normalize_quote-IsOk lib row i snapshot session_id expiry plain clean in
        rw (named, found, q_is) (iter_quotes-IsDone rows ids plain present sound)
