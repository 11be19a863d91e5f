-- ===== src/Replay/Reader/Read.antt =====
-- `read_replay_parquet_pair` of replay/parquet_reader.py.
use gamma_scope.Prelude.{
  ℕ, suc, ◌-◌, ◌/◌, ℤ, pos, String, string_eq, nat_eq, nat_beq, Bool, true, false, not, ◌||◌, ◌&&◌,
  Option, none, some, List, [], ◌∷◌, ◌++◌, length, get_elem?, take, keep, if◌then◌else◌,
}
use gamma_scope.Prelude.Order.{str_ord, nat_ord}
use gamma_scope.Prelude.Sort.{sorted}
use gamma_scope.Prelude.Dict.{Dict, get, put, values}
use gamma_scope.Replay.Effects.{Error, Result, ok, err, value_error, joined}
use gamma_scope.Replay.Tables.{Json, Items, Fields, SnapshotRecord}
use gamma_scope.Replay.Publish.{Quotes, and_then}
use gamma_scope.Replay.Importer.{ReadResult}
use gamma_scope.Replay.Reader.Values.{
  Row, Library, cell, source_id_or_none, date_string, optional_iso_time, iso_time, escaping,
}
use gamma_scope.Replay.Reader.Reports.{messages}
use gamma_scope.Replay.Reader.Rules.{snapshots_table, snapshot_row_reports, expiry_reports}
use gamma_scope.Replay.Reader.Normalize.{QuoteRows, normalize_snapshot}
use gamma_scope.Replay.Reader.Scan.{is_element, add_element, ScanStats, counts_of, or_zero}

-- The two files: the columns of each, the rows of the snapshots, and the rows of the quotes.
pub record ParquetPair : Type 0 where
  pub snapshots_table : Result (List String × Result (List Row))
  pub quotes_file : Result (List String × QuoteRows)

abbrev pub snapshot_required_columns : List String
snapshot_required_columns =
    "snapshot_id" ∷ "market_time" ∷ "expiry" ∷ "spot" ∷ "pricing_spot" ∷ "forward_price"
    ∷ "risk_free_rate" ∷ "t_minutes" ∷ []

abbrev pub quote_required_columns : List String
quote_required_columns =
    "snapshot_id" ∷ "market_time" ∷ "expiry" ∷ "strike" ∷ "option_type" ∷ "bid" ∷ "ask" ∷ "mid"
    ∷ "iv" ∷ "quote_valid" ∷ []

-- `", ".join(parts)`
unfoldable pub commas : List String → String
unfolding joined
commas [] = ""
commas (s ∷ []) = s
commas (s ∷ parts) = let rest = commas parts in joined (s ∷ ", " ∷ rest ∷ [])

abbrev pub is_none {ℓ} : {A : Type ℓ} → List A → Bool
is_none [] = true
is_none (x ∷ xs) = false

abbrev pub columns_message : String → List String → List String
columns_message label missing =
    if is_none missing
    then []
    else joined (label ∷ " missing required columns: " ∷ commas missing ∷ []) ∷ []

-- `_require_columns`
unfoldable pub require_columns : String → List String → List String → List String
require_columns label required actual =
    columns_message label (sorted str_ord (λ s. s) (keep (λ c. not (is_element c actual)) required))

-- The loop over the snapshots: the messages, the ids, the expiries and the times.
pub record SnapshotScan : Type 0 where
  pub errors : List String
  pub expiries : List String
  pub ids : List String
  pub times : List String

abbrev pub listed : Option String → List String → List String
listed none xs = xs
listed (some x) xs = xs ++ x ∷ []

abbrev pub gathered : Option String → List String → List String
gathered none xs = xs
gathered (some x) xs = add_element x xs

module _ (lib : Library) where
  unfoldable pub scan_snapshot : Row → ℕ → SnapshotScan → SnapshotScan
  scan_snapshot row i s = record {
    errors =
        s.errors
        ++ (messages (snapshot_row_reports lib row i)
            ++ messages (expiry_reports lib (cell "expiry" row) snapshots_table i));
    ids = listed (source_id_or_none lib (cell "snapshot_id" row)) s.ids;
    expiries = gathered (date_string lib (cell "expiry" row)) s.expiries;
    times = listed (optional_iso_time lib (cell "market_time" row)) s.times;
  }

  unfoldable pub scan_snapshots : List Row → ℕ → SnapshotScan → SnapshotScan
  unfolding scan_snapshot
  scan_snapshots [] i s = s
  scan_snapshots (row ∷ rows) i s = scan_snapshots rows (suc i) (scan_snapshot row i s)

  abbrev pub unless_escaping : Option Error → Result (Unit {0}) → Result (Unit {0})
  unless_escaping none rest = rest
  unless_escaping (some e) rest = err e

  -- An exception that `_iso_time` raises in the loop over the snapshots and that is not caught ends
  -- the whole call; nothing of the loop is seen then.
  unfoldable pub check_times : List Row → Result (Unit {0})
  check_times [] = ok tt
  check_times (row ∷ rows) =
      unless_escaping (escaping lib (iso_time lib (cell "market_time" row))) (check_times rows)

-- The loop of `_duplicates`, with what was seen.
unfoldable pub repeated : List String → List String → List String → List String
repeated [] seen found = found
repeated (x ∷ xs) seen found =
    repeated xs (add_element x seen) (if is_element x seen then add_element x found else found)

-- `_duplicates`
unfoldable pub duplicates : List String → List String
unfolding repeated
duplicates values = sorted str_ord (λ s. s) (repeated values [] [])

abbrev pub unless_none : String → List String → List String
unless_none head [] = []
unless_none head (x ∷ xs) = joined (head ∷ commas (take 5 (x ∷ xs)) ∷ []) ∷ []

abbrev pub unless : Bool → String → List String
unless true m = []
unless false m = m ∷ []

abbrev pub subset : List String → List String → Bool
subset [] ys = true
subset (x ∷ xs) ys = is_element x ys && subset xs ys

-- `a == b` of sets
abbrev pub same_set : List String → List String → Bool
same_set xs ys = subset xs ys && subset ys xs

-- The errors of the pair, after those of the snapshots' rows.
unfoldable pub pair_errors : SnapshotScan → ScanStats → List String → List String
pair_errors s q scanned =
    unless (nat_beq (length s.expiries) 1) "snapshots.parquet contains multiple expiries"
    ++ (unless_none "duplicate snapshot_id values in snapshots.parquet: " (duplicates s.ids)
        ++ (scanned
            ++ (unless (nat_beq (length q.quote_expiries) 1)
                  "quotes.parquet contains multiple expiries"
                ++ (unless
                      (is_none s.expiries
                        || is_none q.quote_expiries
                        || same_set s.expiries q.quote_expiries)
                      "expiry mismatch between snapshots.parquet and quotes.parquet"
                    ++ (unless_none "quote snapshot_id values without snapshot rows: " (
                          sorted str_ord (λ x. x)
                            (keep (λ x. not (is_element x s.ids)) q.quote_snapshot_ids))
                        ++ unless (not (nat_beq q.valid_quote_count 0))
                            "No valid quote rows found in quotes.parquet")))))

abbrev pub failed : List String → List String → ReadResult
failed errors warnings = record {
  snapshots = [];
  summary = [];
  warnings = warnings;
  errors = errors;
  quotes = Quotes.done;
}

module _ (lib : Library) where
  unfoldable pub pair_warnings : SnapshotScan → ScanStats → List String
  pair_warnings s q =
      unless_none "duplicate market_time values in snapshots.parquet: " (duplicates s.times)
      ++ unless (nat_beq q.invalid_quote_count 0)
          (joined (lib.number_text q.invalid_quote_count ∷ " invalid quote rows found" ∷ []))

  abbrev pub id_or_error : Option String → Result String
  id_or_error none = err (value_error "list index out of range")
  id_or_error (some id) = ok id

  -- The list comprehension over the rows, with `snapshot_ids[index]`.
  unfoldable pub normalize_snapshots :
      List Row → ℕ → String → String → List String → ScanStats → Result (List SnapshotRecord)
  normalize_snapshots [] i session_id expiry ids q = ok []
  normalize_snapshots (row ∷ rows) i session_id expiry ids q =
      and_then (id_or_error (get_elem? ids i)) λ id.
        and_then (normalize_snapshot lib row i session_id expiry (counts_of id q)) λ snapshot.
          and_then (normalize_snapshots rows (suc i) session_id expiry ids q)
            λ snapshots. ok (snapshot ∷ snapshots)

-- `{snapshot.source_snapshot_id: snapshot for snapshot in snapshots}`
unfoldable pub snapshot_map :
    List SnapshotRecord → Dict String SnapshotRecord → Dict String SnapshotRecord
snapshot_map [] m = m
snapshot_map (s ∷ snapshots) m = snapshot_map snapshots (put s.source_snapshot_id s m)

abbrev pub int_items : List (Option ℤ) → Items
int_items [] = Items.nil
int_items (none ∷ xs) = Items.cons Json.null (int_items xs)
int_items (some n ∷ xs) = Items.cons (Json.num n) (int_items xs)

abbrev pub number_fields : Dict String ℕ → Fields
number_fields [] = Fields.end
number_fields ((k, n) ∷ d) = Fields.field k (Json.num (pos n)) (number_fields d)

-- `{id: counts.get(id, 0) for id in snapshot_ids}`
unfoldable pub row_counts : List String → Dict String ℕ → Dict String ℕ → Dict String ℕ
row_counts [] counts d = d
row_counts (id ∷ ids) counts d = row_counts ids counts (put id (or_zero (get id counts)) d)

unfoldable pub distinct_counts : List ℕ → List ℕ → List ℕ
distinct_counts [] found = found
distinct_counts (n ∷ ns) found = distinct_counts ns (add_element n found)

abbrev pub one_or_all : List ℕ → Dict String ℕ → Json
one_or_all (n ∷ []) counts = Json.num (pos n)
one_or_all _ counts = Json.obj (number_fields counts)

-- `_quote_rows_per_snapshot`
unfoldable pub quote_rows_per_snapshot : List String → Dict String ℕ → Json
unfolding row_counts distinct_counts
quote_rows_per_snapshot ids counts =
    let d = row_counts ids counts [] in one_or_all (distinct_counts (values d) []) d

abbrev pub optional_num : Option ℤ → Json
optional_num none = Json.null
optional_num (some n) = Json.num n

abbrev pub preview : SnapshotRecord → Json
preview s = Json.obj (
    Fields.field "source_snapshot_id" (Json.text s.source_snapshot_id) (
      Fields.field "source_order" (Json.num (pos s.source_order)) (
        Fields.field "snapshot_time" (Json.text s.snapshot_time)
          (Fields.field "row_count" (optional_num s.row_count) Fields.end))))

abbrev pub preview_then : Option SnapshotRecord → Items → Items
preview_then none rest = rest
preview_then (some s) rest = Items.cons (preview s) rest

abbrev pub previews_at : List SnapshotRecord → List ℕ → Items
previews_at snapshots [] = Items.nil
previews_at snapshots (i ∷ is) = preview_then (get_elem? snapshots i) (previews_at snapshots is)

-- `_snapshot_previews` of a list that is not empty: the indexes are in range.
unfoldable pub snapshot_previews : List SnapshotRecord → Json
snapshot_previews snapshots =
    let n = length snapshots in
    Json.arr (
      previews_at snapshots
        (sorted nat_ord (λ i. i) (add_element (n - 1) (add_element (n / 2) (0 ∷ [])))))
