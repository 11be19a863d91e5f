-- ===== src/Replay/Queries.antt =====
-- The reading methods of replay/import_repository.py.
--
-- `SELECT ... ORDER BY k LIMIT 1` is the first of the least rows by k; `ORDER BY k` is `sorted`.
pub mod Nearest
pub mod Groups
use gamma_scope.Prelude.{
  ℕ, ◌+◌, ◌-◌, String, string_eq, Bool, true, false, ◌&&◌, Option, none, some, List, [], ◌∷◌, ◌++◌,
  map, ◌==◌, leb, keep, if◌then◌else◌,
}
use gamma_scope.Prelude.Dict.{Dict, get, put, values}
use gamma_scope.Prelude.Order.{Ord, nat_ord, str_ord, dual, lex}
use gamma_scope.Prelude.Sort.{sorted, min_by}
use gamma_scope.Replay.Effects.{Platform}
use gamma_scope.Replay.Tables.{
  completed, status_eq, ImportRecord, SnapshotHeader, QuoteRecord, SessionRow, Tables,
}

pub record SnapshotData : Type 0 where
  pub header : SnapshotHeader
  pub quotes : List QuoteRecord

-- `_parse_optional_datetime`: no text, an empty text and a text that is no datetime give `None`.
unfoldable pub parse_optional : Platform → Option String → Option ℕ
parse_optional p none = none
parse_optional p (some value) = if value == "" then none else p.parse_datetime value

abbrev pub of_session : String → SnapshotHeader → Bool
of_session session_id row = row.session_id == session_id

abbrev pub session_rows : String → Tables → List SnapshotHeader
session_rows session_id t = keep (of_session session_id) t.snapshots

-- ORDER BY source_order ASC, contract_id ASC
abbrev pub quote_order : Ord (ℕ × String)
quote_order = lex nat_ord str_ord

abbrev pub quote_key : QuoteRecord → ℕ × String
quote_key q = (q.source_order, q.contract_id)

-- `_quotes_for_snapshot`
unfoldable pub quotes_for_snapshot : String → String → Tables → List QuoteRecord
quotes_for_snapshot session_id source_snapshot_id t =
    sorted quote_order quote_key (
      keep (λ q. q.session_id == session_id && q.source_snapshot_id == source_snapshot_id) t.quotes)

-- `source_snapshot_id = ANY(ids)`
unfoldable pub is_any : String → List String → Bool
is_any id [] = false
is_any id (x ∷ ids) = if id == x then true else is_any id ids

abbrev pub or_empty : Option (List QuoteRecord) → List QuoteRecord
or_empty none = []
or_empty (some qs) = qs

-- `{id: [] for id in ids}`
unfoldable pub empty_groups : List String → Dict String (List QuoteRecord)
empty_groups [] = []
empty_groups (id ∷ ids) = put id [] (empty_groups ids)

-- `quote_groups.setdefault(id, []).append(quote)` for each quote
unfoldable pub group_quotes :
    List QuoteRecord → Dict String (List QuoteRecord) → Dict String (List QuoteRecord)
group_quotes [] groups = groups
group_quotes (q ∷ quotes) groups =
    let id = q.source_snapshot_id in
    group_quotes quotes (put id (or_empty (get id groups) ++ q ∷ []) groups)

-- `_quotes_for_snapshots`: one query for all, grouped in memory.
unfoldable pub quotes_for_snapshots : String → List String → Tables → Dict String (List QuoteRecord)
quotes_for_snapshots session_id [] t = []
quotes_for_snapshots session_id (id ∷ ids) t =
    group_quotes
      (sorted quote_order quote_key
        (keep (λ q. q.session_id == session_id && is_any q.source_snapshot_id (id ∷ ids)) t.quotes))
      (empty_groups (id ∷ ids))

abbrev pub data_of : String → Tables → Option SnapshotHeader → Option SnapshotData
data_of session_id t none = none
data_of session_id t (some row) =
    some (record { header = row; quotes = quotes_for_snapshot session_id row.source_snapshot_id t })

abbrev pub first_row : List SnapshotHeader → Option SnapshotHeader
first_row [] = none
first_row (row ∷ rows) = some row

unfoldable pub snapshot_by_source_id : String → String → Tables → Option SnapshotData
snapshot_by_source_id session_id source_snapshot_id t = data_of session_id t (
    first_row
      (keep (λ row. row.source_snapshot_id == source_snapshot_id) (session_rows session_id t)))

-- `abs(a - b)` of two instants
unfoldable pub distance : ℕ → ℕ → ℕ
distance a b = a - b + (b - a)

-- The keys (snapshot_time, source_order) and (distance, source_order).
abbrev pub time_key : SnapshotHeader → ℕ × ℕ
time_key row = (row.snapshot_time, row.source_order)

abbrev pub distance_key : ℕ → SnapshotHeader → ℕ × ℕ
distance_key target row = (distance row.snapshot_time target, row.source_order)

unfoldable pub before_record : ℕ → List SnapshotHeader → Option SnapshotHeader
before_record target rows =
    min_by (lex (dual nat_ord) nat_ord) time_key (keep (λ row. leb row.snapshot_time target) rows)

unfoldable pub after_record : ℕ → List SnapshotHeader → Option SnapshotHeader
after_record target rows =
    min_by (lex nat_ord nat_ord) time_key (keep (λ row. leb target row.snapshot_time) rows)

abbrev pub candidates : Option SnapshotHeader → Option SnapshotHeader → List SnapshotHeader
candidates none none = []
candidates none (some b) = b ∷ []
candidates (some a) none = a ∷ []
candidates (some a) (some b) = a ∷ b ∷ []

-- `_nearest_import_snapshot_record`
unfoldable pub nearest_record :
    Option SnapshotHeader → Option SnapshotHeader → ℕ → Option SnapshotHeader
nearest_record before after target =
    min_by (lex nat_ord nat_ord) (distance_key target) (candidates before after)

unfoldable pub nearest_row : Option ℕ → List SnapshotHeader → Option SnapshotHeader
unfolding nearest_record
nearest_row none rows = min_by (lex (dual nat_ord) (dual nat_ord)) time_key rows
nearest_row (some target) rows =
    nearest_record (before_record target rows) (after_record target rows) target

unfoldable pub nearest_snapshot : Platform → String → Option String → Tables → Option SnapshotData
nearest_snapshot p session_id at t =
    data_of session_id t (nearest_row (parse_optional p at) (session_rows session_id t))

-- The rows of `stream_snapshots`, before they are ordered.
unfoldable pub selected_rows : Option ℕ → Option String → List SnapshotHeader → List SnapshotHeader
selected_rows target (some id) rows =
    elim (first_row (keep (λ row. row.source_snapshot_id == id) rows)) [
      | none ↦ []
      | some selected ↦ keep (λ row. leb selected.source_order row.source_order) rows
    ]
selected_rows none none rows = rows
selected_rows (some target) none rows = keep (λ row. leb target row.snapshot_time) rows

abbrev pub stream_order : List SnapshotHeader → List SnapshotHeader
stream_order rows = sorted nat_ord (λ row. row.source_order) rows

unfoldable pub stream_snapshots :
    Platform → String → Option String → Option String → Tables → List SnapshotData
stream_snapshots p session_id at source_snapshot_id t =
    let target = parse_optional p at in
    let rows = stream_order (selected_rows target source_snapshot_id (session_rows session_id t)) in
    let groups = quotes_for_snapshots session_id (map (λ row. row.source_snapshot_id) rows) t in
    map (λ row. record { header = row; quotes = or_empty (get row.source_snapshot_id groups) }) rows

-- `timestamps`: (index, snapshot_time, source_snapshot_id)
unfoldable pub timestamps : String → Tables → List (ℕ × ℕ × String)
timestamps session_id t =
    map (λ row. (row.source_order, row.snapshot_time, row.source_snapshot_id))
      (stream_order (session_rows session_id t))

-- The join of a session with its import.
unfoldable pub is_public : Tables → SessionRow → Bool
is_public t session = elim (get session.import_id t.imports) [
  | none ↦ false
  | some row ↦ row.status == completed && session.visibility == "public"
]

unfoldable pub list_completed_sessions : Tables → List SessionRow
unfolding is_public
list_completed_sessions t =
    sorted (lex (dual nat_ord) str_ord) (λ session. (session.end_time, session.session_id))
      (keep (is_public t) (values t.sessions))

unfoldable pub is_completed_public_session : String → Tables → Bool
unfolding is_public
is_completed_public_session session_id t = elim (get session_id t.sessions) [
  | none ↦ false
  | some session ↦ is_public t session
]

-- `(status = 'completed') DESC`: false sorts after true.
abbrev pub completed_key : ImportRecord → ℕ
completed_key row = if row.status == completed then 0 else 1

unfoldable pub find_duplicate_checksum_import : String → String → Tables → Option ImportRecord
find_duplicate_checksum_import snapshots_sha256 quotes_sha256 t =
    min_by (lex nat_ord (lex (dual nat_ord) (dual str_ord)))
      (λ row. (completed_key row, (row.created_at, row.import_id)))
      (keep (λ row. row.snapshots_sha256 == snapshots_sha256 && row.quotes_sha256 == quotes_sha256)
        (values t.imports))

abbrev pub nat_same : ℕ → ℕ → Bool
nat_same a b = leb a b && leb b a

unfoldable pub find_duplicate_identity_import :
    String → String → ℕ → ℕ → Tables → Option ImportRecord
find_duplicate_identity_import snapshots_filename quotes_filename snapshots_size quotes_size t =
    min_by (lex (dual nat_ord) (dual str_ord)) (λ row. (row.created_at, row.import_id))
      (keep
        (λ row.
          row.snapshots_filename == snapshots_filename
          && row.quotes_filename == quotes_filename
          && nat_same row.snapshots_size snapshots_size
          && nat_same row.quotes_size quotes_size)
        (values t.imports))
