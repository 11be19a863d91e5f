-- ===== src/Capture/Store.antt =====
-- replay/repository.py: `PostgresReplayRepository`. A method is one transaction over the two tables.
-- An instant is a number of microseconds; `captured_at` and `updated_at` are not kept.
pub mod Refresh
pub mod Summed
pub mod Calls
pub mod Cleaned
use gamma_scope.Prelude.{
  ℕ, suc, ◌+◌, ◌-◌, min, max, String, string_eq, nat_eq, Bool, true, false, not, ◌&&◌, ◌||◌, Option,
  none, some, List, [], ◌∷◌, ◌++◌, map, ◌==◌, ltb, leb, length, keep, if◌then◌else◌,
}
use gamma_scope.Prelude.Order.{nat_ord, str_ord, lex, dual}
use gamma_scope.Prelude.Sort.{sorted, max_by, min_by}
use gamma_scope.Prelude.Dict.{Dict, values, get, put}
use gamma_scope.Replay.Effects.{Result, ok, err, Platform, joined, Tx, Exec, lift, transact, ◌>>=◌}
use gamma_scope.Replay.Tables.{Json}
use gamma_scope.Replay.Publish.{and_then, parse_time}
use gamma_scope.Replay.Queries.{parse_optional, distance}

-- The fields of an analytics snapshot that the code reads, and the rest.
pub record Snapshot : Type 0 where
  pub session_id : String
  pub symbol : String
  pub expiry : String
  pub mode : String
  pub snapshot_time : String
  pub rows : List Json
  pub rest : Dict String Json

-- A row of `analytics_snapshots`, without its key.
pub record SnapshotRow : Type 0 where
  pub session_id : String
  pub snapshot_time : ℕ
  pub payload : Snapshot
  pub row_count : ℕ

-- A row of `replay_sessions`, without its key.
pub record Session : Type 0 where
  pub symbol : String
  pub expiry : String
  pub source : String
  pub start_time : ℕ
  pub end_time : ℕ
  pub snapshot_count : ℕ

-- Both tables, and the next `snapshot_id` of the BIGSERIAL.
pub record Store : Type 0 where
  pub sessions : Dict String Session
  pub snapshots : Dict ℕ SnapshotRow
  pub next_id : ℕ

-- `_summary_from_record`
pub record CaptureSummary : Type 0 where
  pub snapshot_id : ℕ
  pub session_id : String
  pub snapshot_time : String
  pub row_count : ℕ

unfoldable pub summary_of : Platform → ℕ → SnapshotRow → CaptureSummary
summary_of p id row = record {
  snapshot_id = id;
  session_id = row.session_id;
  snapshot_time = p.format_datetime row.snapshot_time;
  row_count = row.row_count;
}

-- `_normalized_snapshot`
unfoldable pub normalized_snapshot : Platform → Snapshot → Result Snapshot
normalized_snapshot p s =
    and_then (parse_time p s.snapshot_time)
      λ at. ok (record s { snapshot_time = p.format_datetime at })

-- The row of a normalized snapshot.
unfoldable pub row_of : ℕ → Snapshot → SnapshotRow
row_of at s = record {
  session_id = s.session_id;
  snapshot_time = at;
  payload = s;
  row_count = length s.rows;
}

-- The times of a session's snapshots.
unfoldable pub times_of : String → Dict ℕ SnapshotRow → List ℕ
times_of session_id [] = []
times_of session_id ((id, row) ∷ snapshots) =
    let rest = times_of session_id snapshots in
    if row.session_id == session_id then row.snapshot_time ∷ rest else rest

abbrev pub least : ℕ → List ℕ → ℕ
least t [] = t
least t (u ∷ us) = least (min t u) us

abbrev pub greatest : ℕ → List ℕ → ℕ
greatest t [] = t
greatest t (u ∷ us) = greatest (max t u) us

-- `SELECT MIN(snapshot_time), MAX(snapshot_time), COUNT(*)`; `none` where the count is 0.
abbrev pub aggregate : List ℕ → Option (ℕ × ℕ × ℕ)
aggregate [] = none
aggregate (t ∷ ts) = some (least t ts, greatest t ts, suc (length ts))

-- `DELETE FROM ... WHERE session_id = ...`
unfoldable pub remove : {V : Type 0} → String → Dict String V → Dict String V
remove k [] = []
remove k ((j, v) ∷ d) = let rest = remove k d in if j == k then rest else (j, v) ∷ rest

-- `INSERT ... ON CONFLICT (session_id) DO UPDATE SET symbol, expiry, source`
abbrev pub upserted : Snapshot → String → ℕ → Option Session → Session
upserted s source at none = record {
  symbol = s.symbol;
  expiry = s.expiry;
  source = source;
  start_time = at;
  end_time = at;
  snapshot_count = 0;
}
upserted s source at (some row) = record row {
  symbol = s.symbol;
  expiry = s.expiry;
  source = source;
}

-- `_upsert_session`
unfoldable pub upsert_session : Snapshot → String → ℕ → Dict String Session → Dict String Session
upsert_session s source at sessions =
    put s.session_id (upserted s source at (get s.session_id sessions)) sessions

abbrev pub update_times :
    String → ℕ × ℕ × ℕ → Option Session → Dict String Session → Dict String Session
update_times session_id (start, end, count) none sessions = sessions
update_times session_id (start, end, count) (some row) sessions =
    put session_id (record row { start_time = start; end_time = end; snapshot_count = count })
      sessions

abbrev pub refreshed_by : Option (ℕ × ℕ × ℕ) → String → Dict String Session → Dict String Session
refreshed_by none session_id sessions = remove session_id sessions
refreshed_by (some times) session_id sessions =
    update_times session_id times (get session_id sessions) sessions

-- `_refresh_session`
unfoldable pub refresh_session :
    Dict ℕ SnapshotRow → String → Dict String Session → Dict String Session
refresh_session snapshots session_id sessions =
    refreshed_by (aggregate (times_of session_id snapshots)) session_id sessions

-- The statements of `insert_snapshot`.
unfoldable pub store_snapshot : Platform → Snapshot → String → ℕ → Store → CaptureSummary × Store
store_snapshot p s source at t =
    let row = row_of at s in
    let snapshots = t.snapshots ++ (t.next_id, row) ∷ [] in
    (
      summary_of p t.next_id row,
      record {
        sessions = refresh_session snapshots s.session_id (upsert_session s source at t.sessions);
        snapshots = snapshots;
        next_id = t.next_id + 1;
      },
    )

unfoldable pub insert_snapshot : Platform → Snapshot → String → Tx Store CaptureSummary
insert_snapshot p snapshot source t =
    and_then (normalized_snapshot p snapshot)
      λ s. and_then (parse_time p s.snapshot_time) λ at. ok (store_snapshot p s source at t)

-- The refresh of the session that a snapshot has left.
abbrev pub refresh_left :
    Dict ℕ SnapshotRow → String → String → Dict String Session → Dict String Session
refresh_left snapshots left session_id sessions =
    if left == session_id then sessions else refresh_session snapshots left sessions

-- The statements of `update_snapshot`, by the row that was there. Without one, the upsert is
-- committed and the snapshot is inserted in a second transaction.
unfoldable pub replace_snapshot :
    Platform → ℕ → Snapshot → String → ℕ → Option SnapshotRow → Exec Store CaptureSummary
unfolding insert_snapshot
replace_snapshot p id s source at none t =
    transact (insert_snapshot p s source)
      (record t { sessions = upsert_session s source at t.sessions })
replace_snapshot p id s source at (some previous) t =
    let row = row_of at s in
    let snapshots = put id row t.snapshots in
    let sessions = upsert_session s source at t.sessions in
    (
      ok (summary_of p id row),
      record t {
        sessions =
            refresh_session snapshots s.session_id
              (refresh_left snapshots previous.session_id s.session_id sessions);
        snapshots = snapshots;
      },
    )

unfoldable pub update_snapshot : Platform → ℕ → Snapshot → String → Exec Store CaptureSummary
update_snapshot p id snapshot source = do
  s ← lift (normalized_snapshot p snapshot)
  at ← lift (parse_time p s.snapshot_time)
  λ t. replace_snapshot p id s source at (get id t.snapshots) t

-- `snapshot_time, snapshot_id`
abbrev pub time_key : ℕ × SnapshotRow → ℕ × ℕ
time_key (id, row) = (row.snapshot_time, id)

abbrev pub of_session : String → Dict ℕ SnapshotRow → List (ℕ × SnapshotRow)
of_session session_id snapshots = keep (λ e. e.1.session_id == session_id) snapshots

abbrev pub latest_entry : String → Store → Option (ℕ × SnapshotRow)
latest_entry session_id t =
    max_by (lex nat_ord nat_ord) time_key (of_session session_id t.snapshots)

abbrev pub summary_of_entry : Platform → Option (ℕ × SnapshotRow) → Option CaptureSummary
summary_of_entry p none = none
summary_of_entry p (some (id, row)) = some (summary_of p id row)

unfoldable pub latest_snapshot_summary : Platform → String → Store → Option CaptureSummary
latest_snapshot_summary p session_id t = summary_of_entry p (latest_entry session_id t)

abbrev pub payload_of : Option (ℕ × SnapshotRow) → Option Snapshot
payload_of none = none
payload_of (some (id, row)) = some row.payload

-- `ORDER BY ABS(...), snapshot_time DESC, snapshot_id DESC`
abbrev pub distance_key : ℕ → ℕ × SnapshotRow → ℕ × (ℕ × ℕ)
distance_key target (id, row) = (distance row.snapshot_time target, (row.snapshot_time, id))

abbrev pub nearest_entry : String → Option ℕ → Store → Option (ℕ × SnapshotRow)
nearest_entry session_id none t = latest_entry session_id t
nearest_entry session_id (some target) t =
    min_by (lex nat_ord (dual (lex nat_ord nat_ord))) (distance_key target)
      (of_session session_id t.snapshots)

unfoldable pub nearest_snapshot : Platform → String → Option String → Store → Option Snapshot
nearest_snapshot p session_id at t = payload_of (nearest_entry session_id (parse_optional p at) t)

abbrev pub is_from : Option ℕ → ℕ × SnapshotRow → Bool
is_from none e = true
is_from (some target) (id, row) = leb target row.snapshot_time

unfoldable pub replay_snapshots : Platform → String → Option String → Store → List Snapshot
replay_snapshots p session_id at t =
    map (λ e. e.1.payload)
      (sorted (lex nat_ord nat_ord) time_key
        (keep (is_from (parse_optional p at)) (of_session session_id t.snapshots)))

abbrev pub any_time : (ℕ → Bool) → List ℕ → Bool
any_time p [] = false
any_time p (t ∷ ts) = p t || any_time p ts

pub record SessionListing : Type 0 where
  pub session_id : String
  pub symbol : String
  pub expiry : String
  pub start_time : String
  pub end_time : String
  pub snapshot_count : ℕ
  pub source : String
  pub timestamp_source : String

abbrev pub listing_of : Platform → String × Session → SessionListing
listing_of p (session_id, row) = record {
  session_id = session_id;
  symbol = row.symbol;
  expiry = row.expiry;
  start_time = p.format_datetime row.start_time;
  end_time = p.format_datetime row.end_time;
  snapshot_count = row.snapshot_count;
  source = row.source;
  timestamp_source = "estimated";
}

-- `source <> 'parquet_import' AND EXISTS (...)`
abbrev pub is_listed : Dict ℕ SnapshotRow → String × Session → Bool
is_listed snapshots (session_id, row) =
    not (row.source == "parquet_import") && any_time (λ t. true) (times_of session_id snapshots)

-- `ORDER BY end_time DESC, session_id`
unfoldable pub list_sessions : Platform → Store → List SessionListing
list_sessions p t = map (listing_of p) (
    sorted (lex (dual nat_ord) str_ord) (λ en. (en.1.end_time, en.0))
      (keep (is_listed t.snapshots) t.sessions))

-- `ON DELETE CASCADE`
unfoldable pub delete_session : String → Store → Store
delete_session session_id t = record t {
  sessions = remove session_id t.sessions;
  snapshots = keep (λ e. not (e.1.session_id == session_id)) t.snapshots;
}

-- `%s::TEXT IS NULL OR session_id LIKE %s`, by PostgreSQL's LIKE of a text and a pattern.
abbrev pub is_in_scope : (String → String → Bool) → Option String → String → Bool
is_in_scope like none session_id = true
is_in_scope like (some prefix) session_id = like session_id (joined (prefix ∷ "%" ∷ []))

-- The rows that a cleanup deletes.
abbrev pub is_expired : (String → Bool) → ℕ → ℕ × SnapshotRow → Bool
is_expired in_scope cutoff (id, row) = ltb row.snapshot_time cutoff && in_scope row.session_id

-- `EXISTS (... snapshot_time < cutoff) AND NOT EXISTS (... snapshot_time >= cutoff)`
abbrev pub is_ended : (String → Bool) → ℕ → Dict ℕ SnapshotRow → String × Session → Bool
is_ended in_scope cutoff snapshots (session_id, row) =
    any_time (λ t. ltb t cutoff) (times_of session_id snapshots)
    && not (any_time (λ t. leb cutoff t) (times_of session_id snapshots))
    && in_scope session_id

pub record CleanupCounts : Type 0 where
  pub snapshots : ℕ
  pub sessions : ℕ

-- The refreshes of all affected sessions.
unfoldable pub refresh_all :
    Dict ℕ SnapshotRow → List String → Dict String Session → Dict String Session
refresh_all snapshots [] sessions = sessions
refresh_all snapshots (k ∷ ks) sessions =
    refresh_all snapshots ks (refresh_session snapshots k sessions)

abbrev pub is_in : String → List String → Bool
is_in k [] = false
is_in k (j ∷ js) = j == k || is_in k js

-- `SELECT DISTINCT`
abbrev pub distinct : List String → List String
distinct [] = []
distinct (k ∷ ks) = let rest = distinct ks in if is_in k ks then rest else k ∷ rest

abbrev pub session_ids : Dict ℕ SnapshotRow → List String
session_ids snapshots = map (λ e. e.1.session_id) snapshots

unfoldable pub delete_expired : (String → Bool) → ℕ → Store → Store
delete_expired in_scope cutoff t =
    let expired = keep (is_expired in_scope cutoff) t.snapshots in
    let kept = keep (λ e. not (is_expired in_scope cutoff e)) t.snapshots in
    record t {
      sessions = refresh_all kept (distinct (session_ids expired)) t.sessions;
      snapshots = kept;
    }

unfoldable pub cleanup_counts : (String → Bool) → ℕ → Store → CleanupCounts
cleanup_counts in_scope cutoff t = record {
  snapshots = length (keep (is_expired in_scope cutoff) t.snapshots);
  sessions = length (keep (is_ended in_scope cutoff t.snapshots) t.sessions);
}

unfoldable pub cleanup_before :
    (String → String → Bool) → ℕ → Bool → Option String → Store → CleanupCounts × Store
cleanup_before like cutoff dry_run session_id_prefix t =
    let in_scope = is_in_scope like session_id_prefix in
    (cleanup_counts in_scope cutoff t, if dry_run then t else delete_expired in_scope cutoff t)
