-- ===== src/Capture/Retention.antt =====
-- maintenance/retention.py: old captures and old saved views are deleted in one transaction.
-- The days of the two environment variables and `int` of a text are arguments.
pub mod Expired
use gamma_scope.Prelude.{
  ℕ, ℤ, pos, negsuc, ◌-◌, ◌*◌, max, String, Bool, true, false, not, Option, none, some, List, ltb,
  leb, length, keep, if◌then◌else◌,
}
use gamma_scope.Replay.Effects.{Error, Result, ok, err, value_error, overflow_error}
use gamma_scope.Replay.Publish.{and_then}
use gamma_scope.Capture.Store.{Store, CleanupCounts, is_expired, delete_expired, cleanup_counts}

abbrev pub at_least_one : ℤ → ℕ
at_least_one (pos n) = max 1 n
at_least_one (negsuc n) = 1

abbrev pub days_of_text : ℕ → Option ℤ → ℕ
days_of_text default none = default
days_of_text default (some n) = at_least_one n

-- `_retention_days`: `int` of a text that is no number raises a `ValueError`, here `none`.
unfoldable pub retention_days : (String → Option ℤ) → Option String → ℕ → ℕ
retention_days parse_int none default = default
retention_days parse_int (some value) default = days_of_text default (parse_int value)

abbrev pub default_replay_retention_days : ℕ
default_replay_retention_days = 20

abbrev pub default_saved_view_retention_days : ℕ
default_saved_view_retention_days = 90

-- A row of `saved_views`, as far as this code reads it.
pub record SavedView : Type 0 where
  pub view_id : String
  pub created_at : ℕ

pub record Database : Type 0 where
  pub captures : Store
  pub saved_views : List SavedView

pub record RetentionCounts : Type 0 where
  pub replay : CleanupCounts
  pub saved_views : ℕ

abbrev pub all_sessions : String → Bool
all_sessions session_id = true

abbrev pub is_old_view : ℕ → SavedView → Bool
is_old_view cutoff v = ltb v.created_at cutoff

-- `cleanup_before` of the repositories with `dry_run=True`: the counts of what would be deleted.
unfoldable pub retention_counts : ℕ → ℕ → Database → RetentionCounts
retention_counts replay_cutoff saved_view_cutoff db = record {
  replay = cleanup_counts all_sessions replay_cutoff db.captures;
  saved_views = length (keep (is_old_view saved_view_cutoff) db.saved_views);
}

-- `_cleanup_postgres_atomically`
unfoldable pub cleanup_atomically : ℕ → ℕ → Database → RetentionCounts × Database
cleanup_atomically replay_cutoff saved_view_cutoff db = (
  retention_counts replay_cutoff saved_view_cutoff db,
  record {
    captures = delete_expired all_sessions replay_cutoff db.captures;
    saved_views = keep (λ v. not (is_old_view saved_view_cutoff v)) db.saved_views;
  },
)

abbrev pub microseconds_per_day : ℕ
microseconds_per_day = 86400000000

pub record RetentionReport : Type 0 where
  pub dry_run : Bool
  pub replay_days : ℕ
  pub saved_view_days : ℕ
  pub replay_cutoff : ℕ
  pub saved_view_cutoff : ℕ
  pub counts : RetentionCounts

-- The environment of a cleanup: its variables, and whether both repositories are PostgreSQL's at
-- one database, which `_can_cleanup_atomically` asks.
pub record Settings : Type 0 where
  pub parse_int : String → Option ℤ
  pub replay_days : Option String
  pub saved_view_days : Option String
  pub is_atomic : Bool

-- `current_time - timedelta(days=...)`: an `OverflowError` before `datetime.min`.
abbrev pub cutoff_before : ℕ → ℕ → Result ℕ
cutoff_before now days =
    if leb (days * microseconds_per_day) now
    then ok (now - days * microseconds_per_day)
    else err (overflow_error "date value out of range")

unfoldable pub replay_days_of : Settings → ℕ
unfolding retention_days
replay_days_of settings =
    retention_days settings.parse_int settings.replay_days default_replay_retention_days

unfoldable pub saved_view_days_of : Settings → ℕ
unfolding retention_days
saved_view_days_of settings =
    retention_days settings.parse_int settings.saved_view_days default_saved_view_retention_days

unfoldable pub retention_report : Settings → Bool → ℕ → ℕ → RetentionCounts → RetentionReport
retention_report settings dry_run replay_cutoff saved_view_cutoff counts = record {
  dry_run = dry_run;
  replay_days = replay_days_of settings;
  saved_view_days = saved_view_days_of settings;
  replay_cutoff = replay_cutoff;
  saved_view_cutoff = saved_view_cutoff;
  counts = counts;
}

-- From the two cutoffs on.
unfoldable pub cleanup_from :
    Settings → Bool → ℕ → ℕ → Database → Result (RetentionReport × Database)
unfolding retention_counts cleanup_atomically retention_report
cleanup_from settings dry_run replay_cutoff saved_view_cutoff db =
    let counts = retention_counts replay_cutoff saved_view_cutoff db in
    let cleaned = cleanup_atomically replay_cutoff saved_view_cutoff db in
    if dry_run
    then ok (retention_report settings true replay_cutoff saved_view_cutoff counts, db)
    else if not settings.is_atomic
    then err (value_error "Retention cleanup persistence unavailable")
    else ok (retention_report settings false replay_cutoff saved_view_cutoff cleaned.0, cleaned.1)

-- `cleanup_retention`
unfoldable pub cleanup_retention :
    Settings → Bool → ℕ → Database → Result (RetentionReport × Database)
unfolding cleanup_from
cleanup_retention settings dry_run now db =
    and_then (cutoff_before now (replay_days_of settings)) λ replay_cutoff.
      and_then (cutoff_before now (saved_view_days_of settings))
        λ saved_view_cutoff. cleanup_from settings dry_run replay_cutoff saved_view_cutoff db
