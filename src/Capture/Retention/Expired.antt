-- ===== src/Capture/Retention/Expired.antt =====
-- What `cleanup_retention` leaves.
use gamma_scope.Prelude.{
  ℕ, ◌+◌, ◌*◌, ◌-◌, ◌≤◌, le→leb, ◌≡◌, refl, Bool, true, false, not, ltb, length, All, All-imp,
  keep-All, length-keep_split, arith, ◌&&◌,
}
use gamma_scope.Replay.Effects.{ok}
use gamma_scope.Capture.Store.{delete_expired, is_expired, cleanup_counts}
use gamma_scope.Capture.Store.Summed.{IsSummed}
use gamma_scope.Capture.Store.Calls.{delete_expired-IsSummed}
use gamma_scope.Capture.Retention.{
  Database, RetentionReport, Settings, all_sessions, is_old_view, cleanup_atomically,
  retention_counts, retention_report, cutoff_before, microseconds_per_day, cleanup_from,
  replay_days_of, saved_view_days_of, cleanup_retention,
}

-- Nothing older than the cutoffs is left, what was deleted is counted, and the sessions still tell
-- their snapshots.
pub record IsCleaned (db : Database) (report : RetentionReport) (db' : Database) : Type 0 where
  pub no_old_snapshot :
      All (λ e. ltb e.1.snapshot_time report.replay_cutoff ≡ false) db'.captures.snapshots
  pub no_old_view : All (λ v. ltb v.created_at report.saved_view_cutoff ≡ false) db'.saved_views
  pub snapshots_counted :
      length db.captures.snapshots ≡ report.counts.replay.snapshots + length db'.captures.snapshots
  pub views_counted : length db.saved_views ≡ report.counts.saved_views + length db'.saved_views
  pub summed : IsSummed db.captures → IsSummed db'.captures

not_old : (b : Bool) → not b ≡ true → b ≡ false
not_old b h = ground arith

not_old_session : (b : Bool) → not (b && true) ≡ true → b ≡ false
not_old_session b h = ground arith

-- A cutoff that lies in the range of datetimes.
cutoff-eq-ok :
    (now days : ℕ)
    → days * microseconds_per_day ≤ now
    → cutoff_before now days ≡ ok (now - days * microseconds_per_day)
cutoff-eq-ok now days h = rw (le→leb _ _ h) refl

-- A cleanup that is no dry run, on repositories that share a database, returns, if neither cutoff
-- lies before the first datetime; nothing older than the cutoffs of its report is left in the
-- database; the report counts what was deleted; and if the sessions told their snapshots before,
-- then so they do after.
pub cleanup_retention-IsCleaned :
    (settings : Settings) (now : ℕ) (db : Database)
    → settings.is_atomic ≡ true
    → replay_days_of settings * microseconds_per_day ≤ now
    → saved_view_days_of settings * microseconds_per_day ≤ now
    → (report : RetentionReport) × (db' : Database) × (cleanup_retention settings false now db
        ≡ ok (report, db'))
      × (report.replay_cutoff + replay_days_of settings * microseconds_per_day ≡ now)
      × (report.saved_view_cutoff + saved_view_days_of settings * microseconds_per_day ≡ now)
      × IsCleaned db report db'
unfolding cleanup_retention cleanup_from cleanup_atomically retention_counts cleanup_counts
    delete_expired retention_report
cleanup_retention-IsCleaned settings now db atomic replay views =
    let replay_cutoff = now - replay_days_of settings * microseconds_per_day in
    let saved_view_cutoff = now - saved_view_days_of settings * microseconds_per_day in
    let cleaned = cleanup_atomically replay_cutoff saved_view_cutoff db in
    (
      retention_report settings false replay_cutoff saved_view_cutoff cleaned.0,
      cleaned.1,
      rw
          (
            cutoff-eq-ok now (replay_days_of settings) replay,
            cutoff-eq-ok now (saved_view_days_of settings) views,
            atomic,
          )
          refl,
      omega (arith, replay),
      omega (arith, views),
      record {
        no_old_snapshot =
            All-imp _ _ _ (λ e h. not_old_session _ h)
              (keep-All (λ e. not (is_expired all_sessions _ e)) db.captures.snapshots);
        no_old_view =
            All-imp _ _ _ (λ v h. not_old _ h)
              (keep-All (λ v. not (is_old_view _ v)) db.saved_views);
        snapshots_counted = length-keep_split (is_expired all_sessions _) db.captures.snapshots;
        views_counted = length-keep_split (is_old_view _) db.saved_views;
        summed = λ h. delete_expired-IsSummed all_sessions _ db.captures h;
      },
    )
