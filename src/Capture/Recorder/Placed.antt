-- ===== src/Capture/Recorder/Placed.antt =====
-- `capture` of replay/capture.py: what a live snapshot does beside the latest of its session.
use gamma_scope.Prelude.{ℕ, ◌+◌, ◌*◌, ◌≤◌, ◌<◌, ◌≡◌, ◌⊎◌}
use gamma_scope.Replay.Effects.{Result, ok, Platform}
use gamma_scope.Capture.Store.{Snapshot, Store}
use gamma_scope.Capture.Recorder.{
  Capture, not_captured, replay_ready, insert_capture, update_capture,
}

module _ (p : Platform) (interval_seconds : ℕ) where
  -- By the time of the snapshot and that of the latest stored one.
  abbrev pub Placed : ℕ → ℕ → ℕ → Snapshot → Store → Result Capture × Store → Type 0
  Placed at latest_at id s t x =
      ((at < latest_at) × (x ≡ (ok (not_captured "stale_snapshot"), t)))
      ⊎ (((latest_at + interval_seconds * 1000000 ≤ at)
            × (latest_at ≤ at)
            × (x ≡ insert_capture p (replay_ready s) t))
          ⊎ ((at < latest_at + interval_seconds * 1000000)
              × (latest_at ≤ at)
              × (x ≡ update_capture p id (replay_ready s) t)))
