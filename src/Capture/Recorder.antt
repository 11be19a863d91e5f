-- ===== src/Capture/Recorder.antt =====
-- replay/capture.py: what a live snapshot does to the stored ones, and the pause after a failure.
-- The snapshots that `build_live_snapshot` makes of the collector's state are an argument.
pub mod Spacing
pub mod Placed
use gamma_scope.Prelude.{
  ℕ, ◌+◌, ◌-◌, ◌*◌, String, string_eq, Bool, true, false, not, Option, none, some, List, [], ◌∷◌,
  ◌==◌, ltb, leb, length, keep, if◌then◌else◌,
}
use gamma_scope.Replay.Effects.{
  Error, Result, ok, err, Platform, str_of, Exec, pure, lift, transact, ◌>>=◌,
}
use gamma_scope.Replay.Publish.{parse_time}
use gamma_scope.Capture.Store.{
  Snapshot, Store, CaptureSummary, insert_snapshot, update_snapshot, latest_snapshot_summary,
}

pub data Capture : Type 0 where
  not_captured : String → Capture
  inserted : CaptureSummary → Capture
  updated : CaptureSummary → Capture

-- `_replay_ready_snapshot`
abbrev pub replay_ready : Snapshot → Snapshot
replay_ready s = record s { mode = "replay" }

unfoldable pub insert_capture : Platform → Snapshot → Exec Store Capture
insert_capture p s = do summary ← transact (insert_snapshot p s "ibkr"); pure (inserted summary)

unfoldable pub update_capture : Platform → ℕ → Snapshot → Exec Store Capture
update_capture p id s = do summary ← update_snapshot p id s "ibkr"; pure (updated summary)

-- By the time between the latest snapshot of the session and this one.
unfoldable pub capture_after : Platform → ℕ → Snapshot → CaptureSummary → ℕ → ℕ → Exec Store Capture
capture_after p interval_seconds s latest at latest_at =
    if ltb at latest_at
    then pure (not_captured "stale_snapshot")
    else if leb (interval_seconds * 1000000) (at - latest_at)
    then insert_capture p s
    else update_capture p latest.snapshot_id s

unfoldable pub capture_ready : Platform → ℕ → Snapshot → Option CaptureSummary → Exec Store Capture
capture_ready p interval_seconds s none = insert_capture p s
capture_ready p interval_seconds s (some latest) = do
  at ← lift (parse_time p s.snapshot_time)
  latest_at ← lift (parse_time p latest.snapshot_time)
  capture_after p interval_seconds s latest at latest_at

abbrev pub is_empty {ℓ} : {A : Type ℓ} → List A → Bool
is_empty [] = true
is_empty (x ∷ xs) = false

-- `ReplayCaptureRecorder.capture`
unfoldable pub capture : Platform → ℕ → Option Snapshot → Exec Store Capture
capture p interval_seconds none t = (ok (not_captured "snapshot_not_ready"), t)
capture p interval_seconds (some s) t =
    if not (s.mode == "live")
    then (ok (not_captured "not_live"), t)
    else if is_empty s.rows
    then (ok (not_captured "empty_snapshot"), t)
    else capture_ready p interval_seconds (replay_ready s)
        (latest_snapshot_summary p s.session_id t) t

-- `[recorder.capture(snapshot) for snapshot in snapshots]`
unfoldable pub captures : Platform → ℕ → List Snapshot → Exec Store (List Capture)
captures p interval_seconds [] = pure []
captures p interval_seconds (s ∷ snapshots) = do
  c ← capture p interval_seconds (some s)
  cs ← captures p interval_seconds snapshots
  pure (c ∷ cs)

abbrev pub is_captured : Capture → Bool
is_captured (not_captured reason) = false
is_captured _ = true

abbrev pub reason_of : Capture → String
reason_of (not_captured reason) = reason
reason_of _ = "snapshot_not_ready"

pub data Report : Type 0 where
  one : Capture → Report
  many : ℕ → List Capture → Report
  none_captured : String → List Capture → Report
  unavailable : String → Report

unfoldable pub report : List Capture → Report
report [] = one (not_captured "snapshot_not_ready")
report (c ∷ []) = one c
report (c ∷ cs) =
    let captured = keep is_captured (c ∷ cs) in
    if is_empty captured
    then none_captured (reason_of c) (c ∷ cs)
    else many (length captured) (c ∷ cs)

-- The tables, and the module's `_persistence_unavailable_until`.
pub record Recorder : Type 0 where
  pub store : Store
  pub unavailable_until : Option ℕ

abbrev pub cooldown : ℕ
cooldown = 30 * 1000000

abbrev pub is_paused : ℕ → Option ℕ → Bool
is_paused now none = false
is_paused now (some until) = ltb now until

unfoldable pub recorded :
    Platform → ℕ → Recorder → Result (List Capture) × Store → Report × Recorder
unfolding report
recorded p now r (ok cs, t) = (report cs, record r { store = t })
recorded p now r (err e, t) =
    (unavailable (str_of p e), record { store = t; unavailable_until = some (now + cooldown) })

-- `_live_snapshots_from_state`, then the captures.
unfoldable pub capture_built : Platform → ℕ → Result (List Snapshot) → Exec Store (List Capture)
capture_built p interval_seconds built = do
  snapshots ← lift built
  captures p interval_seconds snapshots

-- `capture_live_snapshot_from_state`
unfoldable pub capture_live :
    Platform → ℕ → ℕ → Result (List Snapshot) → Recorder → Report × Recorder
capture_live p interval_seconds now built r =
    if is_paused now r.unavailable_until
    then (one (not_captured "persistence_unavailable_recently"), r)
    else recorded p now r (capture_built p interval_seconds built r.store)

-- `reset_replay_capture_circuit`
abbrev pub reset_circuit : Recorder → Recorder
reset_circuit r = record r { unavailable_until = none }
