-- ===== src/Capture/Recorder/Spacing.antt =====
-- replay/capture.py: the pause after a failure.
use gamma_scope.Prelude.{
  ℕ, ◌+◌, ◌<◌, String, string_eq, ◌≡◌, refl, sym, ◌∙◌, ap, Bool, true, false, some, List, [], ◌∷◌,
  ltb, keep, lt→ltb, inl, inr, Bool-cases,
}
use gamma_scope.Replay.Effects.{Result, ok, err, Platform}
use gamma_scope.Capture.Store.{Snapshot, Store}
use gamma_scope.Capture.Recorder.{
  Capture, not_captured, is_empty, is_captured, report, Report, one, unavailable, Recorder,
  cooldown, is_paused, recorded, capture_built, capture_live,
}

abbrev is_unavailable : Report → Bool
is_unavailable (unavailable message) = true
is_unavailable _ = false

report_available : (cs : List Capture) → is_unavailable (report cs) ≡ false
unfolding report
report_available [] = refl
report_available (c ∷ []) = refl
report_available (c ∷ d ∷ cs) = elim (Bool-cases (is_empty (keep is_captured (c ∷ d ∷ cs)))) [
  | inl e ↦ rw e refl
  | inr e ↦ rw e refl
]

-- A failed call starts a pause.
recorded_failure :
    (p : Platform) (now : ℕ) (r : Recorder) (x : Result (List Capture) × Store) (message : String)
    → (recorded p now r x).0 ≡ unavailable message
    → (recorded p now r x).1.unavailable_until ≡ some (now + cooldown)
unfolding recorded
recorded_failure p now r (ok cs, t) message h =
    absurd (cc (sym (report_available cs) ∙ ap is_unavailable h))
recorded_failure p now r (err e, t) message h = refl

live_failure :
    (p : Platform) (interval_seconds now : ℕ) (built : Result (List Snapshot)) (r : Recorder)
    (message : String)
    → (capture_live p interval_seconds now built r).0 ≡ unavailable message
    → (capture_live p interval_seconds now built r).1.unavailable_until ≡ some (now + cooldown)
unfolding capture_live
live_failure p interval_seconds now built r message h =
    elim (Bool-cases (is_paused now r.unavailable_until)) [
      | inl paused ↦ absurd (cc (rw paused at h))
      | inr running ↦ rw running (
          recorded_failure p now r (capture_built p interval_seconds built r.store) message
            (rw running at h))
    ]

paused_call :
    (p : Platform) (interval_seconds later until : ℕ) (built : Result (List Snapshot))
    (r : Recorder)
    → r.unavailable_until ≡ some until
    → ltb later until ≡ true
    → capture_live p interval_seconds later built r
      ≡ (one (not_captured "persistence_unavailable_recently"), r)
unfolding capture_live
paused_call p interval_seconds later until built r h early =
    let paused : is_paused later r.unavailable_until ≡ true = ap (is_paused later) h ∙ early in
    rw paused refl

-- After a call that fails, every call within the next 30 seconds returns at once: it says that
-- persistence was unavailable, and changes neither the tables nor the end of the pause.
pub capture_live_pause :
    (p : Platform) (interval_seconds now later : ℕ) (built built_later : Result (List Snapshot))
    (r : Recorder) (message : String)
    → (capture_live p interval_seconds now built r).0 ≡ unavailable message
    → later < now + 30000000
    → capture_live p interval_seconds later built_later
        (capture_live p interval_seconds now built r).1
      ≡ (
        one (not_captured "persistence_unavailable_recently"),
        (capture_live p interval_seconds now built r).1,
      )
capture_live_pause p interval_seconds now later built built_later r message failed early =
    let r' = (capture_live p interval_seconds now built r).1 in
    let until = live_failure p interval_seconds now built r message failed in
    paused_call p interval_seconds later (now + cooldown) built_later r' until
      (lt→ltb later (now + cooldown) early)
