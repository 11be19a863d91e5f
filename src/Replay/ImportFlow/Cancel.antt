-- ===== src/Replay/ImportFlow/Cancel.antt =====
-- `cancel_import` of replay/importer.py, and both calls on an import that is settled.
use mathlib.Core.Path.{subst}
use gamma_scope.Prelude.{
  ℕ, String, string_eq, ◌≡◌, refl, sym, ap, ◌∙◌, Bool, true, false, ◌||◌, some, ◌==◌, inl, inr,
  Bool-cases,
}
use gamma_scope.Prelude.Dict.{get}
use gamma_scope.Replay.Effects.{Result, ok, Platform, Exec, transact, continue, ◌>>=◌}
use gamma_scope.Replay.Tables.{
  Status, uploaded, validating, publishing, awaiting_confirmation, completed, failed, cancelled,
  status_eq, ImportRecord, Tables,
}
use gamma_scope.Replay.Imports.{get_import, mark_cancelled, cancel_row, write_row, is_cancellable}
use gamma_scope.Replay.Importer.{ImportResult, ReadResult, invalid_transition_result}
use gamma_scope.Replay.ImportFlow.{
  report, can_cancel, confirm_found, confirm_import, cancel_found, cancel_import,
}
use gamma_scope.Replay.ImportFlow.Steps.{
  Ends, Ends-bind, transact-get_import, transact-with_row, report-Ends, written_row,
}

abbrev IsCancelled : Status → Type 0
IsCancelled s = s ≡ cancelled

cancel_open-Ends :
    (now : ℕ) (id : String) (t : Tables) (row : ImportRecord)
    → get id t.imports ≡ some row
    → can_cancel row.status ≡ true
    → is_cancellable row.status ≡ true
    → Ends (λ s. s ≡ cancelled) id (cancel_import now id t)
unfolding cancel_import cancel_found mark_cancelled
cancel_open-Ends now id t row found may can =
    let row' = record row { status = cancelled; updated_at = now } in
    let t' = write_row id row' t in
    Ends-bind (λ s. s ≡ cancelled) id (transact (get_import id)) (cancel_found now id) t t row
      (transact-get_import IsCancelled id t row found)
      (rw may (
        Ends-bind IsCancelled id (transact (mark_cancelled id now)) (λ _. report id) t t' tt
          (transact-with_row IsCancelled id t row found (cancel_row now) row' (rw can refl))
          (report-Ends IsCancelled id t' row' (written_row IsCancelled id row' t) refl)))

cancel_closed :
    (now : ℕ) (id : String) (t : Tables) (row : ImportRecord)
    → get id t.imports ≡ some row
    → can_cancel row.status ≡ false
    → cancel_import now id t ≡ (ok (invalid_transition_result "cancel" row), t)
unfolding cancel_import cancel_found
cancel_closed now id t row found may =
    ap (λ x. continue x.0 (cancel_found now id) x.1)
      (transact-get_import IsCancelled id t row found)
    ∙ rw may refl

-- How a cancellation ends, by the state of the import.
abbrev pub CancelEnds :
    Status → String → ImportRecord → Tables → Result ImportResult × Tables → Type 0
CancelEnds uploaded id row t x = Ends (λ s. s ≡ cancelled) id x
CancelEnds validating id row t x = Ends (λ s. s ≡ cancelled) id x
CancelEnds awaiting_confirmation id row t x = Ends (λ s. s ≡ cancelled) id x
CancelEnds publishing id row t x = x ≡ (ok (invalid_transition_result "cancel" row), t)
CancelEnds completed id row t x = x ≡ (ok (invalid_transition_result "cancel" row), t)
CancelEnds failed id row t x = x ≡ (ok (invalid_transition_result "cancel" row), t)
CancelEnds cancelled id row t x = x ≡ (ok (invalid_transition_result "cancel" row), t)

cancel_by_state :
    (now : ℕ) (id : String) (t : Tables) (row : ImportRecord) (s : Status)
    → get id t.imports ≡ some row
    → row.status ≡ s
    → CancelEnds s id row t (cancel_import now id t)
cancel_by_state now id t row uploaded found e =
    cancel_open-Ends now id t row found (rw e refl) (rw e refl)
cancel_by_state now id t row validating found e =
    cancel_open-Ends now id t row found (rw e refl) (rw e refl)
cancel_by_state now id t row awaiting_confirmation found e =
    cancel_open-Ends now id t row found (rw e refl) (rw e refl)
cancel_by_state now id t row publishing found e = cancel_closed now id t row found (rw e refl)
cancel_by_state now id t row completed found e = cancel_closed now id t row found (rw e refl)
cancel_by_state now id t row failed found e = cancel_closed now id t row found (rw e refl)
cancel_by_state now id t row cancelled found e = cancel_closed now id t row found (rw e refl)

-- Cancelling an import always returns a result. One that is uploaded, validating or awaiting
-- confirmation is then stored as cancelled, as the result says; for one that is publishing,
-- completed, failed or cancelled the result says that it cannot be cancelled from its state, and
-- the tables stay as they are.
pub cancel_import-CancelEnds :
    (now : ℕ) (id : String) (t : Tables) (row : ImportRecord)
    → get id t.imports ≡ some row
    → CancelEnds row.status id row t (cancel_import now id t)
cancel_import-CancelEnds now id t row found = cancel_by_state now id t row row.status found refl

unchanged-bind :
    (id : String) (f : ImportRecord → Exec Tables ImportResult) (t : Tables) (row : ImportRecord)
    → get id t.imports ≡ some row
    → (f row t).1 ≡ t
    → ((transact (get_import id) >>= f) t).1 ≡ t
unchanged-bind id f t row found h =
    subst (λ x. (continue x.0 f x.1).1 ≡ t) (sym (transact-get_import IsCancelled id t row found)) h

-- `completed`, `failed` and `cancelled`
abbrev pub is_settled : Status → Bool
is_settled s = s == completed || s == failed || s == cancelled

confirm_found-same :
    (p : Platform) (now : ℕ) (id : String) (read : Result ReadResult) (t : Tables)
    (row : ImportRecord)
    → (row.status == awaiting_confirmation) ≡ false
    → (confirm_found p now id read row t).1 ≡ t
unfolding confirm_found
confirm_found-same p now id read t row h = elim (Bool-cases (row.status == completed)) [
  | inl done ↦ rw done refl
  | inr not_done ↦ rw (not_done, h) refl
]

cancel_found-same :
    (now : ℕ) (id : String) (t : Tables) (row : ImportRecord)
    → can_cancel row.status ≡ false
    → (cancel_found now id row t).1 ≡ t
unfolding cancel_found
cancel_found-same now id t row h = rw h refl

settled_closed :
    (s : Status)
    → is_settled s ≡ true
    → ((s == awaiting_confirmation) ≡ false) × (can_cancel s ≡ false)
settled_closed completed h = (refl, refl)
settled_closed failed h = (refl, refl)
settled_closed cancelled h = (refl, refl)
settled_closed _ h = absurd (cc)

-- Confirming or cancelling an import that is completed, failed or cancelled changes nothing in the
-- tables, so both calls can be repeated.
pub settled_import-unchanged :
    (p : Platform) (now : ℕ) (id : String) (read : Result ReadResult) (t : Tables)
    (row : ImportRecord)
    → get id t.imports ≡ some row
    → is_settled row.status ≡ true
    → ((confirm_import p now id read t).1 ≡ t) × ((cancel_import now id t).1 ≡ t)
unfolding confirm_import cancel_import
settled_import-unchanged p now id read t row found settled =
    let closed = settled_closed row.status settled in
    (
      unchanged-bind id (confirm_found p now id read) t row found
          (confirm_found-same p now id read t row closed.0),
      unchanged-bind id (cancel_found now id) t row found (cancel_found-same now id t row closed.1),
    )
