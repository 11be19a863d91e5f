-- ===== src/Replay/Imports.antt =====
-- replay/import_repository.py: the rows of `replay_imports` and the moves between their states.
-- `now` is the database's NOW() and `uuid` what `uuid4()` returns.
use gamma_scope.Prelude.{
  ℕ, String, Bool, not, ◌||◌, ◌&&◌, Option, none, some, List, [], ◌∷◌, ◌==◌, string_eq,
  if◌then◌else◌,
}
use gamma_scope.Prelude.Dict.{get, put, has}
use gamma_scope.Replay.Effects.{
  Result, ok, err, key_error, value_error, unique_violation, Tx, joined,
}
use gamma_scope.Replay.Columns.{
  refused, fits_integer, fits_optional_text, fits_texts, fits_summary, fitting, if_fits,
}
use gamma_scope.Replay.Tables.{
  Status, uploaded, validating, awaiting_confirmation, publishing, completed, failed, cancelled,
  status_text, status_eq, ImportRecord, Tables, Summary,
}

-- The columns that `create_import` is given.
pub record NewImport : Type 0 where
  pub snapshots_filename : String
  pub quotes_filename : String
  pub snapshots_sha256 : String
  pub quotes_sha256 : String
  pub snapshots_size : ℕ
  pub quotes_size : ℕ
  pub snapshots_archive_path : String
  pub quotes_archive_path : String

-- `INSERT INTO replay_imports ... RETURNING *`: the other columns take their defaults.
abbrev pub new_row : String → ℕ → NewImport → ImportRecord
new_row import_id now n = record {
  import_id = import_id;
  status = uploaded;
  snapshots_filename = n.snapshots_filename;
  quotes_filename = n.quotes_filename;
  snapshots_sha256 = n.snapshots_sha256;
  quotes_sha256 = n.quotes_sha256;
  snapshots_size = n.snapshots_size;
  quotes_size = n.quotes_size;
  snapshots_archive_path = n.snapshots_archive_path;
  quotes_archive_path = n.quotes_archive_path;
  session_id = none;
  validation_summary = [];
  validation_warnings = [];
  validation_errors = [];
  created_at = now;
  updated_at = now;
}

abbrev pub new_import_fits : NewImport → Bool
new_import_fits n =
    fits_texts (
      n.snapshots_filename ∷ n.quotes_filename ∷ n.snapshots_sha256 ∷ n.quotes_sha256
      ∷ n.snapshots_archive_path ∷ n.quotes_archive_path ∷ [])
    && fits_integer n.snapshots_size
    && fits_integer n.quotes_size

-- The insertion fails if a value is refused or the key is taken.
unfoldable pub create_import : String → ℕ → NewImport → Tx Tables ImportRecord
create_import uuid now n t =
    let import_id = joined ("import-" ∷ uuid ∷ []) in
    let row = new_row import_id now n in
    if not (new_import_fits n)
    then err refused
    else if has import_id t.imports
    then err (unique_violation import_id)
    else ok (row, record t { imports = put import_id row t.imports })

abbrev pub not_found : String → String
not_found import_id = joined ("Replay import not found: " ∷ import_id ∷ [])

-- `_locked_import`: the row, or a `KeyError`.
unfoldable pub locked_import : String → Tables → Result ImportRecord
locked_import import_id t = elim (get import_id t.imports) [
  | none ↦ err (key_error (not_found import_id))
  | some row ↦ ok row
]

unfoldable pub get_import : String → Tx Tables ImportRecord
unfolding locked_import
get_import import_id t = elim (get import_id t.imports) [
  | none ↦ err (key_error (not_found import_id))
  | some row ↦ ok (row, t)
]

-- `UPDATE replay_imports SET ... WHERE import_id = ...` on the row that was read.
abbrev pub write_row : String → ImportRecord → Tables → Tables
write_row import_id row t = record t { imports = put import_id row t.imports }

abbrev pub store_row : String → Result ImportRecord → Tx Tables (Unit {0})
store_row import_id (ok row) t = ok (tt, write_row import_id row t)
store_row import_id (err e) t = err e

abbrev pub on_row :
    String → (ImportRecord → Result ImportRecord) → Option ImportRecord → Tx Tables (Unit {0})
on_row import_id f none t = err (key_error (not_found import_id))
on_row import_id f (some row) t = store_row import_id (f row) t

-- A method that reads the row, checks it, and writes it back.
abbrev pub with_row : String → (ImportRecord → Result ImportRecord) → Tx Tables (Unit {0})
with_row import_id f t = on_row import_id f (get import_id t.imports) t

pub record ArchiveColumns : Type 0 where
  pub snapshots_archive_path : String
  pub quotes_archive_path : String
  pub snapshots_sha256 : String
  pub quotes_sha256 : String
  pub snapshots_size : ℕ
  pub quotes_size : ℕ

abbrev pub archive_row : ℕ → ArchiveColumns → ImportRecord → Result ImportRecord
archive_row now a row = ok (record row {
  snapshots_archive_path = a.snapshots_archive_path;
  quotes_archive_path = a.quotes_archive_path;
  snapshots_sha256 = a.snapshots_sha256;
  quotes_sha256 = a.quotes_sha256;
  snapshots_size = a.snapshots_size;
  quotes_size = a.quotes_size;
  updated_at = now;
})

abbrev pub archive_fits : ArchiveColumns → Bool
archive_fits a =
    fits_texts
      (a.snapshots_archive_path ∷ a.quotes_archive_path ∷ a.snapshots_sha256 ∷ a.quotes_sha256 ∷ [])
    && fits_integer a.snapshots_size
    && fits_integer a.quotes_size

unfoldable pub save_archive_metadata : String → ℕ → ArchiveColumns → Tx Tables (Unit {0})
save_archive_metadata import_id now a =
    if_fits (archive_fits a) (with_row import_id (archive_row now a))

abbrev pub validation_row :
    ℕ → Summary → List String → List String → ImportRecord → Result ImportRecord
validation_row now summary warnings errors row = ok (record row {
  validation_summary = summary;
  validation_warnings = warnings;
  validation_errors = errors;
  updated_at = now;
})

abbrev pub validation_fits : Summary → List String → List String → Bool
validation_fits summary warnings errors =
    fits_summary summary && fits_texts warnings && fits_texts errors

unfoldable pub save_validation :
    String → ℕ → Summary → List String → List String → Tx Tables (Unit {0})
save_validation import_id now summary warnings errors =
    if_fits (validation_fits summary warnings errors)
      (with_row import_id (validation_row now summary warnings errors))

-- `COALESCE(new, old)`
abbrev pub coalesce : Option String → Option String → Option String
coalesce none old = old
coalesce (some s) old = some s

abbrev pub transition_error : Status → Status → Status → String
transition_error found expected next = joined (
    "Invalid import status transition: "
    ∷ status_text found
    ∷ " -> "
    ∷ status_text next
    ∷ "; expected "
    ∷ status_text expected
    ∷ " -> "
    ∷ status_text next
    ∷ [])

abbrev pub moved_row : ℕ → Status → Option String → ImportRecord → ImportRecord
moved_row now next session_id row = record row {
  status = next;
  session_id = coalesce session_id row.session_id;
  updated_at = now;
}

abbrev pub transition_row : ℕ → Status → Status → Option String → ImportRecord → Result ImportRecord
transition_row now expected next session_id row =
    if row.status == expected
    then fitting (fits_optional_text session_id) (moved_row now next session_id row)
    else err (value_error (transition_error row.status expected next))

-- `_transition`
unfoldable pub transition : String → ℕ → Status → Status → Option String → Tx Tables (Unit {0})
transition import_id now expected next session_id =
    with_row import_id (transition_row now expected next session_id)

unfoldable pub mark_validating : String → ℕ → Tx Tables (Unit {0})
unfolding transition
mark_validating import_id now = transition import_id now uploaded validating none

unfoldable pub mark_awaiting_confirmation : String → ℕ → String → Tx Tables (Unit {0})
unfolding transition
mark_awaiting_confirmation import_id now session_id =
    transition import_id now validating awaiting_confirmation (some session_id)

unfoldable pub mark_publishing : String → ℕ → Tx Tables (Unit {0})
unfolding transition
mark_publishing import_id now = transition import_id now awaiting_confirmation publishing none

unfoldable pub mark_completed : String → ℕ → String → Tx Tables (Unit {0})
unfolding transition
mark_completed import_id now session_id =
    transition import_id now publishing completed (some session_id)

abbrev pub fail_row : ℕ → List String → ImportRecord → Result ImportRecord
fail_row now errors row =
    if row.status == completed || row.status == cancelled
    then err
        (value_error (joined ("Cannot fail import from status " ∷ status_text row.status ∷ [])))
    else fitting (fits_texts errors)
        (record row { status = failed; validation_errors = errors; updated_at = now })

unfoldable pub mark_failed : String → ℕ → List String → Tx Tables (Unit {0})
mark_failed import_id now errors = with_row import_id (fail_row now errors)

-- `status in {"uploaded", "validating", "awaiting_confirmation"}`
abbrev pub is_cancellable : Status → Bool
is_cancellable s = s == uploaded || s == validating || s == awaiting_confirmation

abbrev pub cancel_row : ℕ → ImportRecord → Result ImportRecord
cancel_row now row =
    if not (is_cancellable row.status)
    then err
        (value_error (joined ("Cannot cancel import from status " ∷ status_text row.status ∷ [])))
    else ok (record row { status = cancelled; updated_at = now })

unfoldable pub mark_cancelled : String → ℕ → Tx Tables (Unit {0})
mark_cancelled import_id now = with_row import_id (cancel_row now)
