-- ===== src/Replay/ImportFlow.antt =====
-- replay/importer.py: `create_import`, `confirm_import` and `cancel_import`, as the sequences of
-- transactions that they are. `now` stands for the time of each of a call's transactions.
pub mod Steps
pub mod Attempt
pub mod Confirm
pub mod Cancel
pub mod SessionId
pub mod Create
use gamma_scope.Prelude.{
  ℕ, String, string_eq, Bool, true, false, not, ◌&&◌, ◌||◌, Option, none, some, List, [], ◌∷◌, ◌++◌,
  ◌==◌, if◌then◌else◌,
}
use gamma_scope.Prelude.Dict.{get, put}
use gamma_scope.Replay.Effects.{
  Error, Result, ok, err, Platform, str_of, joined, Tx, Exec, pure, lift, transact, ◌>>=◌, ◌>>◌,
}
use gamma_scope.Replay.Tables.{
  Status, uploaded, validating, awaiting_confirmation, completed, status_eq, Json, Summary,
  ImportRecord, Tables,
}
use gamma_scope.Replay.Imports
use gamma_scope.Replay.Imports.{
  get_import, save_archive_metadata, save_validation, mark_validating, mark_awaiting_confirmation,
  mark_publishing, mark_completed, mark_failed, mark_cancelled,
}
use gamma_scope.Replay.Publish.{publish_import}
use gamma_scope.Replay.Queries.{find_duplicate_checksum_import}
use gamma_scope.Replay.Importer.{
  ImportResult, SourceFileInfo, ReplayArchive, ReadResult, result_from_record, completed_result,
  invalid_transition_result, summary_with_metadata, text_at, stable_session_id,
}

-- `try: m except Exception as exc: handler(exc) else: rest`
abbrev pub caught {ℓ κ} :
    {A : Type ℓ} {B : Type κ}
    → Result A × Tables
    → (Error → Exec Tables B)
    → Exec Tables B
    → Result B × Tables
caught (ok a, t) handler rest = rest t
caught (err e, t) handler rest = handler e t

-- A query changes nothing.
abbrev pub reading {ℓ} : {A : Type ℓ} → (Tables → A) → Exec Tables A
reading f t = (ok (f t), t)

-- `return self._result_from_record(self.repository.get_import(import_id))`
unfoldable pub report : String → Exec Tables ImportResult
report id = do row ← transact (get_import id); pure (result_from_record row)

unfoldable pub report_completed : String → Exec Tables ImportResult
report_completed id = do row ← transact (get_import id); pure (completed_result row)

-- `save_validation`, `mark_failed`, and the result.
unfoldable pub reject : String → ℕ → Summary → List String → List String → Exec Tables ImportResult
reject id now summary warnings errors = do
  transact (save_validation id now summary warnings errors)
  transact (mark_failed id now errors)
  report id

-- `mark_publishing` and `mark_completed` under the session of a duplicate.
unfoldable pub complete_as : String → ℕ → String → Exec Tables ImportResult
complete_as id now session_id = do
  transact (mark_publishing id now)
  transact (mark_completed id now session_id)
  report_completed id

-- `isinstance(duplicate, str) and duplicate`
abbrev pub nonempty_text : Option Json → Option String
nonempty_text (some (Json.text s)) = if s == "" then none else some s
nonempty_text _ = none

-- The session of another completed import with the same checksums.
unfoldable pub other_session : String → Option ImportRecord → Option String
other_session id none = none
other_session id (some row) =
    if not (row.import_id == id) && row.status == completed then row.session_id else none

abbrev pub archive_of : ImportRecord → ReplayArchive
archive_of row = record {
  snapshots_path = row.snapshots_archive_path;
  quotes_path = row.quotes_archive_path;
  snapshots_size = row.snapshots_size;
  quotes_size = row.quotes_size;
  snapshots_sha256 = row.snapshots_sha256;
  quotes_sha256 = row.quotes_sha256;
}

-- The `try` block round `publish_import`.
unfoldable pub attempt_publish :
    Platform → ℕ → String → String → Summary → ReadResult → Exec Tables (Unit {0})
attempt_publish p now id session_id summary read = do
  symbol ← lift (text_at "symbol" summary)
  expiry ← lift (text_at "expiry" summary)
  start_time ← lift (text_at "start_time" summary)
  end_time ← lift (text_at "end_time" summary)
  transact (
      publish_import p now (record {
        import_id = id;
        session_id = session_id;
        symbol = symbol;
        expiry = expiry;
        start_time = start_time;
        end_time = end_time;
        snapshots = read.snapshots;
        quotes = read.quotes;
      }))

-- From `save_validation(..., errors=[])` on. The expiry is looked up before the `try`.
unfoldable pub publish_read :
    Platform → ℕ → String → String → ImportRecord → Summary → ReadResult → Exec Tables ImportResult
publish_read p now id session_id row summary read = do
  transact (save_validation id now summary row.validation_warnings [])
  lift (text_at "expiry" summary)
  λ t.
      caught (attempt_publish p now id session_id summary read t)
        (λ e. reject id now summary row.validation_warnings (str_of p e ∷ [])) (report_completed id)

abbrev pub is_empty {ℓ} : {A : Type ℓ} → List A → Bool
is_empty [] = true
is_empty (x ∷ xs) = false

-- From the reader's result on: its errors fail the import.
unfoldable pub publish_checked :
    Platform → ℕ → String → String → ImportRecord → ReadResult → Exec Tables ImportResult
publish_checked p now id session_id row read =
    let summary = summary_with_metadata (archive_of row) read in
    if is_empty read.errors
    then publish_read p now id session_id row summary read
    else reject id now summary (row.validation_warnings ++ read.warnings) read.errors

-- From `mark_publishing` of an import that is no duplicate on. The reader runs after it.
unfoldable pub publish_fresh :
    Platform → ℕ → String → String → ImportRecord → Result ReadResult → Exec Tables ImportResult
publish_fresh p now id session_id row got = do
  transact (mark_publishing id now)
  read ← lift got
  publish_checked p now id session_id row read

-- The duplicate of the upload first, then one that was completed since, then a publication.
unfoldable pub confirm_checked :
    Platform
    → ℕ
    → String
    → String
    → ImportRecord
    → Result ReadResult
    → Option String
    → Exec Tables ImportResult
confirm_checked p now id session_id row read (some duplicate) = complete_as id now duplicate
confirm_checked p now id session_id row read none = publish_fresh p now id session_id row read

unfoldable pub confirm_duplicate :
    Platform
    → ℕ
    → String
    → String
    → ImportRecord
    → Result ReadResult
    → Option String
    → Exec Tables ImportResult
confirm_duplicate p now id session_id row read (some duplicate) = complete_as id now duplicate
confirm_duplicate p now id session_id row read none = do
  found ← reading (find_duplicate_checksum_import row.snapshots_sha256 row.quotes_sha256)
  confirm_checked p now id session_id row read (other_session id found)

unfoldable pub confirm_named :
    Platform → ℕ → String → String → ImportRecord → Result ReadResult → Exec Tables ImportResult
confirm_named p now id session_id row read =
    confirm_duplicate p now id session_id row read
      (nonempty_text (get "duplicate_session_id" row.validation_summary))

unfoldable pub confirm_awaiting :
    Platform
    → ℕ
    → String
    → Option String
    → ImportRecord
    → Result ReadResult
    → Exec Tables ImportResult
confirm_awaiting p now id none row read = do
  transact (mark_failed id now ("Cannot confirm import without a replay session id" ∷ []))
  report id
confirm_awaiting p now id (some session_id) row read = confirm_named p now id session_id row read

-- By the state that the import is found in.
unfoldable pub confirm_found :
    Platform → ℕ → String → Result ReadResult → ImportRecord → Exec Tables ImportResult
confirm_found p now id read row =
    if row.status == completed
    then pure (completed_result row)
    else if not (row.status == awaiting_confirmation)
    then pure (invalid_transition_result "confirm" row)
    else confirm_awaiting p now id row.session_id row read

unfoldable pub confirm_import : Platform → ℕ → String → Result ReadResult → Exec Tables ImportResult
confirm_import p now id read = do row ← transact (get_import id); confirm_found p now id read row

-- `status not in {"uploaded", "validating", "awaiting_confirmation"}`, which the importer checks
-- before `mark_cancelled` does.
abbrev pub can_cancel : Status → Bool
can_cancel s = s == uploaded || s == validating || s == awaiting_confirmation

unfoldable pub cancel_found : ℕ → String → ImportRecord → Exec Tables ImportResult
cancel_found now id row =
    if can_cancel row.status
    then (do transact (mark_cancelled id now); report id)
    else pure (invalid_transition_result "cancel" row)

unfoldable pub cancel_import : ℕ → String → Exec Tables ImportResult
cancel_import now id = do row ← transact (get_import id); cancel_found now id row

-- `if completed_duplicate.status != "completed": completed_duplicate = None`
unfoldable pub only_completed : Option ImportRecord → Option ImportRecord
only_completed none = none
only_completed (some row) = if row.status == completed then some row else none

-- A completed duplicate and its session, if it has one.
unfoldable pub duplicate_session : Option ImportRecord → Option (String × String)
duplicate_session none = none
duplicate_session (some row) = elim row.session_id [
  | none ↦ none
  | some session_id ↦ some (session_id, row.import_id)
]

-- The session id, the summary and the warnings that are saved for confirmation.
unfoldable pub accepted :
    Option (String × String) → String → Summary → List String → String × Summary × List String
accepted none session_id summary warnings = (session_id, summary, warnings)
accepted (some (duplicate_session_id, duplicate_import_id)) session_id summary warnings = (
  duplicate_session_id,
  put "duplicate_import_id" (Json.text duplicate_import_id)
      (put "duplicate_session_id" (Json.text duplicate_session_id) summary),
  warnings
      ++ joined ("duplicate checksum matches completed import " ∷ duplicate_import_id ∷ []) ∷ [],
)

-- `save_validation` without errors and `mark_awaiting_confirmation`.
unfoldable pub offer : String → ℕ → String × Summary × List String → Exec Tables ImportResult
offer id now (session_id, summary, warnings) = do
  transact (save_validation id now summary warnings [])
  transact (mark_awaiting_confirmation id now session_id)
  report id

-- From `save_archive_metadata` on.
-- From the reader's result on: its errors fail the import.
unfoldable pub validate_read :
    Platform
    → ℕ
    → String
    → Option (String × String)
    → ReplayArchive
    → ReadResult
    → Exec Tables ImportResult
validate_read p now id duplicate a read =
    let summary = summary_with_metadata a read in
    if is_empty read.errors
    then (do
      session_id ← stable_session_id p summary
      offer id now (accepted duplicate session_id summary read.warnings))
    else reject id now summary read.warnings read.errors

-- From `save_archive_metadata` on.
unfoldable pub validate_archive :
    Platform
    → ℕ
    → String
    → Option (String × String)
    → ReplayArchive
    → Result ReadResult
    → Exec Tables ImportResult
validate_archive p now id duplicate a got = do
  transact (
      save_archive_metadata id now (record {
        snapshots_archive_path = a.snapshots_path;
        quotes_archive_path = a.quotes_path;
        snapshots_sha256 = a.snapshots_sha256;
        quotes_sha256 = a.quotes_sha256;
        snapshots_size = a.snapshots_size;
        quotes_size = a.quotes_size;
      }))
  read ← lift got
  validate_read p now id duplicate a read

-- What happens outside the database in `create_import`.
pub record Upload : Type 0 where
  pub snapshots_info : Result SourceFileInfo
  pub quotes_info : Result SourceFileInfo
  pub pending_snapshots_path : String
  pub pending_quotes_path : String
  pub archive : Result ReplayArchive
  pub read : Result ReadResult

-- The `try` block round `archive_replay_files`.
unfoldable pub archived :
    Platform
    → ℕ
    → String
    → Option (String × String)
    → Result ReadResult
    → Result ReplayArchive
    → Exec Tables ImportResult
archived p now id duplicate got (err e) = reject id now [] [] (str_of p e ∷ [])
archived p now id duplicate got (ok a) = validate_archive p now id duplicate a got

-- From `mark_validating` on.
unfoldable pub validate_import :
    Platform → ℕ → String → Option (String × String) → Upload → Exec Tables ImportResult
validate_import p now id duplicate u = do
  transact (mark_validating id now)
  archived p now id duplicate u.read u.archive

unfoldable pub create_import : Platform → ℕ → String → Upload → Exec Tables ImportResult
create_import p now uuid u = do
  snapshots_info ← lift u.snapshots_info
  quotes_info ← lift u.quotes_info
  found ← reading (find_duplicate_checksum_import snapshots_info.sha256 quotes_info.sha256)
  row ← transact (
      Imports.create_import uuid now (record {
        snapshots_filename = snapshots_info.filename;
        quotes_filename = quotes_info.filename;
        snapshots_sha256 = snapshots_info.sha256;
        quotes_sha256 = quotes_info.sha256;
        snapshots_size = snapshots_info.size;
        quotes_size = quotes_info.size;
        snapshots_archive_path = u.pending_snapshots_path;
        quotes_archive_path = u.pending_quotes_path;
      }))
  validate_import p now row.import_id (duplicate_session (only_completed found)) u
