-- ===== src/Replay/ImportFlow/Confirm.antt =====
-- `confirm_import` of replay/importer.py on an import that awaits confirmation.
use gamma_scope.Prelude.{ℕ, String, string_eq, ◌≡◌, ◌⊎◌, false, some, [], ◌∷◌, ◌++◌}
use gamma_scope.Prelude.Dict.{get}
use gamma_scope.Replay.Effects.{Error, Result, err, Platform, str_of}
use gamma_scope.Replay.Tables.{Status, completed, failed, status_eq, Summary, ImportRecord, Tables}
use gamma_scope.Replay.Columns.{fits_text}
use gamma_scope.Replay.Queries.{find_duplicate_checksum_import}
use gamma_scope.Replay.Imports.{validation_fits}
use gamma_scope.Replay.Importer.{ImportResult, ReadResult, summary_with_metadata}
use gamma_scope.Replay.ImportFlow.{nonempty_text, other_session, attempt_publish, archive_of}
use gamma_scope.Replay.ImportFlow.Steps.{Settles}

-- The states that end a confirmation.
abbrev pub IsEnd : Status → Type 0
IsEnd s = (s ≡ completed) ⊎ (s ≡ failed)

abbrev pub confirm_summary : ImportRecord → ReadResult → Summary
confirm_summary row read = summary_with_metadata (archive_of row) read

-- What the database can refuse in a confirmation: the summary or the warnings of the upload, the
-- errors of the reader, the message of a failed publication, or the session of a duplicate.
pub data ConfirmMisfit (p : Platform) (now : ℕ) (id : String) (row : ImportRecord)
    (read : ReadResult) (t : Tables) : Type 0 where
  saved :
      validation_fits (confirm_summary row read) row.validation_warnings [] ≡ false
      → ConfirmMisfit p now id row read t
  rejected :
      validation_fits
          (confirm_summary row read)
          (row.validation_warnings ++ read.warnings)
          read.errors
        ≡ false
      → ConfirmMisfit p now id row read t
  unpublished :
      (session_id : String) (e : Error) (t' : Tables)
      → (attempt_publish p now id session_id (confirm_summary row read) read t').0 ≡ err e
      → validation_fits (confirm_summary row read) row.validation_warnings (str_of p e ∷ []) ≡ false
      → ConfirmMisfit p now id row read t
  own_duplicate :
      (session_id : String)
      → nonempty_text (get "duplicate_session_id" row.validation_summary) ≡ some session_id
      → fits_text session_id ≡ false
      → ConfirmMisfit p now id row read t
  other_duplicate :
      (session_id : String)
      → other_session id (find_duplicate_checksum_import row.snapshots_sha256 row.quotes_sha256 t)
        ≡ some session_id
      → fits_text session_id ≡ false
      → ConfirmMisfit p now id row read t

module _ (p : Platform) (now : ℕ) (id : String) where
  module _ (row : ImportRecord) (read : ReadResult) (t0 : Tables) where
    abbrev Ended : Result ImportResult × Tables → Type 0
    Ended x = Settles IsEnd (ConfirmMisfit p now id row read t0) id x
