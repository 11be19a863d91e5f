-- ===== src/Replay/ImportFlow/Create.antt =====
-- `create_import` of replay/importer.py on an upload whose files can be described.
use mathlib.Core.Path.{subst}
use gamma_scope.Prelude.{
  ℕ, Bool, true, ◌&&◌, String, string_eq, ◌≡◌, refl, sym, ap, ◌⊎◌, inl, inr, false, Option, none,
  some, List, [], ◌∷◌, Bool-cases,
}
use gamma_scope.Prelude.Dict.{get, has}
use gamma_scope.Replay.Effects.{
  Error, Result, ok, err, Platform, str_of, joined, lift, transact, ◌>>=◌,
}
use gamma_scope.Replay.Tables.{
  Status, uploaded, validating, awaiting_confirmation, failed, status_eq, Summary, ImportRecord,
  Tables,
}
use gamma_scope.Replay.Columns.{refused, fits_text}
use gamma_scope.Replay.Queries.{find_duplicate_checksum_import}
use gamma_scope.Replay.Imports
use gamma_scope.Replay.Imports.{
  validation_fits, NewImport, new_import_fits, archive_fits, new_row, ArchiveColumns, archive_row,
  with_row, write_row, transition_row, moved_row, validation_row, save_validation,
  save_archive_metadata, mark_validating, mark_awaiting_confirmation,
}
use gamma_scope.Replay.Importer.{
  ImportResult, SourceFileInfo, ReplayArchive, ReadResult, summary_with_metadata, stable_session_id,
}
use gamma_scope.Replay.ImportFlow.{
  only_completed, duplicate_session, is_empty, report, offer, accepted, validate_read,
  validate_archive, archived, validate_import, Upload, create_import,
}
use gamma_scope.Replay.ImportFlow.Steps.{
  and_false, Settles-fits, Settles, Settles-bind, transition-Settles, if_fits-Settles,
  save_validation-Settles, report-Ends, written_row, reject-Settles,
}
use gamma_scope.Replay.ImportFlow.SessionId.{IsReadable, summary-Returns}

-- The states that end a validation.
abbrev pub IsOffered : Status → Type 0
IsOffered s = (s ≡ awaiting_confirmation) ⊎ (s ≡ failed)

abbrev pub new_import : SourceFileInfo → SourceFileInfo → Upload → NewImport
new_import snapshots_info quotes_info u = record {
  snapshots_filename = snapshots_info.filename;
  quotes_filename = quotes_info.filename;
  snapshots_sha256 = snapshots_info.sha256;
  quotes_sha256 = quotes_info.sha256;
  snapshots_size = snapshots_info.size;
  quotes_size = quotes_info.size;
  snapshots_archive_path = u.pending_snapshots_path;
  quotes_archive_path = u.pending_quotes_path;
}

abbrev pub archive_columns : ReplayArchive → ArchiveColumns
archive_columns a = record {
  snapshots_archive_path = a.snapshots_path;
  quotes_archive_path = a.quotes_path;
  snapshots_sha256 = a.snapshots_sha256;
  quotes_sha256 = a.quotes_sha256;
  snapshots_size = a.snapshots_size;
  quotes_size = a.quotes_size;
}

-- The session id, the summary and the warnings that are offered.
abbrev pub offer_fits : String × Summary × List String → Bool
offer_fits (session_id, summary, warnings) =
    validation_fits summary warnings [] && fits_text session_id

-- What the database can refuse of an upload once its import is stored: the message of a failed
-- archive, the columns of the archive, the errors of the reader, or what is offered for confirmation.
pub data UploadMisfit (p : Platform) (duplicate : Option (String × String))
    (archive : Result ReplayArchive) (read : ReadResult) : Type 0 where
  unarchived :
      (e : Error)
      → archive ≡ err e
      → validation_fits [] [] (str_of p e ∷ []) ≡ false
      → UploadMisfit p duplicate archive read
  archived_columns :
      (a : ReplayArchive)
      → archive ≡ ok a
      → archive_fits (archive_columns a) ≡ false
      → UploadMisfit p duplicate archive read
  rejected :
      (a : ReplayArchive)
      → archive ≡ ok a
      → validation_fits (summary_with_metadata a read) read.warnings read.errors ≡ false
      → UploadMisfit p duplicate archive read
  offered :
      (a : ReplayArchive) (session_id : String) (t : Tables)
      → archive ≡ ok a
      → stable_session_id p (summary_with_metadata a read) t ≡ (ok session_id, t)
      → offer_fits (accepted duplicate session_id (summary_with_metadata a read) read.warnings)
        ≡ false
      → UploadMisfit p duplicate archive read

not_both : (a b : Bool) → a ≡ false → (a && b) ≡ false
not_both true b h = absurd (cc)
not_both false b h = refl

module _ (p : Platform) (now : ℕ) (id : String) where
  offer-Settles :
      (W : Type 0) (x : String × Summary × List String) (t : Tables) (row : ImportRecord)
      → get id t.imports ≡ some row
      → row.status ≡ validating
      → (offer_fits x ≡ false → W)
      → Settles IsOffered W id (offer id now x t)
  unfolding offer mark_awaiting_confirmation
  offer-Settles W (session_id, summary, warnings) t row found state misfit =
      let row1 = record row {
        validation_summary = summary;
        validation_warnings = warnings;
        validation_errors = [];
        updated_at = now;
      } in
      let t1 = write_row id row1 t in
      let row2 = moved_row now awaiting_confirmation (some session_id) row1 in
      let t2 = write_row id row2 t1 in
      save_validation-Settles IsOffered W id now summary warnings [] t row
        (λ _. transact (mark_awaiting_confirmation id now session_id) >>= λ _. report id) found
        (λ h. misfit (not_both _ _ h))
        (transition-Settles IsOffered W id now validating awaiting_confirmation (some session_id) t1
          row1 (λ _. report id) (written_row IsOffered id row1 t) (rw state refl)
          (λ h. misfit (and_false (validation_fits summary warnings []) _ h))
          (inl (report-Ends IsOffered id t2 row2 (written_row IsOffered id row2 t1) (inl refl))))

  module _ (duplicate : Option (String × String)) (read : ReadResult)
      (readable : IsReadable read) where
    validate_read-Settles :
        (W : Type 0) (a : ReplayArchive) (t : Tables) (row : ImportRecord)
        → get id t.imports ≡ some row
        → row.status ≡ validating
        → (UploadMisfit p duplicate (ok a) read → W)
        → Settles IsOffered W id (validate_read p now id duplicate a read t)
    unfolding validate_read
    validate_read-Settles W a t row found state misfit =
        let summary = summary_with_metadata a read in
        elim (Bool-cases (is_empty read.errors)) [
          | inl sound ↦
              let (session_id, made) = summary-Returns p a read t sound readable in
              rw sound (
                Settles-bind IsOffered W id (stable_session_id p summary)
                  (λ s. offer id now (accepted duplicate s summary read.warnings)) t t session_id
                  made
                  (offer-Settles W (accepted duplicate session_id summary read.warnings) t row found
                    state (λ h. misfit (offered a session_id t refl made h))))
          | inr unsound ↦ rw unsound (
              reject-Settles IsOffered W id now summary read.warnings read.errors t row found
                (rw state refl) (inr refl) (λ h. misfit (rejected a refl h)))
        ]

    archived-Settles :
        (archive : Result ReplayArchive) (t : Tables) (row : ImportRecord)
        → get id t.imports ≡ some row
        → row.status ≡ validating
        → Settles IsOffered
            (UploadMisfit p duplicate archive read)
            id
            (archived p now id duplicate (ok read) archive t)
    unfolding archived validate_archive save_archive_metadata
    archived-Settles (err e) t row found state =
        reject-Settles IsOffered (UploadMisfit p duplicate (err e) read) id now [] []
          (str_of p e ∷ []) t row found (rw state refl) (inr refl) (λ h. unarchived e refl h)
    archived-Settles (ok a) t row found state =
        let row1 = record row {
          snapshots_archive_path = a.snapshots_path;
          quotes_archive_path = a.quotes_path;
          snapshots_sha256 = a.snapshots_sha256;
          quotes_sha256 = a.quotes_sha256;
          snapshots_size = a.snapshots_size;
          quotes_size = a.quotes_size;
          updated_at = now;
        } in
        if_fits-Settles IsOffered (UploadMisfit p duplicate (ok a) read) id t row found
          (archive_fits (archive_columns a)) (archive_row now (archive_columns a)) row1
          (λ _. validate_read p now id duplicate a read) refl (λ h. archived_columns a refl h)
          (validate_read-Settles _ a (write_row id row1 t) row1 (written_row IsOffered id row1 t)
            state (λ m. m))

    validate_import-Settles :
        (u : Upload) (t : Tables) (row : ImportRecord)
        → get id t.imports ≡ some row
        → row.status ≡ uploaded
        → u.read ≡ ok read
        → Settles IsOffered
            (UploadMisfit p duplicate u.archive read)
            id
            (validate_import p now id duplicate u t)
    unfolding validate_import mark_validating
    validate_import-Settles u t row found state got =
        let W = UploadMisfit p duplicate u.archive read in
        let row1 = moved_row now validating none row in
        let t1 = write_row id row1 t in
        transition-Settles IsOffered W id now uploaded validating none t row
          (λ _. archived p now id duplicate u.read u.archive) found (rw state refl)
          (λ h. absurd (cc))
          (subst (λ x. Settles IsOffered W id (archived p now id duplicate x u.archive t1))
            (sym got) (archived-Settles u.archive t1 row1 (written_row IsOffered id row1 t) refl))

-- What the database can refuse of an upload.
abbrev pub CreateMisfit :
    Platform → Upload → Tables → SourceFileInfo → SourceFileInfo → ReadResult → Type 0
CreateMisfit p u t snapshots_info quotes_info read =
    (new_import_fits (new_import snapshots_info quotes_info u) ≡ false)
    ⊎ UploadMisfit p
        (duplicate_session (
          only_completed
            (find_duplicate_checksum_import snapshots_info.sha256 quotes_info.sha256 t)))
        u.archive read

weaker :
    {V W : Type 0} (k : String) (x : Result ImportResult × Tables)
    → (V → W)
    → Settles IsOffered V k x
    → Settles IsOffered W k x
weaker k x f (inl e) = inl e
weaker k x f (inr (h, v)) = inr (h, f v)

inserted :
    (uuid : String) (now : ℕ) (n : NewImport) (t : Tables)
    → has (joined ("import-" ∷ uuid ∷ [])) t.imports ≡ false
    → new_import_fits n ≡ true
    → let k = joined ("import-" ∷ uuid ∷ []) in
      transact (Imports.create_import uuid now n) t
      ≡ (ok (new_row k now n), write_row k (new_row k now n) t)
unfolding Imports.create_import
inserted uuid now n t free fits = rw (fits, free) refl

refused_row :
    (uuid : String) (now : ℕ) (n : NewImport) (t : Tables)
    → new_import_fits n ≡ false
    → transact (Imports.create_import uuid now n) t ≡ (err refused, t)
unfolding Imports.create_import
refused_row uuid now n t misfit = rw misfit refl

-- Creating an import, if its files can be described, its id is new, the reader returns and the
-- connection holds, returns a result and leaves the import awaiting confirmation or failed, as the
-- result says, whether the archive fails, the reader finds errors, or the upload is a duplicate;
-- only if the database refuses one of the values that `CreateMisfit` lists (a size of 2 ^ 31 or
-- more, or a text with NUL) does it raise a `DataError`.
pub create_import-Settles :
    (p : Platform) (now : ℕ) (uuid : String) (u : Upload) (t : Tables)
    (snapshots_info quotes_info : SourceFileInfo) (read : ReadResult)
    → u.snapshots_info ≡ ok snapshots_info
    → u.quotes_info ≡ ok quotes_info
    → has (joined ("import-" ∷ uuid ∷ [])) t.imports ≡ false
    → u.read ≡ ok read
    → IsReadable read
    → Settles IsOffered
        (CreateMisfit p u t snapshots_info quotes_info read)
        (joined ("import-" ∷ uuid ∷ []))
        (create_import p now uuid u t)
unfolding create_import
create_import-Settles p now uuid u t snapshots_info quotes_info read hs hq free got readable =
    let k = joined ("import-" ∷ uuid ∷ []) in
    let W = CreateMisfit p u t snapshots_info quotes_info read in
    let n = new_import snapshots_info quotes_info u in
    let row = new_row k now n in
    let found = find_duplicate_checksum_import snapshots_info.sha256 quotes_info.sha256 t in
    let duplicate = duplicate_session (only_completed found) in
    Settles-bind IsOffered W k (lift u.snapshots_info) _ t t snapshots_info (ap (λ r. (r, t)) hs) (
      Settles-bind IsOffered W k (lift u.quotes_info) _ t t quotes_info (ap (λ r. (r, t)) hq) (
        Settles-fits IsOffered W k (new_import_fits n) (transact (Imports.create_import uuid now n))
          (λ row. validate_import p now row.import_id duplicate u) t (write_row k row t) row
          (inserted uuid now n t free) (refused_row uuid now n t) (λ h. inl h)
          (weaker k _ (λ m. inr m)
            (validate_import-Settles p now k duplicate read readable u (write_row k row t) row
              (written_row IsOffered k row t) refl got))))
