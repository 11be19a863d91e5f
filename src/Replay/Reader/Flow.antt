-- ===== src/Replay/Reader/Flow.antt =====
-- replay/importer.py over the files that replay/parquet_reader.py reads.
use gamma_scope.Prelude.{ℕ, String, string_eq, ◌≡◌, ◌∙◌, false, [], ◌∷◌}
use gamma_scope.Prelude.Dict.{has}
use gamma_scope.Replay.Effects.{Error, ok, Platform, joined}
use gamma_scope.Replay.Tables.{Tables}
use gamma_scope.Replay.Importer.{SourceFileInfo, ReadResult}
use gamma_scope.Replay.ImportFlow.{Upload, create_import}
use gamma_scope.Replay.ImportFlow.Steps.{Settles}
use gamma_scope.Replay.ImportFlow.Create.{IsOffered, CreateMisfit, create_import-Settles}
use gamma_scope.Replay.Reader.Values.{Library}
use gamma_scope.Replay.Reader.Read.{ParquetPair}
use gamma_scope.Replay.Reader.Pair.{read_pair}
use gamma_scope.Replay.Reader.NormalizedQuote.{KeepsEmpty}
use gamma_scope.Replay.Reader.Contract.{TableInRange, read_pair-IsRead}

module _ (lib : Library) (text : Error → String) (pair : ParquetPair) where
  -- Uploading two files that can be described, under a new id, returns and leaves the import
  -- awaiting confirmation or failed, as the result says, whatever the two files hold; only if the
  -- database refuses one of the values that `CreateMisfit` lists for what is read does it raise a
  -- `DataError`. UTC must leave every `market_time` of the snapshots in the range of datetimes, and
  -- the connection must hold.
  pub create_import_of_files-Settles :
      (p : Platform) (now : ℕ) (uuid : String) (u : Upload) (t : Tables)
      (snapshots_info quotes_info : SourceFileInfo)
      → KeepsEmpty lib
      → TableInRange lib pair.snapshots_table
      → u.snapshots_info ≡ ok snapshots_info
      → u.quotes_info ≡ ok quotes_info
      → has (joined ("import-" ∷ uuid ∷ [])) t.imports ≡ false
      → u.read ≡ read_pair lib text "preview" pair
      → (read : ReadResult) × (read_pair lib text "preview" pair ≡ ok read)
        × Settles IsOffered
            (CreateMisfit p u t snapshots_info quotes_info read)
            (joined ("import-" ∷ uuid ∷ []))
            (create_import p now uuid u t)
  create_import_of_files-Settles p now uuid u t snapshots_info quotes_info plain range hs hq free
        got =
      let (read, is, (readable, _)) = read_pair-IsRead lib text "preview" plain pair range in
      (
        read,
        is,
        create_import-Settles p now uuid u t snapshots_info quotes_info read hs hq free (got ∙ is)
            readable,
      )
