-- ===== src/Replay/Importer.antt =====
-- replay/importer.py: `ReplayParquetImporter` over the repository.
--
-- What happens outside the database enters as an argument of the call in which it happens: the
-- description of the two source files, the copy into the archive (`archive_replay_files`), and what
-- `read_replay_parquet_pair` reads. Each of these is made once in a call.
use Prim.Native.Char.{code}
use gamma_scope.Prelude.{
  ℕ, pos, zero, suc, String, string_eq, not, Option, none, some, List, [], ◌∷◌, ◌==◌, nat_beq, keep,
  if◌then◌else◌,
}
use gamma_scope.Prelude.Dict.{get, put}
use gamma_scope.Replay.Effects.{
  Result, ok, err, key_error, Platform, joined, Exec, pure, lift, ◌>>=◌,
}
use gamma_scope.Replay.Tables.{
  Status, completed, status_eq, status_text, Json, Summary, ImportRecord, SnapshotRecord, Tables,
}
use gamma_scope.Replay.Publish.{Quotes}

pub record ImportResult : Type 0 where
  pub import_id : String
  pub status : Status
  pub summary : Summary
  pub warnings : List String
  pub errors : List String
  pub session_id : Option String
  pub replay_url : Option String

-- `SourceFileInfo` of replay/archive.py
pub record SourceFileInfo : Type 0 where
  pub filename : String
  pub size : ℕ
  pub sha256 : String

-- `ReplayArchive`
pub record ReplayArchive : Type 0 where
  pub snapshots_path : String
  pub quotes_path : String
  pub snapshots_size : ℕ
  pub quotes_size : ℕ
  pub snapshots_sha256 : String
  pub quotes_sha256 : String

-- `ReplayParquetReadResult`, with the quotes that `iter_replay_quote_records` yields afterwards.
pub record ReadResult : Type 0 where
  pub snapshots : List SnapshotRecord
  pub summary : Summary
  pub warnings : List String
  pub errors : List String
  pub quotes : Quotes

-- `_replay_url`
abbrev pub replay_url : Option String → Option String
replay_url none = none
replay_url (some session_id) = some (joined ("/replay?session_id=" ∷ session_id ∷ []))

-- `_result_from_record`
unfoldable pub result_from_record : ImportRecord → ImportResult
result_from_record r = record {
  import_id = r.import_id;
  status = r.status;
  summary = r.validation_summary;
  warnings = r.validation_warnings;
  errors = if r.status == completed then [] else r.validation_errors;
  session_id = r.session_id;
  replay_url = if r.status == completed then replay_url r.session_id else none;
}

-- `_completed_result`
unfoldable pub completed_result : ImportRecord → ImportResult
completed_result r = record {
  import_id = r.import_id;
  status = completed;
  summary = r.validation_summary;
  warnings = r.validation_warnings;
  errors = [];
  session_id = r.session_id;
  replay_url = replay_url r.session_id;
}

-- `_invalid_transition_result`
unfoldable pub invalid_transition_result : String → ImportRecord → ImportResult
unfolding result_from_record
invalid_transition_result action r =
    let result = result_from_record r in
    let message =
      joined ("Cannot " ∷ action ∷ " import from status " ∷ status_text r.status ∷ []) in
    record result { errors = message ∷ keep (λ e. not (e == message)) result.errors }

-- `text[:n]`
unfoldable pub prefix : ℕ → String → String
prefix zero s = ""
prefix (suc n) String.[] = ""
prefix (suc n) (String.◌∷◌ c s) = String.◌∷◌ c (prefix n s)

-- `text.replace(c, with)` for one character `c`
unfoldable pub replace_char : ℕ → String → String → String
unfolding joined
replace_char c with String.[] = ""
replace_char c with (String.◌∷◌ d s) =
    let rest = replace_char c with s in
    if nat_beq (code d) c then joined (with ∷ rest ∷ []) else String.◌∷◌ d rest

abbrev pub last_snapshot : SnapshotRecord → List SnapshotRecord → SnapshotRecord
last_snapshot s [] = s
last_snapshot s (t ∷ ts) = last_snapshot t ts

-- `enriched.update({...})` where there are snapshots
unfoldable pub with_times : List SnapshotRecord → Summary → Summary
unfolding prefix
with_times [] summary = summary
with_times (s ∷ snapshots) summary =
    let start_time = s.snapshot_time in
    let end_time = (last_snapshot s snapshots).snapshot_time in
    put "end_time" (Json.text end_time) (
      put "start_time" (Json.text start_time) (
        put "trade_date" (Json.text (prefix 10 start_time))
          (put "scope" (Json.text "0DTE") (put "symbol" (Json.text "SPX") summary))))

-- `_summary_with_import_metadata`
unfoldable pub summary_with_metadata : ReplayArchive → ReadResult → Summary
unfolding with_times
summary_with_metadata a read = put "quotes_archive_path" (Json.text a.quotes_path) (
    put "snapshots_archive_path" (Json.text a.snapshots_path) (
      put "quotes_size" (Json.num (pos a.quotes_size)) (
        put "snapshots_size" (Json.num (pos a.snapshots_size)) (
          put "quotes_sha256" (Json.text a.quotes_sha256) (
            put "snapshots_sha256" (Json.text a.snapshots_sha256)
              (with_times read.snapshots read.summary))))))

-- `summary[key]` for a key with a text; a missing key is a `KeyError`.
abbrev pub text_of : String → Option Json → Result String
text_of key (some (Json.text s)) = ok s
text_of key _ = err (key_error key)

abbrev pub text_at : String → Summary → Result String
text_at key summary = text_of key (get key summary)

abbrev pub lifted {ℓ} : {A : Type ℓ} → Result A → Exec Tables A
lifted r = lift r

-- `_stable_session_id`
unfoldable pub stable_session_id : Platform → Summary → Exec Tables String
unfolding prefix replace_char
stable_session_id p summary = do
  start_time ← lifted (text_at "start_time" summary)
  snapshots_sha256 ← lifted (text_at "snapshots_sha256" summary)
  quotes_sha256 ← lifted (text_at "quotes_sha256" summary)
  symbol ← lifted (text_at "symbol" summary)
  scope ← lifted (text_at "scope" summary)
  trade_date ← lifted (text_at "trade_date" summary)
  expiry ← lifted (text_at "expiry" summary)
  let plain = replace_char b':' "" (replace_char b'-' "" start_time)
  let start_timestamp = replace_char b'Z' "" (replace_char b'T' "-" plain)
  let checksums = joined (snapshots_sha256 ∷ ":" ∷ quotes_sha256 ∷ [])
  pure (
      joined (
        "replay-"
        ∷ p.lower symbol
        ∷ "-"
        ∷ p.lower scope
        ∷ "-"
        ∷ trade_date
        ∷ "-"
        ∷ expiry
        ∷ "-"
        ∷ start_timestamp
        ∷ "-"
        ∷ prefix 10 (p.sha256_hex checksums)
        ∷ []))
