-- ===== src/Replay/Tables.antt =====
-- The tables of replay/import_repository.py and the records of replay/parquet_reader.py.
--
-- A table with a primary key is a dictionary from the key to its row. A DOUBLE PRECISION column is
-- only stored and read here, never computed with: it is the bit pattern of its value. A timestamp
-- is an instant in microseconds.
use gamma_scope.Prelude.{ℕ, ℤ, String, ◌≡◌, ◌↔◌, Bool, Option, List, [], arith, Eq, nat_beq}
use gamma_scope.Prelude.Dict.{Dict}

-- The values of `replay_imports.status`.
pub data Status : Type 0 where
  uploaded validating awaiting_confirmation publishing completed failed cancelled : Status

abbrev pub status_rank : Status → ℕ
status_rank uploaded = 0
status_rank validating = 1
status_rank awaiting_confirmation = 2
status_rank publishing = 3
status_rank completed = 4
status_rank failed = 5
status_rank cancelled = 6

-- The text in the column.
unfoldable pub status_text : Status → String
status_text uploaded = "uploaded"
status_text validating = "validating"
status_text awaiting_confirmation = "awaiting_confirmation"
status_text publishing = "publishing"
status_text completed = "completed"
status_text failed = "failed"
status_text cancelled = "cancelled"

abbrev pub status_beq : Status → Status → Bool
status_beq s t = nat_beq (status_rank s) (status_rank t)

pub status_beq_iff : (s t : Status) → (status_beq s t ≡ Bool.true) ↔ (s ≡ t)
status_beq_iff s t = ground arith

instance abbrev pub status_eq : Eq Status
status_eq = record { test = status_beq; test_iff = status_beq_iff }

-- JSON values of the validation summary.
mutual
  pub data Json : Type 0 where
    null : Json
    text : String → Json
    num : ℤ → Json
    arr : Items → Json
    obj : Fields → Json

  pub data Items : Type 0 where
    nil : Items
    cons : Json → Items → Items

  pub data Fields : Type 0 where
    end : Fields
    field : String → Json → Fields → Fields

abbrev pub Summary : Type 0
Summary = Dict String Json

pub record ImportRecord : Type 0 where
  pub import_id : String
  pub status : Status
  pub snapshots_filename : String
  pub quotes_filename : String
  pub snapshots_sha256 : String
  pub quotes_sha256 : String
  pub snapshots_size : ℕ
  pub quotes_size : ℕ
  pub snapshots_archive_path : String
  pub quotes_archive_path : String
  pub session_id : Option String
  pub validation_summary : Summary
  pub validation_warnings : List String
  pub validation_errors : List String
  pub created_at : ℕ
  pub updated_at : ℕ

pub record SnapshotRecord : Type 0 where
  pub session_id : String
  pub source_snapshot_id : String
  pub source_order : ℕ
  pub snapshot_time : String
  pub expiry : String
  pub spot : ℕ
  pub pricing_spot : Option ℕ
  pub forward : ℕ
  pub risk_free_rate : ℕ
  pub t_minutes : ℕ
  pub selected_strike_count : ℤ
  pub valid_mid_contract_count : ℤ
  pub stale_contract_count : ℤ
  pub row_count : Option ℤ

pub data Right : Type 0 where
  call put : Right

pub record QuoteRecord : Type 0 where
  pub session_id : String
  pub source_snapshot_id : String
  pub source_order : ℕ
  pub contract_id : String
  pub strike : ℕ
  pub right : Right
  pub bid : Option ℕ
  pub ask : Option ℕ
  pub mid : Option ℕ
  pub ibkr_iv : Option ℕ
  pub open_interest : Option ℤ
  pub quote_valid : Bool
  pub ln_kf : Option ℕ
  pub distance_from_atm : Option ℕ

-- A row of `replay_sessions`, as `publish_import` writes it.
pub record SessionRow : Type 0 where
  pub session_id : String
  pub symbol : String
  pub expiry : String
  pub source : String
  pub start_time : ℕ
  pub end_time : ℕ
  pub snapshot_count : ℕ
  pub quote_count : ℕ
  pub visibility : String
  pub timestamp_source : String
  pub import_id : String

-- A row of `replay_import_snapshots`: `ImportedSnapshotHeader`, with its time as an instant.
pub record SnapshotHeader : Type 0 where
  pub session_id : String
  pub source_snapshot_id : String
  pub source_order : ℕ
  pub snapshot_time : ℕ
  pub expiry : String
  pub spot : ℕ
  pub pricing_spot : Option ℕ
  pub forward : ℕ
  pub risk_free_rate : ℕ
  pub t_minutes : ℕ
  pub selected_strike_count : ℤ
  pub valid_mid_contract_count : ℤ
  pub stale_contract_count : ℤ
  pub row_count : ℤ

pub record Tables : Type 0 where
  pub imports : Dict String ImportRecord
  pub sessions : Dict String SessionRow
  pub snapshots : List SnapshotHeader
  pub quotes : List QuoteRecord

abbrev pub empty : Tables
empty = record { imports = []; sessions = []; snapshots = []; quotes = [] }
