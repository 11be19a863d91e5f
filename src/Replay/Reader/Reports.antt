-- ===== src/Replay/Reader/Reports.antt =====
-- What a check of replay/parquet_reader.py reports: the arguments of `_add_validation_error`.
use gamma_scope.Prelude.{ℕ, String, List, [], ◌∷◌}

-- The summary template is this head with " in {count} rows; example rows: {rows}".
pub record Report : Type 0 where
  pub key : String
  pub row_index : ℕ
  pub single_message : String
  pub summary_head : String

-- The messages where the errors are a list.
abbrev pub messages : List Report → List String
messages [] = []
messages (r ∷ rs) = r.single_message ∷ messages rs
