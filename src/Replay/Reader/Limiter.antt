-- ===== src/Replay/Reader/Limiter.antt =====
-- `_ValidationErrorLimiter` of replay/parquet_reader.py: one message for each kind of error.
pub mod Counts
use gamma_scope.Prelude.{
  ℕ, ◌+◌, String, string_eq, Option, none, some, List, [], ◌∷◌, ◌++◌, map, nat_beq, ltb, length,
  if◌then◌else◌,
}
use gamma_scope.Prelude.Dict.{Dict, values, get, put}
use gamma_scope.Replay.Effects.{joined}
use gamma_scope.Replay.Reader.Values.{Library}
use gamma_scope.Replay.Reader.Reports.{Report}

abbrev pub max_error_example_rows : ℕ
max_error_example_rows = 5

pub record LimitedError : Type 0 where
  pub count : ℕ
  pub rows : List ℕ
  pub single_message : String
  pub summary_head : String

abbrev pub Limiter : Type 0
Limiter = Dict String LimitedError

abbrev pub first_error : Report → LimitedError
first_error r = record {
  count = 1;
  rows = r.row_index ∷ [];
  single_message = r.single_message;
  summary_head = r.summary_head;
}

abbrev pub next_error : Report → LimitedError → LimitedError
next_error r e = record e {
  count = e.count + 1;
  rows = if ltb (length e.rows) max_error_example_rows then e.rows ++ r.row_index ∷ [] else e.rows;
}

abbrev pub added : Report → Option LimitedError → LimitedError
added r none = first_error r
added r (some e) = next_error r e

-- `add`
unfoldable pub add : Report → Limiter → Limiter
add r l = put r.key (added r (get r.key l)) l

unfoldable pub add_all : List Report → Limiter → Limiter
unfolding add
add_all [] l = l
add_all (r ∷ rs) l = add_all rs (add r l)

-- `", ".join(str(row) for row in rows)`
unfoldable pub comma_separated : Library → List ℕ → String
unfolding joined
comma_separated lib [] = ""
comma_separated lib (i ∷ []) = lib.number_text i
comma_separated lib (i ∷ is) =
    let rest = comma_separated lib is in joined (lib.number_text i ∷ ", " ∷ rest ∷ [])

unfoldable pub message : Library → LimitedError → String
unfolding comma_separated
message lib e =
    if nat_beq e.count 1
    then e.single_message
    else joined (
        e.summary_head
        ∷ " in "
        ∷ lib.number_text e.count
        ∷ " rows; example rows: "
        ∷ comma_separated lib e.rows
        ∷ [])

-- `flush`: the messages that are appended to the errors.
unfoldable pub flush : Library → Limiter → List String
unfolding message
flush lib l = map (message lib) (values l)
