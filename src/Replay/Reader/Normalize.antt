-- ===== src/Replay/Reader/Normalize.antt =====
-- The records that replay/parquet_reader.py makes of checked rows.
use gamma_scope.Prelude.{
  ℕ, ℤ, pos, ◌⊖◌, String, string_eq, ◌||◌, Option, none, some, [], ◌∷◌, ◌==◌, if◌then◌else◌,
}
use gamma_scope.Prelude.Dict.{Dict, get}
use gamma_scope.Replay.Effects.{Error, Result, ok, err, key_error, value_error, joined}
use gamma_scope.Replay.Tables.{SnapshotRecord, QuoteRecord, Right, call, put}
use gamma_scope.Replay.Publish.{Quotes, done, broken, next, and_then}
use gamma_scope.Replay.Reader.Values.{
  Value, is_null, Row, Library, cell, source_id_or_none, iso_time, parse_finite_float, Number,
  finite, non_finite, invalid, parse_int, is_valid_quote,
}

abbrev pub value_or_error : String → Option Value → Result Value
value_or_error column none = err (key_error column)
value_or_error column (some v) = ok v

-- `row[column]`
abbrev pub item : String → Row → Result Value
item column row = value_or_error column (get column row)

abbrev pub text_or_empty : Option String → String
text_or_empty none = ""
text_or_empty (some s) = s

-- The counts of a snapshot's quotes.
pub record QuoteCounts : Type 0 where
  pub quotes : ℕ
  pub valid : ℕ
  pub strikes : ℕ

module _ (lib : Library) where
  abbrev pub float_or_error : Value → Number → Result ℕ
  float_or_error v (finite x) = ok x
  float_or_error v non_finite =
      err (value_error (joined ("non-finite numeric value: " ∷ lib.repr v ∷ [])))
  float_or_error v invalid =
      err (value_error (joined ("invalid numeric value: " ∷ lib.repr v ∷ [])))

  -- `_float`
  abbrev pub float_value : Value → Result ℕ
  float_value v = float_or_error v (parse_finite_float lib v)

  abbrev pub some_float : Result ℕ → Result (Option ℕ)
  some_float (ok x) = ok (some x)
  some_float (err e) = err e

  -- `_optional_float`
  unfoldable pub optional_float : Value → Result (Option ℕ)
  optional_float v = if is_null v then ok none else some_float (float_value v)

  abbrev pub if_positive : Option ℕ → Option ℕ
  if_positive none = none
  if_positive (some x) = if lib.is_positive x then some x else none

  abbrev pub positive_only : Result (Option ℕ) → Result (Option ℕ)
  positive_only (ok x) = ok (if_positive x)
  positive_only (err e) = err e

  -- `_positive_optional_float`: what `_optional_float` returns is finite.
  abbrev pub positive_optional_float : Value → Result (Option ℕ)
  positive_optional_float v = positive_only (optional_float v)

  abbrev pub int_or_error : Value → Option ℤ → Result ℤ
  int_or_error v none = err (value_error (joined ("invalid integer value: " ∷ lib.repr v ∷ [])))
  int_or_error v (some n) = ok n

  -- `_optional_int`
  unfoldable pub int_or_default : Value → ℤ → Result ℤ
  int_or_default v default = if is_null v then ok default else int_or_error v (parse_int lib v)

  abbrev pub some_int : Result ℤ → Result (Option ℤ)
  some_int (ok n) = ok (some n)
  some_int (err e) = err e

  -- `_optional_int_or_none`
  unfoldable pub int_or_none : Value → Result (Option ℤ)
  int_or_none v = if is_null v then ok none else some_int (int_or_error v (parse_int lib v))

  abbrev pub spot_of : Option ℕ → Row → Result ℕ
  spot_of (some x) row = ok x
  spot_of none row = and_then (item "spot" row) float_value

  -- `_normalize_snapshot`
  unfoldable pub normalize_snapshot :
      Row → ℕ → String → String → QuoteCounts → Result SnapshotRecord
  normalize_snapshot row order session_id expiry counts =
      and_then (positive_optional_float (cell "pricing_spot" row)) λ pricing_spot.
        and_then (item "snapshot_id" row) λ id. and_then (item "market_time" row) λ market_time.
          and_then (iso_time lib market_time) λ snapshot_time.
            and_then (spot_of pricing_spot row) λ spot.
              and_then (and_then (item "forward_price" row) float_value) λ forward.
                and_then (and_then (item "risk_free_rate" row) float_value) λ risk_free_rate.
                  and_then (and_then (item "t_minutes" row) float_value) λ t_minutes.
                    and_then
                      (int_or_default (cell "selected_strike_count" row) (pos counts.strikes))
                      λ selected.
                        and_then
                          (int_or_default (cell "valid_mid_contract_count" row) (pos counts.valid))
                          λ valid.
                            and_then
                              (int_or_default (cell "stale_contract_count" row)
                                (counts.quotes ⊖ counts.valid))
                              λ stale. and_then (int_or_none (cell "row_count" row)) λ row_count.
                                ok (record {
                                  session_id = session_id;
                                  source_snapshot_id = text_or_empty (source_id_or_none lib id);
                                  source_order = order;
                                  snapshot_time = snapshot_time;
                                  expiry = expiry;
                                  spot = spot;
                                  pricing_spot = pricing_spot;
                                  forward = forward;
                                  risk_free_rate = risk_free_rate;
                                  t_minutes = t_minutes;
                                  selected_strike_count = selected;
                                  valid_mid_contract_count = valid;
                                  stale_contract_count = stale;
                                  row_count = row_count;
                                })

  abbrev pub invalid_right : Value → Result Right
  invalid_right v = err (value_error (joined ("invalid option_type: " ∷ lib.repr v ∷ [])))

  abbrev pub right_of_text : Value → String → Result Right
  right_of_text v s =
      if s == "c" || s == "call"
      then ok call
      else if s == "p" || s == "put"
      then ok put
      else invalid_right v

  -- `_right`, with the check of `_normalize_quote` on what it returns.
  abbrev pub right_of : Value → Result Right
  right_of v = right_of_text v (lib.lower (lib.strip (lib.str v)))

  abbrev pub right_letter : Right → String
  right_letter call = "C"
  right_letter put = "P"

  -- `_normalize_quote`
  unfoldable pub normalize_quote : Row → SnapshotRecord → String → String → Result QuoteRecord
  unfolding is_valid_quote
  normalize_quote row snapshot session_id expiry = and_then (item "option_type" row) λ option_type.
      and_then (and_then (item "strike" row) float_value) λ strike.
        and_then (right_of option_type) λ right. and_then (optional_float (cell "bid" row)) λ bid.
          and_then (optional_float (cell "ask" row)) λ ask.
            and_then (optional_float (cell "mid" row)) λ mid.
              and_then (optional_float (cell "iv" row)) λ iv.
                and_then (int_or_none (cell "oi" row)) λ oi.
                  and_then (optional_float (cell "ln_kf" row)) λ ln_kf.
                    and_then (optional_float (cell "distance_from_atm" row)) λ from_atm.
                      ok (record {
                        session_id = session_id;
                        source_snapshot_id = snapshot.source_snapshot_id;
                        source_order = snapshot.source_order;
                        contract_id = joined (
                            "SPXW-"
                            ∷ expiry
                            ∷ "-"
                            ∷ right_letter right
                            ∷ "-"
                            ∷ lib.strike_text strike
                            ∷ []);
                        strike = strike;
                        right = right;
                        bid = bid;
                        ask = ask;
                        mid = mid;
                        ibkr_iv = iv;
                        open_interest = oi;
                        quote_valid = is_valid_quote lib row;
                        ln_kf = ln_kf;
                        distance_from_atm = from_atm;
                      })

-- The rows of a file's batches, read lazily; reading may raise.
pub data QuoteRows : Type 0 where
  end_of_file : QuoteRows
  unreadable : Error → QuoteRows
  row_then : Row → QuoteRows → QuoteRows

abbrev pub yielded : Result QuoteRecord → Quotes → Quotes
yielded (ok q) rest = next q rest
yielded (err e) rest = broken e

module _ (lib : Library) (snapshot_id_map : Dict String SnapshotRecord)
    (session_id expiry : String) where
  abbrev pub quote_of : Row → String → Option SnapshotRecord → Result QuoteRecord
  quote_of row id none = err (key_error id)
  quote_of row id (some snapshot) = normalize_quote lib row snapshot session_id expiry

  abbrev pub quote_then : Row → Option String → Quotes → Quotes
  quote_then row none rest = rest
  quote_then row (some id) rest = yielded (quote_of row id (get id snapshot_id_map)) rest

  -- `iter_replay_quote_records` and `normalize_quote_batch`
  unfoldable pub iter_quotes : QuoteRows → Quotes
  iter_quotes end_of_file = done
  iter_quotes (unreadable e) = broken e
  iter_quotes (row_then row rows) =
      quote_then row (source_id_or_none lib (cell "snapshot_id" row)) (iter_quotes rows)
