-- ===== src/Replay/Reader/NormalizedQuote.antt =====
-- A row of quotes.parquet on which no check reports anything can be normalised.
use gamma_scope.Prelude.{ℕ, String, string_eq, ◌≡◌, refl, List, [], some}
use gamma_scope.Replay.Tables.{SnapshotRecord, QuoteRecord}
use gamma_scope.Replay.Reader.Values.{Value, Row, Library, cell, source_id_or_none}
use gamma_scope.Replay.Reader.Reports.{Report}
use gamma_scope.Replay.Reader.Rules.{
  quote_row_reports, quotes_table, required_source_id, required_timestamp, required_numeric,
  required_bool, optional_numeric, optional_int, optional_quote_numbers, each_column,
  invalid_option_type, is_option_type, option_type_text,
}
use gamma_scope.Replay.Reader.Normalize.{normalize_quote}
use gamma_scope.Replay.Reader.Checked.{
  Gives, and_then-Gives, and_then_of_ok, append-eq-nil, optional_float-IsOk, float_item-IsOk,
  int_or_none-IsOk, id_item-IsOk, right_item-IsOk,
}
use gamma_scope.Replay.Reader.Normalized.{column-IsOk}

-- What the code relies on: `str("").strip().lower()` is the empty text.
abbrev pub KeepsEmpty : Library → Type 0
KeepsEmpty lib = lib.lower (lib.strip (lib.str (Value.str ""))) ≡ ""

module _ (lib : Library) where
  -- What a quote row without reports has.
  record IsCheckedQuote (row : Row) (i : ℕ) : Type 0 where
    source_id : required_source_id lib (cell "snapshot_id" row) quotes_table i ≡ []
    option_type : invalid_option_type lib row i (is_option_type lib (option_type_text lib row)) ≡ []
    strike : required_numeric lib (cell "strike" row) quotes_table "strike" i ≡ []
    numbers :
        each_column lib (optional_numeric lib) quotes_table (optional_quote_numbers lib) row i ≡ []
    interest : optional_int lib (cell "oi" row) quotes_table "oi" i ≡ []

  checked_quote : (row : Row) (i : ℕ) → quote_row_reports lib row i ≡ [] → IsCheckedQuote row i
  unfolding quote_row_reports
  checked_quote row i h =
      let (source_id, h1) =
        append-eq-nil (required_source_id lib (cell "snapshot_id" row) quotes_table i) _ h in
      let (_, h2) =
        append-eq-nil (required_timestamp lib (cell "market_time" row) quotes_table "market_time" i)
          _ h1 in
      let (option_type, h3) =
        append-eq-nil
          (invalid_option_type lib row i (is_option_type lib (option_type_text lib row))) _ h2 in
      let (strike, h4) =
        append-eq-nil (required_numeric lib (cell "strike" row) quotes_table "strike" i) _ h3 in
      let (_, h5) =
        append-eq-nil (required_bool lib (cell "quote_valid" row) quotes_table "quote_valid" i) _
          h4 in
      let (numbers, interest) =
        append-eq-nil
          (each_column lib (optional_numeric lib) quotes_table (optional_quote_numbers lib) row i) _
          h5 in
      record {
        source_id = source_id;
        option_type = option_type;
        strike = strike;
        numbers = numbers;
        interest = interest;
      }

  -- The id of a quote row without reports.
  pub quote_id :
      (row : Row) (i : ℕ)
      → quote_row_reports lib row i ≡ []
      → (id : String) × (source_id_or_none lib (cell "snapshot_id" row) ≡ some id)
  quote_id row i h = (id_item-IsOk lib quotes_table i row (checked_quote row i h).source_id).1

  -- A quote row without reports is normalised, whatever its snapshot.
  pub normalize_quote-IsOk :
      (row : Row) (i : ℕ) (snapshot : SnapshotRecord) (session_id expiry : String)
      → KeepsEmpty lib
      → quote_row_reports lib row i ≡ []
      → Gives (λ _. Unit {0}) (normalize_quote lib row snapshot session_id expiry)
  unfolding normalize_quote
  normalize_quote-IsOk row i snapshot session_id expiry plain h =
      let x = checked_quote row i h in
      let Q : QuoteRecord → Type 0 = λ _. Unit {0} in
      let check : Value → String → String → ℕ → List Report = optional_numeric lib in
      let (no_bid, c1) = column-IsOk lib "bid" _ check quotes_table row i x.numbers in
      let (no_ask, c2) = column-IsOk lib "ask" _ check quotes_table row i c1 in
      let (no_mid, c3) = column-IsOk lib "mid" _ check quotes_table row i c2 in
      let (no_iv, c4) = column-IsOk lib "iv" _ check quotes_table row i c3 in
      let (no_ln_kf, c5) = column-IsOk lib "ln_kf" _ check quotes_table row i c4 in
      let (no_distance, _) = column-IsOk lib "distance_from_atm" _ check quotes_table row i c5 in
      let (v, found, right) = right_item-IsOk lib quotes_table i row plain x.option_type in
      and_then_of_ok Q _ _ v found (
        and_then-Gives Q _ _ (float_item-IsOk lib quotes_table "strike" i row x.strike) λ _ _.
          and_then-Gives Q _ _ right λ _ _.
            and_then-Gives Q _ _ (optional_float-IsOk lib quotes_table "bid" i _ no_bid) λ _ _.
              and_then-Gives Q _ _ (optional_float-IsOk lib quotes_table "ask" i _ no_ask) λ _ _.
                and_then-Gives Q _ _ (optional_float-IsOk lib quotes_table "mid" i _ no_mid) λ _ _.
                  and_then-Gives Q _ _ (optional_float-IsOk lib quotes_table "iv" i _ no_iv) λ _ _.
                    and_then-Gives Q _ _ (int_or_none-IsOk lib quotes_table "oi" i _ x.interest)
                      λ _ _.
                        and_then-Gives Q _ _
                          (optional_float-IsOk lib quotes_table "ln_kf" i _ no_ln_kf)
                          λ _ _.
                            and_then-Gives Q _ _
                              (optional_float-IsOk lib quotes_table "distance_from_atm" i _
                                no_distance)
                              λ _ _. (_, refl, tt))
