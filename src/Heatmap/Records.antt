-- ===== src/Heatmap/Records.antt =====
-- The records of heatmap/repository.py, and how one is normalised.
use mathlib.Core.Path.{subst}
use gamma_scope.Prelude.{
  ℕ, ℤ, String, string_eq, ◌≡◌, ◌↔◌, refl, Bool, true, false, ◌&&◌, Eq, ◌==◌, leb, arith,
  if◌then◌else◌,
}
use gamma_scope.Replay.Effects.{Result, ok, Platform}
use gamma_scope.Replay.Publish.{and_then, parse_time}

-- `HeatmapOiBaselineRecord`; a strike is the bits of its value.
pub record OiBaseline : Type 0 where
  pub market_date : String
  pub symbol : String
  pub trading_class : String
  pub expiration_date : String
  pub contract_id : String
  pub open_interest : ℤ
  pub observed_at : String
  pub right : String
  pub strike : ℕ
  pub captured_at : String
  pub source_snapshot_time : String
  pub locked : Bool

pub record BaselineKey : Type 0 where
  pub market_date : String
  pub symbol : String
  pub trading_class : String
  pub expiration_date : String
  pub contract_id : String

abbrev pub key_beq : BaselineKey → BaselineKey → Bool
key_beq j k =
    j.market_date == k.market_date
    && j.symbol == k.symbol
    && j.trading_class == k.trading_class
    && j.expiration_date == k.expiration_date
    && j.contract_id == k.contract_id

and_true : (a b : Bool) → (a && b) ≡ true → (a ≡ true) × (b ≡ true)
and_true a b h = ground arith

key_eq_of_test : (j k : BaselineKey) → key_beq j k ≡ true → j ≡ k
key_eq_of_test j k h =
    let (h1, e) = and_true _ _ h in
    let (h2, d) = and_true _ _ h1 in
    let (h3, c) = and_true _ _ h2 in
    let (a, b) = and_true _ _ h3 in
    let same_market_date : j.market_date ≡ k.market_date =
      (string_eq.test_iff j.market_date k.market_date).0 a in
    let same_symbol : j.symbol ≡ k.symbol = (string_eq.test_iff j.symbol k.symbol).0 b in
    let same_trading_class : j.trading_class ≡ k.trading_class =
      (string_eq.test_iff j.trading_class k.trading_class).0 c in
    let same_expiration_date : j.expiration_date ≡ k.expiration_date =
      (string_eq.test_iff j.expiration_date k.expiration_date).0 d in
    let same_contract_id : j.contract_id ≡ k.contract_id =
      (string_eq.test_iff j.contract_id k.contract_id).0 e in
    λ i. record {
      market_date = same_market_date i;
      symbol = same_symbol i;
      trading_class = same_trading_class i;
      expiration_date = same_expiration_date i;
      contract_id = same_contract_id i;
    }

key_test_self : (k : BaselineKey) → key_beq k k ≡ true
key_test_self k = ground (
  arith,
  (string_eq.test_iff k.market_date k.market_date).1 refl,
  (string_eq.test_iff k.symbol k.symbol).1 refl,
  (string_eq.test_iff k.trading_class k.trading_class).1 refl,
  (string_eq.test_iff k.expiration_date k.expiration_date).1 refl,
  (string_eq.test_iff k.contract_id k.contract_id).1 refl,
)

pub key_beq_iff : (j k : BaselineKey) → (key_beq j k ≡ true) ↔ (j ≡ k)
key_beq_iff j k = (key_eq_of_test j k, λ e. subst (λ x. key_beq j x ≡ true) e (key_test_self j))

instance abbrev pub key_eq : Eq BaselineKey
key_eq = record { test = key_beq; test_iff = key_beq_iff }

-- `_baseline_key`
unfoldable pub baseline_key : OiBaseline → BaselineKey
baseline_key r = record {
  market_date = r.market_date;
  symbol = r.symbol;
  trading_class = r.trading_class;
  expiration_date = r.expiration_date;
  contract_id = r.contract_id;
}

-- `a or b` of texts
abbrev pub or_text : String → String → String
or_text a b = if a == "" then b else a

-- `time(9, 25)`, in microseconds after midnight
abbrev pub lock_time : ℕ
lock_time = 33900000000

-- `new_york_time` is the time of day in New York, in microseconds after midnight.
module _ (p : Platform) (new_york_time : ℕ → ℕ) where
  -- `_is_lock_time`
  unfoldable pub is_lock_time : String → Result Bool
  is_lock_time value = and_then (parse_time p value) λ at. ok (leb lock_time (new_york_time at))

  abbrev pub locked_or_late : Bool → String → Result Bool
  locked_or_late true value = ok true
  locked_or_late false value = is_lock_time value

  -- `_normalized_baseline`
  unfoldable pub normalized_baseline : OiBaseline → Result OiBaseline
  normalized_baseline r = and_then (parse_time p r.observed_at) λ observed.
      and_then (parse_time p (or_text r.captured_at (or_text r.source_snapshot_time r.observed_at)))
        λ captured.
          and_then
            (parse_time p (or_text r.source_snapshot_time (or_text r.captured_at r.observed_at)))
            λ source. and_then (locked_or_late r.locked (p.format_datetime source)) λ locked.
              ok (record r {
                observed_at = p.format_datetime observed;
                captured_at = p.format_datetime captured;
                source_snapshot_time = p.format_datetime source;
                locked = locked;
              })
