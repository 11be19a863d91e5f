-- ===== src/Live/Build.antt =====
-- `build_live_snapshot` and `build_spx_dashboard_live_snapshot` of ingestion/live_snapshot.py.
--
-- What is computed in floating point (the spot's sign, the time to expiry, the forward, the analytics
-- of analytics/black_scholes.py) is a field of the record `Pricing`.
use gamma_scope.Prelude.{
  ℕ, String, string_eq, Bool, true, false, ◌||◌, Option, none, some, List, [], ◌∷◌, ◌==◌, keep, map,
  if◌then◌else◌,
}
use gamma_scope.Prelude.Order.{nat_ord, str_ord, lex, Ord}
use gamma_scope.Prelude.Sort.{sorted, max_by}
use gamma_scope.Prelude.Dict.{Dict, get, has, values}
use gamma_scope.Replay.Effects.{Result, ok, Exec, pure, lift, ◌>>=◌, ◌>>◌}
use gamma_scope.Replay.Tables.{Json}
use gamma_scope.Collector.State.{
  CollectorHealth, ContractDiscovered, UnderlyingTick, OptionTick, CollectorState, latest_health,
  latest_underlying_tick, text_or,
}
use gamma_scope.Replay.Reader.Scan.{is_element}
use gamma_scope.Live.Remembered.{Analytics, Memory, apply_memory, prune_memory}

-- `_analytics_row` but for the fields of the contract: the analytics, those of
-- `_raw_iv_fallback_analytics`, and the fields that are copied or computed from the tick.
pub record Analysis : Type 0 where
  pub computed : Analytics
  pub fallback : Analytics
  pub ibkr_iv : Option ℕ
  pub ibkr_gamma : Option ℕ
  pub rest : Dict String Json

pub record Pricing : Type 0 where
  pub spot_from_underlying : UnderlyingTick → Option ℕ
  pub is_positive : ℕ → Bool
  pub time_to_expiry_years : String → String → Result ℕ
  pub forward : ℕ → ℕ → ℕ
  pub discount_factor : ℕ → ℕ
  pub analyse : ContractDiscovered → OptionTick → ℕ → ℕ → Result Analysis
  pub minus : ℕ → ℕ → ℕ
  -- `_freshness_ms`, at the time of the call
  pub freshness_ms : String → Result ℕ

pub record LiveRow : Type 0 where
  pub contract_id : String
  pub right : String
  pub strike : ℕ
  pub custom : Analytics
  pub ibkr_iv : Option ℕ
  pub ibkr_gamma : Option ℕ
  pub iv_diff : Option ℕ
  pub gamma_diff : Option ℕ
  pub rest : Dict String Json

pub record LiveSnapshot : Type 0 where
  pub session_id : String
  pub symbol : String
  pub expiry : String
  pub snapshot_time : String
  pub spot : ℕ
  pub forward : ℕ
  pub discount_factor : ℕ
  pub source_status : CollectorHealth
  pub freshness_ms : ℕ
  pub rows : List LiveRow

abbrev pub Ticks : Type 0
Ticks = Dict String OptionTick

abbrev pub tick_time : Option OptionTick → String
tick_time none = ""
tick_time (some tick) = tick.event_time

-- The key of `max` in `_active_expiry`.
abbrev pub expiry_key : Ticks → ContractDiscovered → String × (String × String)
expiry_key ticks c = (tick_time (get c.contract_id ticks), (c.event_time, c.expiry))

abbrev pub expiry_of : Option ContractDiscovered → Option String
expiry_of none = none
expiry_of (some c) = some c.expiry

-- `_active_expiry`
unfoldable pub active_expiry : List ContractDiscovered → Ticks → Option String
active_expiry contracts ticks = expiry_of (
    max_by (lex str_ord (lex str_ord str_ord)) (expiry_key ticks)
      (keep (λ c. has c.contract_id ticks) contracts))

-- The order of the rows.
abbrev pub row_order : Ord (ℕ × String)
row_order = lex nat_ord str_ord

abbrev pub ids_of : List ContractDiscovered → List String
ids_of contracts = map (λ c. c.contract_id) contracts

abbrev pub is_none {ℓ} : {A : Type ℓ} → List A → Bool
is_none [] = true
is_none (x ∷ xs) = false

module _ (pricing : Pricing) where
  abbrev pub difference : Option ℕ → Option ℕ → Option ℕ
  difference (some a) (some b) = some (pricing.minus a b)
  difference _ _ = none

  -- `_analytics_row`, `_apply_analytics_memory` and `_refresh_comparison_diffs`
  unfoldable pub live_row : ContractDiscovered → Analysis → Analytics → LiveRow
  live_row c a custom = record {
    contract_id = c.contract_id;
    right = c.right;
    strike = c.strike;
    custom = custom;
    ibkr_iv = a.ibkr_iv;
    ibkr_gamma = a.ibkr_gamma;
    iv_diff = difference custom.custom_iv a.ibkr_iv;
    gamma_diff = difference custom.custom_gamma a.ibkr_gamma;
    rest = a.rest;
  }

  abbrev pub row_of : String → ContractDiscovered → Analysis → Exec Memory LiveRow
  row_of session_id c a m =
      let (custom, m') = apply_memory session_id c.contract_id a.computed a.fallback m in
      (ok (live_row c a custom), m')

  -- The body of the loop, for the tick of the contract; without one it is passed over.
  abbrev pub row_then :
      String
      → ℕ
      → ℕ
      → ContractDiscovered
      → Option OptionTick
      → Exec Memory (List LiveRow)
      → Exec Memory (List LiveRow)
  row_then session_id spot tau c none rest = rest
  row_then session_id spot tau c (some tick) rest = do
    a ← lift (pricing.analyse c tick spot tau)
    row ← row_of session_id c a
    rows ← rest
    pure (row ∷ rows)

  -- The loop over the sorted contracts.
  unfoldable pub live_rows :
      String → Ticks → ℕ → ℕ → List ContractDiscovered → Exec Memory (List LiveRow)
  live_rows session_id ticks spot tau [] = pure []
  live_rows session_id ticks spot tau (c ∷ contracts) =
      let rest = live_rows session_id ticks spot tau contracts in
      row_then session_id spot tau c (get c.contract_id ticks) rest

abbrev pub session_contracts : String → CollectorState → List ContractDiscovered
session_contracts session_id s = keep (λ c. c.session_id == session_id) (values s.contracts)

abbrev pub session_ticks : String → CollectorState → Ticks
session_ticks session_id s = keep (λ e. e.1.session_id == session_id) s.option_ticks

abbrev pub expiry_contracts : String → List ContractDiscovered → List ContractDiscovered
expiry_contracts expiry contracts = keep (λ c. c.expiry == expiry) contracts

abbrev pub contract_ticks : List ContractDiscovered → Ticks → Ticks
contract_ticks contracts ticks = keep (λ e. is_element e.0 (ids_of contracts)) ticks

-- `str(underlying.get("symbol") or "SPX")`; a symbol is a text.
abbrev pub symbol_or_default : Option Json → String
symbol_or_default (some (Json.text s)) = if s == "" then "SPX" else s
symbol_or_default _ = "SPX"

abbrev pub row_ids : List LiveRow → List String
row_ids rows = map (λ r. r.contract_id) rows

module _ (pricing : Pricing) (health : CollectorHealth) (underlying : UnderlyingTick)
    (snapshot_time : String) where
  abbrev pub snapshot_of : String → ℕ → ℕ → List LiveRow → ℕ → LiveSnapshot
  snapshot_of expiry spot tau rows freshness = record {
    session_id = underlying.session_id;
    symbol = symbol_or_default (get "symbol" underlying.rest);
    expiry = expiry;
    snapshot_time = snapshot_time;
    spot = spot;
    forward = pricing.forward spot tau;
    discount_factor = pricing.discount_factor tau;
    source_status = health;
    freshness_ms = freshness;
    rows = rows;
  }

  abbrev pub pruned : List LiveRow → Exec Memory (Unit {0})
  pruned rows m = (ok tt, prune_memory underlying.session_id (row_ids rows) m)

  -- From `if not rows` on.
  unfoldable pub finish : String → ℕ → ℕ → List LiveRow → Exec Memory (Option LiveSnapshot)
  finish expiry spot tau [] = pure none
  finish expiry spot tau (r ∷ rows) = do
    pruned (r ∷ rows)
    freshness ← lift (pricing.freshness_ms snapshot_time)
    pure (some (snapshot_of expiry spot tau (r ∷ rows) freshness))

  unfoldable pub build_rows :
      String → List ContractDiscovered → Ticks → ℕ → Exec Memory (Option LiveSnapshot)
  build_rows expiry contracts ticks spot = do
    tau ← lift (pricing.time_to_expiry_years snapshot_time expiry)
    rows ←
        live_rows pricing underlying.session_id ticks spot tau
          (sorted row_order (λ c. (c.strike, c.right)) contracts)
    finish expiry spot tau rows

  abbrev pub build_spot :
      String → List ContractDiscovered → Ticks → Option ℕ → Exec Memory (Option LiveSnapshot)
  build_spot expiry contracts ticks none = pure none
  build_spot expiry contracts ticks (some spot) =
      if pricing.is_positive spot then build_rows expiry contracts ticks spot else pure none

  abbrev pub build_checked :
      String → List ContractDiscovered → Ticks → Exec Memory (Option LiveSnapshot)
  build_checked expiry contracts ticks =
      if is_none contracts || is_none ticks
      then pure none
      else build_spot expiry contracts ticks (pricing.spot_from_underlying underlying)

  abbrev pub build_expiry :
      List ContractDiscovered → Ticks → Option String → Exec Memory (Option LiveSnapshot)
  build_expiry contracts ticks none = pure none
  build_expiry contracts ticks (some expiry) =
      build_checked expiry (expiry_contracts expiry contracts)
        (contract_ticks (expiry_contracts expiry contracts) ticks)

  -- For the session of the underlying.
  unfoldable pub build_session : List ContractDiscovered → Ticks → Exec Memory (Option LiveSnapshot)
  build_session contracts ticks =
      if is_none contracts || is_none ticks
      then pure none
      else build_expiry contracts ticks (active_expiry contracts ticks)

module _ (pricing : Pricing) where
  abbrev pub build_from :
      CollectorState
      → Option CollectorHealth
      → Option UnderlyingTick
      → Exec Memory (Option LiveSnapshot)
  build_from s (some health) (some underlying) =
      if is_none s.contracts || is_none s.option_ticks
      then pure none
      else build_session pricing health underlying (text_or underlying.event_time s.last_event_time)
          (session_contracts underlying.session_id s) (session_ticks underlying.session_id s)
  build_from s health underlying = pure none

  unfoldable pub build_live_snapshot :
      Option String → CollectorState → Exec Memory (Option LiveSnapshot)
  build_live_snapshot session_id s =
      build_from s (latest_health s) (latest_underlying_tick session_id s)

  abbrev pub or_any_session :
      CollectorState → Option LiveSnapshot → Exec Memory (Option LiveSnapshot)
  or_any_session s (some snapshot) = pure (some snapshot)
  or_any_session s none = build_live_snapshot none s

  -- `build_spx_dashboard_live_snapshot`
  unfoldable pub build_dashboard_snapshot : CollectorState → Exec Memory (Option LiveSnapshot)
  build_dashboard_snapshot s =
      build_live_snapshot (some "moomoo-spx-0dte-live") s >>= or_any_session s
