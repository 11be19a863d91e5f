-- ===== src/Live/Examples.antt =====
-- A live snapshot of one session with two expiries.
use gamma_scope.Prelude.{String, string_eq, refl, Bool, none, some, [], ◌∷◌}
use gamma_scope.Prelude.Order.{lex_le, str_le}
use gamma_scope.Prelude.Sort.{sorted, insert, max_by, max_from}
use gamma_scope.Prelude.Dict.{get, put, has}
use gamma_scope.Replay.Effects.{ok}
use gamma_scope.Replay.Reader.Scan.{is_element}
use gamma_scope.Collector.State.{
  ContractDiscovered, OptionTick, CollectorState, latest_health, latest_underlying_tick,
}
use gamma_scope.Live.Remembered.{memory_eq, Memory, no_analytics, apply_memory, prune_memory}
use gamma_scope.Live.Build.{
  Pricing, LiveSnapshot, build_live_snapshot, build_session, build_rows, finish, live_rows,
  live_row, active_expiry,
}
use gamma_scope.Live.Rows.{IsCurrent, build_live_snapshot-IsCurrent}
use gamma_scope.Live.Kept.{IsPruned}
use gamma_scope.Live.Pruned.{build_live_snapshot-IsPruned}

abbrev pricing : Pricing
pricing = record {
  spot_from_underlying = λ u. some 100;
  is_positive = λ x. Bool.true;
  time_to_expiry_years = λ at expiry. ok 1;
  forward = λ spot tau. spot;
  discount_factor = λ tau. 1;
  analyse = λ c tick spot tau. ok (record {
    computed = record { custom_iv = some 3; custom_gamma = none; custom_vanna = none };
    fallback = no_analytics;
    ibkr_iv = some 2;
    ibkr_gamma = none;
    rest = [];
  });
  minus = λ a b. 1;
  freshness_ms = λ at. ok 5;
}

abbrev contract_of : String → String → String → ContractDiscovered
contract_of id session_id expiry = record {
  contract_id = id;
  session_id = session_id;
  expiry = expiry;
  right = "call";
  strike = 100;
  event_time = "1";
  rest = [];
}

abbrev tick_of : String → String → String → OptionTick
tick_of id session_id time = record {
  contract_id = id;
  session_id = session_id;
  event_time = time;
  rest = [];
}

-- The later tick decides for the expiry of contract `b`; `c` is of another session.
abbrev state : CollectorState
state = record {
  state_epoch = "e";
  revision = 1;
  health_events =
      ("h", record { collector_id = "h"; event_time = "1"; received_time = "1"; rest = [] }) ∷ [];
  contracts =
      ("a", contract_of "a" "S" "2026-01-02")
      ∷ ("b", contract_of "b" "S" "2026-01-03")
      ∷ ("c", contract_of "c" "T" "2026-01-03")
      ∷ [];
  underlying_ticks = ("S", record { session_id = "S"; event_time = "2"; rest = [] }) ∷ [];
  option_ticks =
      ("a", tick_of "a" "S" "1") ∷ ("b", tick_of "b" "S" "2") ∷ ("c", tick_of "c" "T" "3") ∷ [];
  last_event_time = some "3";
}

-- A contract that is gone is remembered, and one of another session.
abbrev memory : Memory
memory =
    (record { session_id = "S"; contract_id = "old" }, no_analytics)
    ∷ (record { session_id = "T"; contract_id = "c" }, no_analytics)
    ∷ []

abbrev built : LiveSnapshot
built = record {
  session_id = "S";
  symbol = "SPX";
  expiry = "2026-01-03";
  snapshot_time = "3";
  spot = 100;
  forward = 100;
  discount_factor = 1;
  source_status = record { collector_id = "h"; event_time = "1"; received_time = "1"; rest = [] };
  freshness_ms = 5;
  rows =
      record {
        contract_id = "b";
        right = "call";
        strike = 100;
        custom = record { custom_iv = some 3; custom_gamma = none; custom_vanna = none };
        ibkr_iv = some 2;
        ibkr_gamma = none;
        iv_diff = some 1;
        gamma_diff = none;
        rest = [];
      }
      ∷ [];
}

build_live_snapshot-IsCurrent_example : IsCurrent state (some built)
unfolding build_live_snapshot latest_health latest_underlying_tick max_by max_from str_le lex_le
    build_session active_expiry has get put is_element build_rows live_rows sorted insert live_row
    apply_memory finish prune_memory
build_live_snapshot-IsCurrent_example =
    build_live_snapshot-IsCurrent pricing state none memory (some built) refl

build_live_snapshot-IsPruned_example :
    IsPruned memory (some built) (build_live_snapshot pricing none state memory).1
unfolding build_live_snapshot latest_health latest_underlying_tick max_by max_from str_le lex_le
    build_session active_expiry has get put is_element build_rows live_rows sorted insert live_row
    apply_memory finish prune_memory
build_live_snapshot-IsPruned_example =
    build_live_snapshot-IsPruned pricing state none memory (some built) refl
