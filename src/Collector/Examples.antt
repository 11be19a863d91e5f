-- ===== src/Collector/Examples.antt =====
-- The theorems of the collector's state on a few events.
use gamma_scope.Prelude.{
  ℕ, suc, ◌+◌, ◌≤◌, String, string_eq, ◌≡◌, refl, none, some, List, [], ◌∷◌, length,
}
use gamma_scope.Prelude.Dict.{get}
use gamma_scope.Replay.Effects.{ok, Platform}
use gamma_scope.Collector.State.{
  OptionTick, CollectorHealth, Event, health, option, CollectorState, StateSnapshot, snapshot,
  from_snapshot,
}
use gamma_scope.Collector.Cache.{cached_or_memory_collector_state}
use gamma_scope.Collector.Ingested.{ingest_all, last_tick, ingest_all_ticks, from_snapshot-snapshot}
use gamma_scope.Collector.Freshness.{cached_or_memory-NotOlder}

-- Times are written by as many strokes.
abbrev strokes : String → ℕ
strokes String.[] = 0
strokes (String.◌∷◌ c s) = suc (strokes s)

abbrev platform : Platform
platform = record {
  parse_datetime = λ s. some (strokes s);
  format_datetime = λ n. "|";
  repr = λ s. s;
  lower = λ s. s;
  sha256_hex = λ s. s;
}

abbrev tick : String → OptionTick
tick at = record { contract_id = "c"; session_id = "S"; event_time = at; rest = [] }

abbrev beat : CollectorHealth
beat = record { collector_id = "k"; event_time = "|"; received_time = "||"; rest = [] }

abbrev events : List Event
events = option (tick "|") ∷ health beat ∷ option (tick "||") ∷ []

abbrev started : CollectorState
started = record {
  state_epoch = "e";
  revision = 0;
  health_events = [];
  contracts = [];
  underlying_ticks = [];
  option_ticks = [];
  last_event_time = some "|||";
}

abbrev cached : StateSnapshot
cached = record {
  state_epoch = none;
  revision = none;
  health_events = none;
  contracts = none;
  underlying_ticks = none;
  option_ticks = none;
  last_event_time = some "||";
}

ingest_all_ticks_example :
    (get "c" (ingest_all events started).option_ticks
      ≡ last_tick "c" events (get "c" started.option_ticks))
    × ((ingest_all events started).revision ≡ started.revision + length events)
ingest_all_ticks_example = ingest_all_ticks events started "c"

from_snapshot-snapshot_example : from_snapshot "u" (snapshot started) ≡ started
from_snapshot-snapshot_example = from_snapshot-snapshot "u" started refl

cached_or_memory-NotOlder_example :
    (t : String) × (n : ℕ) × ((cached_or_memory_collector_state platform "u" started
        (ok (some cached))).last_event_time
      ≡ some t)
    × (platform.parse_datetime t ≡ some n)
    × (3 ≤ n)
    × (2 ≤ n)
cached_or_memory-NotOlder_example =
    cached_or_memory-NotOlder platform "u" started cached "|||" "||" 3 2 refl refl refl refl
