-- ===== src/Collector/State.antt =====
-- ingestion/collector_state.py: `CollectorState`. An event is the dictionary that pydantic dumps:
-- the keys that the code reads are fields, times are texts. Values are not shared, so `deepcopy`
-- is left out. `uuid` is what `uuid4().hex` returns.
use gamma_scope.Prelude.{
  ℕ, ◌+◌, String, string_eq, Option, none, some, [], ◌==◌, length, keep, if◌then◌else◌,
}
use gamma_scope.Prelude.Order.{str_ord}
use gamma_scope.Prelude.Sort.{max_by}
use gamma_scope.Prelude.Dict.{Dict, values, put}
use gamma_scope.Replay.Tables.{Json}

pub record CollectorHealth : Type 0 where
  pub collector_id : String
  pub event_time : String
  pub received_time : String
  pub rest : Dict String Json

-- A strike is positive, so the bits of its value are in the order of the values.
pub record ContractDiscovered : Type 0 where
  pub contract_id : String
  pub session_id : String
  pub expiry : String
  pub right : String
  pub strike : ℕ
  pub event_time : String
  pub rest : Dict String Json

pub record UnderlyingTick : Type 0 where
  pub session_id : String
  pub event_time : String
  pub rest : Dict String Json

pub record OptionTick : Type 0 where
  pub contract_id : String
  pub session_id : String
  pub event_time : String
  pub rest : Dict String Json

pub data Event : Type 0 where
  health : CollectorHealth → Event
  contract : ContractDiscovered → Event
  underlying : UnderlyingTick → Event
  option : OptionTick → Event

pub record CollectorState : Type 0 where
  pub state_epoch : String
  pub revision : ℕ
  pub health_events : Dict String CollectorHealth
  pub contracts : Dict String ContractDiscovered
  pub underlying_ticks : Dict String UnderlyingTick
  pub option_ticks : Dict String OptionTick
  pub last_event_time : Option String

-- `clear`
unfoldable pub cleared : String → CollectorState
cleared uuid = record {
  state_epoch = uuid;
  revision = 0;
  health_events = [];
  contracts = [];
  underlying_ticks = [];
  option_ticks = [];
  last_event_time = none;
}

abbrev pub time_of : Event → String
time_of (health e) = e.event_time
time_of (contract e) = e.event_time
time_of (underlying e) = e.event_time
time_of (option e) = e.event_time

-- The `isinstance` chain of `ingest`.
abbrev pub stored : Event → CollectorState → CollectorState
stored (health e) s = record s { health_events = put e.collector_id e s.health_events }
stored (contract e) s = record s { contracts = put e.contract_id e s.contracts }
stored (underlying e) s = record s { underlying_ticks = put e.session_id e s.underlying_ticks }
stored (option e) s = record s { option_ticks = put e.contract_id e s.option_ticks }

abbrev pub event_type : Event → String
event_type (health e) = "CollectorHealth"
event_type (contract e) = "ContractDiscovered"
event_type (underlying e) = "UnderlyingTick"
event_type (option e) = "OptionTick"

-- `ingest`, with the type name that it returns.
unfoldable pub ingest : Event → CollectorState → String × CollectorState
ingest e s =
    let s' = stored e s in
    (event_type e, record s' { revision = s'.revision + 1; last_event_time = some (time_of e) })

unfoldable pub latest_health : CollectorState → Option CollectorHealth
latest_health s = max_by str_ord (λ e. e.received_time) (values s.health_events)

abbrev pub ticks_of : Option String → Dict String UnderlyingTick → Dict String UnderlyingTick
ticks_of none ticks = ticks
ticks_of (some session_id) ticks = keep (λ e. e.0 == session_id) ticks

unfoldable pub latest_underlying_tick : Option String → CollectorState → Option UnderlyingTick
latest_underlying_tick session_id s =
    max_by str_ord (λ e. e.event_time) (values (ticks_of session_id s.underlying_ticks))

pub record StateSummary : Type 0 where
  pub state_epoch : String
  pub revision : ℕ
  pub health_events_count : ℕ
  pub contracts_count : ℕ
  pub underlying_ticks_count : ℕ
  pub option_ticks_count : ℕ
  pub last_event_time : Option String
  pub latest_health : Option CollectorHealth

unfoldable pub summary : CollectorState → StateSummary
unfolding latest_health
summary s = record {
  state_epoch = s.state_epoch;
  revision = s.revision;
  health_events_count = length s.health_events;
  contracts_count = length s.contracts;
  underlying_ticks_count = length s.underlying_ticks;
  option_ticks_count = length s.option_ticks;
  last_event_time = s.last_event_time;
  latest_health = latest_health s;
}

-- A dictionary that `snapshot` made, or one with missing keys.
pub record StateSnapshot : Type 0 where
  pub state_epoch : Option String
  pub revision : Option ℕ
  pub health_events : Option (Dict String CollectorHealth)
  pub contracts : Option (Dict String ContractDiscovered)
  pub underlying_ticks : Option (Dict String UnderlyingTick)
  pub option_ticks : Option (Dict String OptionTick)
  pub last_event_time : Option String

unfoldable pub snapshot : CollectorState → StateSnapshot
snapshot s = record {
  state_epoch = some s.state_epoch;
  revision = some s.revision;
  health_events = some s.health_events;
  contracts = some s.contracts;
  underlying_ticks = some s.underlying_ticks;
  option_ticks = some s.option_ticks;
  last_event_time = s.last_event_time;
}

-- `snapshot.get(key, default)`
abbrev pub or_else {ℓ} : {A : Type ℓ} → A → Option A → A
or_else default none = default
or_else default (some a) = a

-- `text or default`
abbrev pub text_or : String → Option String → String
text_or default none = default
text_or default (some s) = if s == "" then default else s

-- `from_snapshot`
unfoldable pub from_snapshot : String → StateSnapshot → CollectorState
from_snapshot uuid d = record {
  state_epoch = text_or uuid d.state_epoch;
  revision = or_else 0 d.revision;
  health_events = or_else [] d.health_events;
  contracts = or_else [] d.contracts;
  underlying_ticks = or_else [] d.underlying_ticks;
  option_ticks = or_else [] d.option_ticks;
  last_event_time = d.last_event_time;
}
