-- ===== src/Collector/Cache.antt =====
-- ingestion/latest_state_cache.py: the copy of the collector's state that outlives the process, and
-- the choice between it and the state in memory.
use gamma_scope.Prelude.{
  ℕ, ◌+◌, String, string_eq, Bool, true, false, not, Option, none, some, List, [], ◌==◌, ltb,
  nat_beq, length, if◌then◌else◌,
}
use gamma_scope.Prelude.Order.{str_le}
use gamma_scope.Replay.Effects.{Result, ok, err, Platform}
use gamma_scope.Collector.State.{CollectorState, StateSnapshot, snapshot, from_snapshot, or_else}

-- `InMemoryLatestStateCache`
abbrev pub StateCache : Type 0
StateCache = Option StateSnapshot

abbrev pub set_cache : StateSnapshot → StateCache → StateCache
set_cache d cache = some d

abbrev pub clear_cache : StateCache → StateCache
clear_cache cache = none

-- `persist_latest_state`: the cache's `set` may raise, which is ignored.
unfoldable pub persist_latest_state :
    (StateSnapshot → StateCache → Result StateCache) → CollectorState → StateCache → StateCache
unfolding snapshot
persist_latest_state set s cache = elim (set (snapshot s) cache) [
  | ok cache' ↦ cache'
  | err e ↦ cache
]

abbrev pub size_of {ℓ} : {A : Type ℓ} → Option (List A) → ℕ
size_of d = length (or_else [] d)

-- `_state_richness_score`
unfoldable pub richness : StateSnapshot → ℕ
richness d =
    size_of d.health_events
    + size_of d.contracts
    + size_of d.underlying_ticks
    + size_of d.option_ticks

-- `str(a) > str(b)`
abbrev pub is_greater : String → String → Bool
is_greater a b = not (str_le a b)

abbrev pub later_time : Bool → String → String → Option ℕ → Option ℕ → Bool
later_time richer a b (some at) (some bt) = if nat_beq at bt then richer else ltb bt at
later_time richer a b _ _ = if a == b then richer else is_greater a b

abbrev pub later : Platform → Bool → Option String → Option String → Bool
later p richer none cached = false
later p richer (some a) none = true
later p richer (some a) (some b) = later_time richer a b (p.parse_datetime a) (p.parse_datetime b)

-- `_memory_state_is_fresher`
unfoldable pub memory_state_is_fresher : Platform → StateSnapshot → StateSnapshot → Bool
unfolding richness
memory_state_is_fresher p memory cached =
    later p (ltb (richness cached) (richness memory)) memory.last_event_time cached.last_event_time

abbrev pub chosen : Platform → String → CollectorState → StateCache → CollectorState
chosen p uuid memory none = memory
chosen p uuid memory (some cached) =
    if not (memory_state_is_fresher p (snapshot memory) cached)
    then from_snapshot uuid cached
    else memory

abbrev pub or_nothing : Result StateCache → StateCache
or_nothing (ok cache) = cache
or_nothing (err e) = none

-- `cached_or_memory_collector_state`, with what the cache's `get` returned or raised.
unfoldable pub cached_or_memory_collector_state :
    Platform → String → CollectorState → Result StateCache → CollectorState
unfolding memory_state_is_fresher
cached_or_memory_collector_state p uuid memory got = chosen p uuid memory (or_nothing got)
