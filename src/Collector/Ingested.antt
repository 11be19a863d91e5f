-- ===== src/Collector/Ingested.antt =====
-- What the collector's state holds after a sequence of events.
use gamma_scope.Prelude.{
  ◌+◌, String, string_eq, ◌≡◌, refl, ap, ◌∙◌, false, Option, some, List, [], ◌∷◌, ◌==◌, length,
  arith, if◌then◌else◌,
}
use gamma_scope.Prelude.Dict.{get, get-put}
use gamma_scope.Collector.State.{
  OptionTick, Event, health, contract, underlying, option, CollectorState, ingest, snapshot,
  from_snapshot,
}

unfoldable pub ingest_all : List Event → CollectorState → CollectorState
unfolding ingest
ingest_all [] s = s
ingest_all (e ∷ events) s = ingest_all events (ingest e s).1

-- The last tick of a contract among the events, or else what was known.
unfoldable pub last_tick : String → List Event → Option OptionTick → Option OptionTick
last_tick k [] known = known
last_tick k (option e ∷ events) known =
    last_tick k events (if e.contract_id == k then some e else known)
last_tick k (health e ∷ events) known = last_tick k events known
last_tick k (contract e ∷ events) known = last_tick k events known
last_tick k (underlying e ∷ events) known = last_tick k events known

-- After any events, the tick that is known of a contract is the last one that came, and the
-- revision has counted the events.
pub ingest_all_ticks :
    (events : List Event) (s : CollectorState) (k : String)
    → (get k (ingest_all events s).option_ticks ≡ last_tick k events (get k s.option_ticks))
      × ((ingest_all events s).revision ≡ s.revision + length events)
unfolding ingest_all ingest last_tick
ingest_all_ticks [] s k = (refl, omega arith)
ingest_all_ticks (option e ∷ events) s k =
    let ih = ingest_all_ticks events (ingest (option e) s).1 k in
    (ih.0 ∙ ap (last_tick k events) (get-put e.contract_id k e s.option_ticks), omega (arith, ih.1))
ingest_all_ticks (health e ∷ events) s k =
    let ih = ingest_all_ticks events (ingest (health e) s).1 k in (ih.0, omega (arith, ih.1))
ingest_all_ticks (contract e ∷ events) s k =
    let ih = ingest_all_ticks events (ingest (contract e) s).1 k in (ih.0, omega (arith, ih.1))
ingest_all_ticks (underlying e ∷ events) s k =
    let ih = ingest_all_ticks events (ingest (underlying e) s).1 k in (ih.0, omega (arith, ih.1))

-- A state is restored from its own snapshot, if its epoch is not empty.
pub from_snapshot-snapshot :
    (uuid : String) (s : CollectorState)
    → (s.state_epoch == "") ≡ false
    → from_snapshot uuid (snapshot s) ≡ s
unfolding from_snapshot snapshot
from_snapshot-snapshot uuid s h = rw h refl
