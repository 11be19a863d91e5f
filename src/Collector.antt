-- ===== src/Collector.antt =====
-- ingestion/collector_state.py and ingestion/latest_state_cache.py: the latest events of the
-- collectors in memory, their copy in a cache, and the choice between the two.
pub mod State
pub mod Cache
pub mod Ingested
pub mod Freshness
pub mod Examples
