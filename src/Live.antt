-- ===== src/Live.antt =====
-- ingestion/live_snapshot.py: a live snapshot is built from the collector's state.
pub mod Remembered
pub mod Build
pub mod Active
pub mod Rows
pub mod Kept
pub mod Pruned
pub mod Examples
