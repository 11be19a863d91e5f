-- ===== src/Heatmap.antt =====
-- heatmap/: the open interest baselines and the stored heatmaps.
pub mod Steps
pub mod Records
pub mod Columns
pub mod Memory
pub mod Postgres
pub mod Agreement
pub mod Listed
pub mod Locked
pub mod Moments
pub mod Payload
pub mod Snapshots
pub mod Linked
pub mod Written
pub mod Latest
pub mod Examples
pub mod Service
pub mod Unavailable
