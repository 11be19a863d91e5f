-- ===== src/Replay/Reader.antt =====
-- replay/parquet_reader.py: two parquet files are read, checked and normalised to replay records.
pub mod Values
pub mod Reports
pub mod Limiter
pub mod Rules
pub mod Normalize
pub mod Scan
pub mod Read
pub mod Pair
pub mod Checked
pub mod Normalized
pub mod NormalizedQuote
pub mod SnapshotRows
pub mod SnapshotMap
pub mod QuoteScan
pub mod Contract
pub mod Counts
pub mod Flow
pub mod Examples
