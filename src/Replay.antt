-- ===== src/Replay.antt =====
-- apps/api/gammascope_api/replay: import of recorded sessions and their storage.
pub mod Effects
pub mod Tables
pub mod Columns
pub mod Imports
pub mod Publish
pub mod Machine
pub mod Queries
pub mod Importer
pub mod Reader
pub mod ImportFlow
pub mod Examples
