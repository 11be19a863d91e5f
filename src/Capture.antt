-- ===== src/Capture.antt =====
-- The captures of live snapshots: replay/repository.py (the tables and their queries),
-- replay/capture.py (what is captured, and when) and maintenance/retention.py (what is deleted).
pub mod Store
pub mod Recorder
pub mod Retention
pub mod Examples
