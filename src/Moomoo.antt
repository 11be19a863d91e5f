-- ===== src/Moomoo.antt =====
-- services/collector/gammascope_collector: the requests of moomoo_config.py and the strikes of
-- moomoo_snapshot.py.
pub mod Chunks
pub mod Bounds
pub mod Strikes
pub mod Examples
