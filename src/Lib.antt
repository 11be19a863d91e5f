-- ===== src/Lib.antt =====
-- GammaScope: the replay imports, the live captures, the collector's state, the live snapshots,
-- the stored heatmaps and the saved views of the API.
--
-- The API (apps/api/gammascope_api) keeps several stores. Uploaded parquet files become replay
-- sessions: replay/importer.py takes an upload through its states, and
-- replay/import_repository.py keeps the import's row, publishes its snapshots and quotes, and
-- answers the queries of a replay. Live snapshots are captured as further sessions by
-- replay/capture.py into replay/repository.py, and maintenance/retention.py deletes old ones.
-- The latest events of the collectors live in ingestion/collector_state.py, with a copy in
-- ingestion/latest_state_cache.py; ingestion/live_snapshot.py builds a live snapshot from them,
-- and remembers the analytics of its rows. heatmap/repository.py keeps the open interest that the
-- exposures are computed from, locked from 9:25 in New York on, and the latest heatmap of every
-- five minutes; heatmap/service.py builds a heatmap over it. saved_views/repository.py keeps the
-- views of the users. One collector selects its strikes and cuts its requests.
--
-- Files:
--   Prelude          lists, tests, orders, sorting, Python's dict as an association list, and what a
--                    deletion leaves (Deleted)
--   Replay/Effects   exceptions, a method in one transaction (Tx: commit or roll back), and a
--                    sequence of transactions (Exec: what was committed stays)
--   Replay/Tables    the tables, and the records of replay/parquet_reader.py
--   Replay/Columns   what the columns of replay_imports can hold; Heatmap/Columns the same for the
--                    baselines
--   Replay/Imports   create_import, save_*, mark_*, _transition of replay/import_repository.py
--   Replay/Publish   publish_import; Batches and Rows about its loops and its whole effect
--   Replay/Queries   the queries; Nearest and Groups about two of them
--   Replay/Machine   every sequence of repository calls, against a diagram of states
--   Replay/Importer  the results and summaries of replay/importer.py
--   Replay/ImportFlow create_import, confirm_import, cancel_import of replay/importer.py; Steps,
--                    SessionId, Attempt, Create, Confirm and Cancel about how they end
--   Replay/Reader    replay/parquet_reader.py: Values (one value), Rules (the checks of a row),
--                    Limiter, Normalize (records), Scan (the quotes), Read and Pair
--                    (read_replay_parquet_pair); Checked, Normalized, NormalizedQuote,
--                    SnapshotRows, SnapshotMap, QuoteScan, Counts and Contract about what it
--                    returns, Flow about the import flow over it
--   Capture/Store    PostgresReplayRepository of replay/repository.py; Refresh, Summed and Calls
--                    about the session rows, Cleaned about the cleanup
--   Capture/Recorder replay/capture.py; Spacing and Placed about it; Capture/Retention
--                    maintenance/retention.py
--   Collector/State  ingestion/collector_state.py; Collector/Cache ingestion/latest_state_cache.py
--   Live             ingestion/live_snapshot.py: Remembered (the analytics memory) and Build;
--                    Active and Rows about the rows, Kept and Pruned about the memory
--   Heatmap          heatmap/repository.py: Records, Memory and Postgres (the baselines in both
--                    repositories), Payload, Moments and Snapshots (the stored heatmaps in
--                    PostgreSQL); Agreement, Listed and Locked about the baselines, Linked, Written
--                    and Latest about the heatmaps; Service for heatmap/service.py and Unavailable
--                    about it
--   Views            saved_views/repository.py: Store (saving, listing, deletion, cleanup);
--                    Refined and Listed about it
--   Moomoo/Chunks    chunked of services/collector/gammascope_collector/moomoo_config.py; Bounds
--                    about it; Moomoo/Strikes select_atm_strikes of moomoo_snapshot.py beside it
--
-- A repository method of the source opens one connection, which commits at its end and rolls back
-- on an exception; here it is a function from the tables to a result that carries new tables only
-- when it returns. A table with a primary key is a dictionary; a second row under a key is a
-- unique violation. A value that a column of replay_imports or heatmap_oi_baselines does not take (an
-- INTEGER out of range, NUL in TEXT or JSONB, a DATE that is no ISO date) is refused with a DataError;
-- the other tables are given values that fit. A lost connection is not modelled. SQL's ORDER BY is a stable sort by a total order, and LIMIT 1 its first row.
-- Instants are microseconds in UTC since datetime.min, 0001-01-01; what Python takes before it is an
-- OverflowError. A DOUBLE PRECISION column is only stored, as its bits.
-- Datetimes, repr, lower and SHA-256 of Python's library are the fields of a record Platform, and
-- the theorems on captures rely on a formatted datetime parsing back to itself. What the parquet
-- reader takes from that library (str, repr, strip, float, int, regular expressions, datetimes) is
-- a record Library; the rows that pyarrow reads, or the error it raises, are the record
-- ParquetPair, the same each time a file is opened. A float is its bits, the two zeros being one.
-- What the archive gives for an upload is an argument of the import flow, and what
-- build_live_snapshot gives is one of the captures. The pricing of a live snapshot (analytics/, in
-- floating point) and its clock are a record Pricing. Strikes that a collector selects are of any
-- type with a total order. The rows and nodes of a heatmap, which its service takes from
-- heatmap/exposure.py and heatmap/nodes.py, are a field of a record Heatmaps.
-- Every loop is a recursion on a list or on the stream of quotes, but for the slices of chunked,
-- whose fuel is the number of items: each slice takes one at least.
--
-- A time of day in New York is an argument of the heatmaps' definitions. A date column holds the
-- ISO text of a date, and the next value of a sequence is an argument where it is drawn.
--
-- Not modelled: the analytics and the heatmaps' exposures (floating point), the cache of live
-- snapshots, the heatmaps in memory, the archive's files, the collectors, the HTTP routes, the web
-- application, Redis and the schema's migrations.
pub mod Prelude
pub mod Replay
pub mod Capture
pub mod Collector
pub mod Moomoo
pub mod Heatmap
pub mod Live
pub mod Views
