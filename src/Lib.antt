-- ===== src/Lib.antt =====
-- partforge moves ClickHouse table parts through a pipeline: parts are cut out of a table, rewritten
-- by workers, compacted in batches, and imported. What has happened to each part is a row of a
-- Postgres table, and every worker, importer and administrator acts on it by one transaction at a
-- time. This development models that table and its transactions.
--
-- - Base: Go strings as lists of bytes, results with errors, lists with tests, weak orders, and
--   `sort.Slice` and `ORDER BY … LIMIT 1` as functions of an order.
--   Base/Scan, Base/Strconv and Base/Paths are the functions of `strings`, `strconv` and `path` that the
--   sources call.
-- - Manifest: internal/manifest/manifest.go. Build has `ResolveClickHouseBuild`, Bundle the manifest of a
--   part with `Validate`, Keys the ids and object keys.
-- - State/Part, State/Row: the struct `Part` of internal/state/postgres.go with its validation, and the
--   columns that `partWriteValues` derives from a part.
-- - State/Table: the rows as a list, and `insertPartTx`, `savePartTx`, `readPartTx` and `updatePart`.
--   A transaction is a function to a new table or an error; an error leaves the table as it was.
-- - State/Rewrite, State/Import, State/Retry: the operations on single parts. Each is a change of a
--   part, by the name of the status that it leads to, under a test of the stored part.
-- - State/Batch, State/Claim, State/Compact: how a worker claims a batch of artifacts, and how it
--   completes, fails or gives it back.
-- - State/Progress, State/Beat: the SQL statements that patch a row in place, of a rewrite and of a
--   compaction.
-- - State/Maintenance: internal/state/maintenance.go, and the deletion of parts.
-- - State/Upkeep: the entry points of the maintenance, with the reservation that spaces its passes.
-- - Insert: how internal/rewrite cuts an insert in chunks (internal/rewrite/insert_chunks.go) and how
--   long it waits before it retries a failing one (internal/rewrite/processor.go).
-- - Resources: internal/resources/tuning.go. Cgroup parses the files of a control group, Host detects the
--   limits of a machine, which is a number of CPUs and a function from paths to contents, and Budget
--   derives the settings of inserts and merges.
-- - Chhttp: quoting and the reading of answers in internal/chhttp/client.go.
-- - Ddl: internal/ddl/ddl.go. A position in a statement is the text that starts there. Scanner has the
--   classes of bytes and the search for keywords, Arguments and Identifiers the two readers, and
--   Statements the rewriting of a statement.
-- - Artifact: the planning of an extraction in internal/artifact/tar.go. Numbers, Header, Pax and Names
--   are the parts of an entry, Plan the loop over the bytes of an archive, and Merge the plan of several.
-- - Rewrite: the wait of internal/rewrite/compactor.go for the merges of an input, its time limits, sums of
--   parts, and the stage tracker of internal/rewrite/processor.go. What each round of polling sees is a
--   list, which ends when the context does.
-- - State/Command, State/Lifecycle: the transactions as one type of commands, and histories.
--   Lifecycle has the graph of statuses, Lifecycle/Permits the changes that each command may make,
--   Lifecycle/Completion the end of a compaction, and Lifecycle/Overrides what an administrator does.
--
-- A time is a number of nanoseconds. Formatting and parsing one are parameters (`Clock`), with what
-- the package `time` documents of them as hypotheses (`IsLawful`). A column of the type
-- `timestamptz` has whole microseconds, to which the database brings what is finer; the model keeps
-- the value as it was written, so it stands for times of whole microseconds. Durations are not
-- clamped at the 292 years of `time.Duration`. Texts are ordered by their bytes, as in the
-- collation C. The rows that other open transactions have locked, which `SKIP LOCKED` passes over,
-- are a parameter of each claim. A `uint64` sum wraps at 2 ^ 64, and so does a compaction
-- generation, which is an `int` as its two's complement; the sums of the type `numeric` in SQL do
-- not. All loops run over lists, but for the loop over the headers of an archive, whose fuel is the
-- number of its blocks and one, and lasts. JSON is taken to read back what it wrote, a map is a
-- list of pairs, and a `float64` is its bit pattern.
--
-- Not modelled: the listings and statistics of the store, its connection and its migrations; the
-- programs that run ClickHouse, S3 copies and archives (the rest of internal/rewrite, internal/chproc,
-- internal/s3copy, the transfers of internal/artifact, internal/chbackup, internal/parts,
-- internal/freeze, the requests of internal/chhttp), the metrics, and the command line (cmd/partforge).
pub mod Base
pub mod Manifest
pub mod State
pub mod Insert
pub mod Resources
pub mod Chhttp
pub mod Ddl
pub mod Artifact
pub mod Rewrite
