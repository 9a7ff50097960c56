-- ===== src/Lib.antt =====
-- Verification of mybro: an HTTP proxy in Rust that spreads OpenAI and Anthropic requests over several
-- keys of one upstream.
--
-- A request that is authorized passes the concurrency gate, is matched to a session by the fingerprint
-- of its conversation, and gets the session's key from the key pool or another usable one. Its payload
-- is changed for the model it asks for (reasoning, tools, images), and it is sent to the upstream. The
-- pipelines report to the pool which keys failed and which worked, read the token usage off the response
-- or its stream, and hand one record to the statistics, which keep it in memory and pass a copy on to the
-- database's task. The usage of the account and the concurrency it allows are fetched from the upstream and
-- cached. The endpoints show all of this to the dashboard.
--
-- Files and what they model:
--   * KeyPool (src/keypool.rs): the pool behind its mutex, one function per method. KeyPool/Scan is the
--     round-robin loop, KeyPool/Acquire the outcomes of a call, KeyPool/Rotation repeated calls,
--     KeyPool/Cooldown failures and the health report.
--   * Config (src/config.rs): the configuration, its defaults, the environment, and validation. Config/Mask
--     is the masking of a key, Config/Duration the parsing of durations, Config/Parsing is about it.
--   * Access (src/routes/mod.rs): authorization, the key of the program's own calls, error bodies.
--   * Admin (src/routes/keys_api.rs, src/routes/config_api.rs, the pool's start in src/main.rs): updates of
--     the configuration with their effects. Admin/Sync has them as three moves (load, store, rebuild)
--     among those of other updates and the calls on the pool,
--     Admin/Override is about the limit of the gate.
--   * Catalog (src/catalog.rs): the upstream's models and the names for them (Catalog/Names).
--   * Gate (src/gate.rs): requests as tasks that make one atomic operation at a time, in any order, with
--     cancellations and resizes (Gate/System); tokio's semaphore is an interface (Gate/Permits).
--   * Sessions (src/sessions.rs) and HandoffCache (src/handoff_cache.rs): maps over the crate lru, whose
--     operations and promises are the interface Lru; Lru/Lists implements it with lists.
--   * Concurrency (src/usage.rs): the reading of the upstream's usage, its caches and the limit in effect.
--   * UsageParse (src/usage_parse.rs): token usage from JSON bodies and event streams, over the JSON values
--     of Json; the parser of serde_json is a parameter.
--   * Routes (src/routes/): the shared parts of the handlers. Routes/Chat is the retry loop of
--     src/routes/chat.rs, Routes/Messages the upstream call of src/routes/messages.rs, Routes/Stream the
--     streamed responses of src/routes/stream.rs. What a handler does is a list of effects, which
--     Routes/Trace reads; Routes/Rounds, Routes/Retry and Routes/Switch are about the loop.
--   * Intake (src/routes/chat.rs, src/routes/messages.rs): both pipelines up to the upstream call, out of
--     the operations of Access, KeyPool, Sessions, Payload, SchemaNorm, Catalog and Vision.
--     Intake/Delivered is about when a request is sent, Intake/Guard about what has to hold for one to
--     be sent, Intake/Assigned about the key of a conversation, Intake/Fields, Intake/Model and
--     Intake/Sent about the payload that is sent.
--   * Payload (src/payload.rs): changes of a request's JSON and the fingerprint of its conversation;
--     Payload/Images limits the images (Payload/Order and Payload/Limit are about it), Payload/Prompt has
--     the prompt for the log and the thinking.
--   * Vision (src/vision.rs): the images of a request; Vision/Handoff has their analyses, which run side by
--     side, and the replacement, Vision/Reuse is about the cache.
--   * SchemaNorm (src/schema_norm.rs): the schemas of tools, over Json.
--   * Stats (src/stats.rs): the ring buffer and the summary; Stats/Series is the time buckets,
--     Stats/Percentiles their averages and the choice between memory and database (Stats/Panics is about
--     it), Stats/Tokens the tokens by key.
--   * Database (src/db.rs): the table of requests as rows, with the reading of typed columns;
--     Database/Buckets and Database/Figures are the queries, each statement as a function on rows,
--     Database/Writer is the task between the channel and the table, Database/Migrations the migrations.
--   * Endpoints (src/routes/): the endpoints that show state. Endpoints/Models is
--     src/routes/models_api.rs, Endpoints/Usage src/routes/usage_api.rs, Endpoints/Stats
--     src/routes/stats_api.rs over Stats and Database, Endpoints/Status src/routes/healthz.rs and the
--     gate's endpoint.
--   * ErrorLog (src/errlog.rs): redaction (ErrorLog/Redacted is about it).
--   * Upstream (src/upstream.rs): the requests that are given to reqwest; Upstream/Urls is about their base.
--   * Startup (src/main.rs): the command line, the first catalog, the sizing of the gate, and the search for
--     a port (Startup/Binding).
--   * MockUpstream (src/mock_upstream.rs): the server for local tests, its options, documents and answers
--     (MockUpstream/Chat); MockUpstream/Pauses is about its pauses.
--   * Persistence (src/persist.rs): the task that writes the configuration (Persistence/Saved is about the file).
--   * Prelude: lists and texts over the native numbers, and bytes as UTF-8.
--
-- Conventions: a method that locks is one step, its state explicit. Clocks are arguments, in
-- nanoseconds where the source has an Instant or a Duration. 64-bit counters and sums wrap as in a
-- release build and are written with their modulus; numbers of records in the statistics are not, since there
-- are at most 10,000. A panic is `none`.
--
-- Bounds and fuel: the scan of the pool takes as many rounds as there are keys; the accumulator of
-- streams takes at most one round for each byte of its buffer; the eviction of sessions at most one
-- for each session; the search for a port four rounds for each port in use;
-- the retry loop ten, and the normalization of a schema depth 12, as in the source.
--
-- Not modelled: reqwest, tokio, axum, serde_json, md5, sha2, subtle, lru and SQLite (parameters or
-- interfaces where they are used; of SQLite the statements' meaning on rows is written out); the writing of
-- the error log and of the configuration's file, the dashboard and its wallpapers, and
-- telemetry, which are I/O; the order in which a statement returns rows that it does not sort.
mod Prelude
pub mod Json
pub mod Config
pub mod KeyPool
pub mod Gate
pub mod UsageParse
pub mod Vision
pub mod Stats
pub mod Access
pub mod Admin
pub mod Catalog
pub mod Concurrency
pub mod Lru
pub mod Payload
pub mod SchemaNorm
pub mod Sessions
pub mod HandoffCache
pub mod Routes
pub mod Intake
pub mod Database
pub mod Endpoints
pub mod ErrorLog
pub mod Upstream
pub mod Startup
pub mod MockUpstream
pub mod Persistence
