-- ===== src/Lib.antt =====
-- The reconciler of CodeStorm: the Rust service in matcher/src. It reads payment events of three
-- sources (merchant, gateway, bank), gathers those of one transaction in a window, and when the
-- window is full, or its deadline has come, decides whether the sources agree, stores the verdict in
-- PostgreSQL and publishes it through Redis.
--
-- The parts, and the files that model them:
--   Model       matcher/src/model.rs: Source, Event, Partial (the window), Incident, Invariants
--               (`check_invariants`), Details (`build_details`), Pubsub
--   Error, Config   matcher/src/error.rs, matcher/src/config.rs
--   Exec        a fallible step over a state, as the async methods with `?` are, with the rules of
--               reasoning in Exec/Wp, and in Exec/Keeps those on what a step keeps in any case
--   Redis, Redis/View, Postgres, Codec, Services   what the program stands on: parameters with laws
--   Store       matcher/src/store.rs: RedisStore and PostgresStore, method by method; Stats has
--               `get_matcher_stats`
--   Engine      matcher/src/matcher.rs: `handle_event` is `handle_event`, `handle_claimed`,
--               `handle_duplicate`, `gather` and `settle`; `finalize_window`, `persist_incident` and
--               `cleanup_window` keep their names; Engine/Timers has `handle_timeout` (with
--               `degrade_window`), `process_expired_windows`, `process_expired_escalations` and `tick`
--               (matcher/src/timer.rs); Engine/Parts has the state and matcher/src/publisher.rs;
--               Engine/Lifecycle has an abstract life of the transactions, without clocks, rows and
--               texts, that the handlers refine; Engine/Apart is on what a handler leaves alone;
--               Engine/Startup has `restore_from_redis` and the start (matcher/src/main.rs)
--   Health      matcher/src/main.rs: the health endpoint, from a request to the text of the answer
--   Stream      matcher/src/stream.rs: `consume` is one round of the consumer, `handle_entry` what it
--               does with one entry
--   Runs        the restoration, the entries of the stream and the ticks of matcher/src/timer.rs in
--               sequence, as the relation `Reaches` on the states of the engine
--   Examples    services that never fail, with their laws, and the theorems at concrete data
--
-- How the program is read. Redis, PostgreSQL, serde_json, uuid and the clocks are not in the
-- repository. Each is a record of operations over a state of any kind, and its laws say what an
-- operation replies and what a client sees of the state after it: `Redis/View` has the keys by the
-- type of their value, `Postgres` the tables and what the text of each statement does to them. A
-- failed command may or may not have taken effect. The laws have a parameter `F`, the faults: an
-- error can only come with one, so with `F` empty the theorems are about runs that end well, and
-- none of them says only what holds if a result comes. A theorem `Wp see σ m Q E` says that from
-- every state that is seen as `σ`, the step `m` returns with `Q` or fails with `E`; every step is
-- a total function, so it does end. Where the clock or the reply of a service decides, as in a
-- tick of the timer or in the readiness, `Ensures see Q E (m s)` says so of the step from one
-- state `s`, and `shown_ms sv s` is the time that its clock shows.
--
-- Choices. A `HashMap<Source, PaymentEvent>` is a function of the source; its iteration order is
-- an argument. Identifiers of 128 bits are numbers that are only compared. An i64 is an integer
-- with the wrap-around of a release build written out (`wrap_i64`), also in the sum of the
-- latencies. The processing time is kept in whole microseconds where the source divides by 1000.0
-- to an f64. The descriptions of incidents are constructors with the values that the source
-- formats into its texts. Redis keys are constructors for the prefixes of the source. Columns
-- filled by NOW() are left out. No key expires while a handler runs, and none between the handlers
-- of a list in the theorems on the abstract life; `elapse` says what time does between two steps
-- elsewhere. Handlers run one at a time, and the tasks that the timer spawns run in the order of
-- their list; the limit of 50 tasks at a time and the log lines have no part in the result.
-- `record_event_processed` takes the text of the time from its caller. The loops over lists are
-- structural recursion. Only the scan of the saved windows, which goes on until Redis replies with
-- the cursor 0, takes fuel: its law lists the pages that are still to come, and as much fuel as
-- there are pages is enough. The percentage in the statistics, which the source takes of an f64,
-- is an argument.
--
-- The abstract life (Engine/Lifecycle) has `arrive` for an event and `expire` for a deadline, and
-- `life` reads it off what is seen of the engine: a claim is a taken id, a registered source one that
-- has reported, the events of a window in memory wait, and the status of a row is what became of the
-- transaction.
--
-- Not modelled: the waiting after a failed read of the stream, logging, migrations, connecting to the
-- servers, reading the environment, the sockets of the health endpoint, and the waiting for the tasks
-- at the end of `main`. The services in Go and the frontend are other programs.
pub mod Prelude
pub mod Model
pub mod Error
pub mod Config
pub mod Exec
pub mod Redis
pub mod Postgres
pub mod Codec
pub mod Store
pub mod Services
pub mod Engine
pub mod Stream
pub mod Runs
pub mod Health
pub mod Examples
