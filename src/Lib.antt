-- ===== src/Lib.antt =====
-- The Zabbix agent 2 plugin for PostgreSQL, modelled from main.go and plugin/*.go.
--
-- The agent calls `Plugin.Export` with a metric's key and raw parameters. `Export` looks the key up
-- in the table of metrics, evaluates and validates the parameters, builds the identity of a
-- connection, asks the connection manager for one, and runs the handler of the key under a
-- timeout. The manager keeps one connection for each identity, and a housekeeper goroutine closes
-- those that were idle for too long, and all of them on shutdown.
--
-- Parts and files:
--   Prelude, with Tests, Equality, Dict, Integers and Text: shared helpers. A Go map is an
--     association list with each key in one entry; an int64 is an integer with its wrap-around
--     written out; Text holds what the code uses of strconv, strings, path/filepath and
--     encoding/json, and the UTF-8 of a text.
--   Errors: errors as values, errors.Is, and actions that fail. The world that a database changes
--     is a type parameter `W`; an action takes and returns it, also where it fails.
--   Sdk: what comes from golang.zabbix.com/sdk, as a record of parameters.
--   Conn (plugin/conn.go): Time has instants, durations and contexts; Manager has `PGConn`,
--     `ConnManager`, `getConn`, `setConn`, `closeUnused` and `closeAll`; Manager.Schedule has the
--     interleavings of the callers of `GetConnection` with `housekeeper`, one event for each locked
--     section and for each client opened; Manager.Goroutines has the same goroutines with the mutex
--     `connectionsMu`, where taking the lock, a locked body and a turn of a loop are a step each;
--     Query has the four query methods and `getPostgresVersion`; Tls has `renameTLS` and
--     `getTlsDetails`; Dsn has `createDNS`; Create has `createConnID`, `create`, `createClient` and
--     `GetConnection` as one goroutine runs them;
--     NetUrl has net/url's QueryEscape and QueryUnescape, with which Create.Dbname fills the
--     parameter `Url` of Create; Create.Ledger counts the handles that the driver gives out.
--   Client: the interface `PostgresClient`, and the values, rows and scans of database/sql.
--   Handlers (plugin/handler_*.go): Fetch has the steps that they share; Server, Activity,
--     Database, DbStat, Replication, Queries and CustomQuery have the handlers, each with the text of
--     its queries; Outcomes has rules for the errors that a handler can give.
--   Metrics (plugin/metrics.go): Keys, Params, Registry, Dispatch and Validator.
--   Config (plugin/config.go, config_nix.go, config_windows.go): `Configure` and `Validate`.
--   Plugin (plugin/postgresql.go): `Start`, `Stop`, `setCustomQuery` and `Export`. Plugin.Lifetime
--     has the plugin from `Start` to `Stop`, with the housekeeper's sweeps between the calls, and
--     Plugin.Serving a handler that holds a connection while the housekeeper sweeps.
--   TestPool (plugin/testpool.go): the connection that the tests of the handlers share.
--   Main (main.go, `init` of plugin/metrics.go): the steps of the process and its exit codes.
--   Examples: runs of the theorems on concrete values.
--
-- Parameters of the model: the database and its driver (Conn.Query.Sql), the SDK (Sdk,
-- Plugin.MetricSdk, Main.Agent), the environment and sql.Open (TestPool.Outside), the strings
-- that are not valid UTF-8, the storage of custom queries, the decoding of the configuration,
-- the texts of floating-point numbers and times (Client.Values.Formats), and the order in which
-- the runtime visits a map. A hypothesis on one of them is an argument of the theorem that
-- needs it.
--
-- The loops are structural recursion over their lists, and no definition uses fuel. A panic of the
-- code is a result of its own.
--
-- Not modelled: logging, what the SDK does with the flags and with the registered metrics, the
-- ticker's period (a sweep may come at any instant), the dialer inside `createClient`, the
-- functions of *_test.go, and packaging.
-- In Manager.Goroutines the bodies of `getConn` and `setConn` are one step each, under the lock. The
-- readings of the clock are arbitrary: a sweep has one for each connection that it visits. `Close`
-- of a client is one step, although database/sql lets it wait for running queries.
pub mod Prelude
pub mod Errors
pub mod Sdk
pub mod Conn
pub mod Client
pub mod Handlers
pub mod Metrics
pub mod Config
pub mod Plugin
pub mod TestPool
pub mod Main
pub mod Examples
