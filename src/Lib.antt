-- ===== src/Lib.antt =====
-- goblocks: building blocks of a Go service, each a package of its own that an application wires
-- together.
--
-- The program's parts and the files that model them:
--
-- - LimitMap: limitmap/limitmap.go. `LimitMap` is the map of counters; `inc`, `dec` and `value` are
--   Inc, Dec and Value.
-- - AppStatus: appstatus/appstatus.go. `StatusReporter` holds liveness and the services' readiness;
--   a service reporter's Ready, NotReady and Dead are calls on it.
-- - ConnCount: conncount/transport.go. The counting transport, with the atomic add, the load and the
--   callback of each goroutine as steps of their own.
-- - MemCache: cache/memcache/memcache.go. `get_value`, `set`, `del`, `cleanup`, `evict` and `stale`
--   are Get, Set, Del, Cleanup, evict and stale.
-- - ContainerManager: containermanager/containers.go. Registry has the map of containers and its
--   methods, Limits the resource limits, Stream the reading of the output, Execute the run of a
--   command, with the tasks it starts, Create the creation of a container, Find the lookup of
--   containers and images. Execute and Create call Registry and Limits. Sharing has goroutines that
--   execute, end, create and stop in any order, as a relation between the states.
-- - Logger: log/logger.go. Fields, and the one-line mode with `log` and `flush`; Convert has their
--   conversion for zap, and Construct has New, the levels and the logger in a context.
-- - HttpServer: httpserver/connection_watcher.go in Connections; httpserver/middleware.go,
--   httpreply/common.go, apiauth/token/token.go and safetyWrappers of httpserver/http.go in Middleware;
--   the rest of httpserver/middleware.go with httpserver/metrics.go in Instrumentation, whose Flushed
--   has the request's log as calls of Logger; httpserver/config.go, httpserver/tls.go and the
--   fallible part of NewServer in Listener; Run and HandleFunc in Server; the handler of the server,
--   from the chain over the router to the handler of a service, in Serving. The connection limiter
--   reads the watcher's count, and Instrumentation replies with Middleware.
-- - Retry: retry/retry.go. `run` is Run, `calc_sleep_time` is calcSleepTime.
-- - Telegram: telegram/telegram.go, telegram/message.go and telegram/types.go. Messages, buttons,
--   callbacks and the webhook; Transport has Run and the HTTP request of send.
-- - Migrator: dbase/migrator.go. `migrate` is Migrate, `process_files_in` is processFilesIn with its
--   sort and its two loops, `apply_migration` is applyMigration with its transaction.
-- - Conftool: conftool/conftool.go. Fields has a struct as a tree of fields with their tags, and
--   `defs_and_reqs`, defsAndReqs; EnvVars has `parse_env_vars`, ParseEnvVars, and ReadFromFile.
-- - File: file/file.go over a map of paths, with str/str.go in Normal; Www: www/www.go, downloads into File's file system;
--   DbCache: cache/dbcache/dbcache.go, whose `get_url` and `get_content` call Www and a table; Steps
--   has the calls and the attempts of the delayed downloads in any order.
-- - Mailer: mailer/mailer.go. `send_mail_html` is SendMailHTML.
-- - Dbase: dbase/constructor.go. `new` is New, with the loop that opens the pool.
-- - Postgres: dbase/postgresql/impl.go. `begin_transaction`, `commit` and `rollback` are
--   BeginTransaction, Commit and Rollback of a handle.
-- - StatServer: statserver/statserver.go, the probes over AppStatus.
-- - App: app/app.go and app/config_reader.go. Config reads the configuration with Conftool, Services
--   registers services and their handlers, Routes gives the handlers to HttpServer's Server, Startup
--   makes the services with AppStatus's reporters, Boot is Run up to runEverything, with Config,
--   Conftool's environment variables, HttpServer's Listener and Startup.
-- - Factorial: examples/factorial/factorial.go. `factorial_handler` is a handler of HttpServer's
--   Serving.
-- - Prelude: what the parts share: signed integers over the native numbers, lists measured by them,
--   equality tests, maps, texts as lists of bytes.
--
-- State is passed explicitly; a Go map is an association list. A method that holds its lock for its
-- whole body is one step, so the goroutines' calls are a sequence in some order. Errors are values,
-- and a panic of the runtime is one too. What the standard library, Docker, zap, Telegram or the
-- clock answer is an argument: a function, or a record of functions.
--
-- Bounds and fuel: Go's int and int64 are unbounded integers, whose wrap-around at 2^63 no modelled
-- counter reaches; the uint64 counters of the container statistics wrap at 2^64. The eviction loop
-- of the cache has one round of fuel more than there are entries, and each round removes one. A
-- payload of the output stream has as much fuel as bytes, and each read takes one at least; the
-- stream has a round of fuel for each frame and one for its end. The retry loop has one round more
-- than the allowed number of attempts. The wait for a container, the replacement of variables in
-- ParseEnvVars and the search for a random file name have no bound in the code: their rounds are an
-- argument, with `none` when they do not suffice. The seven delays of a delayed download are its
-- rounds.
--
-- Not modelled: the error group of runEverything with its goroutines and signals, of which the result
-- of Wait is a parameter; the serving of HTTP by net/http, printing the configuration, the parsing of the
-- command line, the making of the metrics registry, and Mkdir, Rmdir, Move and
-- URLFileExtension of file, which only call the standard library; sentry, metrics, the matching of
-- routes, and clocks. Most of them are calls of third-party packages. What a handler logs itself is
-- not modelled, nor are the locks that a callback of a Telegram button would find taken.
pub mod Prelude
pub mod LimitMap
pub mod AppStatus
pub mod ConnCount
pub mod MemCache
pub mod ContainerManager
pub mod Logger
pub mod HttpServer
pub mod Retry
pub mod Telegram
pub mod Migrator
pub mod Conftool
pub mod Factorial
pub mod File
pub mod Www
pub mod DbCache
pub mod Postgres
pub mod Dbase
pub mod Mailer
pub mod StatServer
pub mod App
