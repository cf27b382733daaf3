-- ===== src/StatServer.antt =====
-- statserver/statserver.go: the handlers of the probes, over the status of appstatus/appstatus.go, and
-- how the server ends. An error is a number.
pub mod Probes
mod Tests
use goblocks.Prelude.Eq.{◌==◌, nat_eq, int_eq, string_eq}
use goblocks.Prelude.Map
use goblocks.Prelude.Map.{Map}
use goblocks.Prelude.{ℕ, String, Option, none, some, if◌then◌else◌}
use goblocks.AppStatus.{StatusReporter, is_ready, is_alive}

-- ReadyHandler, by the status code that it sends
pub ready_handler : StatusReporter → ℕ
ready_handler s = if is_ready s then 200 else 500

-- AliveHandler
pub alive_handler : StatusReporter → ℕ
alive_handler s = if is_alive s then 200 else 500

-- What the router of New does with the path of a GET: a handler's status code, or the handler of the
-- metrics, or no handler.
pub data Served : Type 0 where
  code : ℕ → Served
  metrics not_found : Served

-- New's router
pub serve : StatusReporter → String → Served
unfolding ready_handler alive_handler
serve s path =
    if path == "/ready"
    then code (ready_handler s)
    else if path == "/alive"
    then code (alive_handler s)
    else if path == "/metrics"
    then metrics
    else not_found

-- How ListenAndServe ends.
pub data ServeEnd : Type 0 where
  server_closed : ServeEnd
  serve_failed : ℕ → ServeEnd

pub data StatError : Type 0 where
  failed_to_start failed_to_shutdown : ℕ → StatError
  -- the error of http.Server's Shutdown, as it is
  shutdown_error : ℕ → StatError

-- What Run's select receives first.
pub data Received : Type 0 where
  -- the context is done; the result of Shutdown
  done : Option ℕ → Received
  ended : ServeEnd → Received

-- Run
pub run_server : Received → Option StatError
run_server (done none) = none
run_server (done (some e)) = some (shutdown_error e)
run_server (ended server_closed) = none
run_server (ended (serve_failed e)) = some (failed_to_start e)

-- Shutdown, from the result of http.Server's Shutdown
pub shutdown : Option ℕ → Option StatError
shutdown none = none
shutdown (some e) = some (failed_to_shutdown e)
