-- ===== src/HttpServer/Serving.antt =====
-- httpserver/http.go, NewServer and HandleFunc put together: the handler of the server is the chain of
-- middlewares around the router, and the router calls the handler that HandleFunc registered, behind
-- the instrumentation. `find` is the router's choice among the registered handlers.
pub mod Once
mod Tests
use goblocks.Prelude.Text.{Text}
use goblocks.Prelude.Eq.{nat_eq, int_eq, string_eq}
use goblocks.Prelude.Map
use goblocks.Prelude.Map.{Map}
use goblocks.Prelude.{ℕ, String, ◌⊎◌, Option, none, some}
use goblocks.HttpServer.Middleware.{Request, Handler, Wrapping, safety_wrappers}
use goblocks.HttpServer.Instrumentation.{World, HandlerWithResult, instrumentation_middleware}

-- what HandleFunc is given besides the route
pub record Registered (S : Type 0) (D : Type 0) : Type 1 where
  pub handler : HandlerWithResult S D
  pub service : String
  pub endpoint : String
  pub session_getter : Option (Text → (Text ⊎ D))

module _ {S D : Type 0} (now : S → ℕ) (req_id : Text) where
  -- the handler that HandleFunc passes to the router
  pub instrumented : Registered S D → Handler (World S)
  unfolding instrumentation_middleware
  instrumented e =
      instrumentation_middleware e.handler now e.service e.endpoint e.session_getter req_id

  -- ServeHTTP of the router, which answers itself when it finds no handler
  pub router : (Request → Option (Registered S D)) → Handler (World S) → Handler (World S)
  unfolding instrumented
  router find not_found s r w = elim (find r) [
    | none ↦ not_found s r w
    | some e ↦ instrumented e s r w
  ]

  -- the Handler of the http.Server that NewServer makes
  pub serve_http :
      Wrapping (World S)
      → (Request → Option (Registered S D))
      → Handler (World S)
      → Handler (World S)
  unfolding router
  serve_http c find not_found = safety_wrappers c (router find not_found)
