-- ===== src/App/Routes/Complete.antt =====
-- Which routes the services of an application get.
use goblocks.Prelude.Text.{codes}
use goblocks.Prelude.{String, Bool, false, ◌||◌, List, [], ◌∷◌, ◌++◌, map}
use goblocks.App.Services.{HandlerDefinition}
use goblocks.App.Services.Sessions.{after_leading, some_required}
use goblocks.HttpServer.Server.{Route, pattern_of}
use goblocks.App.Routes.{Handlers}

module _ {H : Type 0} where
  -- the route of a handler of a service
  abbrev pub route : String → HandlerDefinition H → Route
  route name h = record {
    method = h.method;
    pattern = pattern_of (codes h.path);
    service = name;
    endpoint = h.endpoint;
  }

  abbrev pub routes_of : String → List (HandlerDefinition H) → List Route
  routes_of name hs = map (route name) hs

  -- the routes of all handlers of all services
  abbrev pub all_routes : List (Handlers H) → List Route
  all_routes [] = []
  all_routes ((name, hs) ∷ services) = routes_of name hs ++ all_routes services

  -- whether in some service a handler that wants a session follows one that wants none
  abbrev pub some_mixed : List (Handlers H) → Bool
  some_mixed [] = false
  some_mixed ((name, hs) ∷ services) = some_required (after_leading hs) || some_mixed services
