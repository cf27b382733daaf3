-- ===== src/App/Routes.antt =====
-- app/app.go, the loop of runEverything over the services, which gives the HTTP server's router their
-- handlers: addHandlers with HandleFunc of httpserver/http.go. A range over the map of services visits
-- them in the list's order.
pub mod Complete
mod Tests
use goblocks.Prelude.Text.{codes}
use goblocks.Prelude.Eq.{nat_eq, int_eq, string_eq}
use goblocks.Prelude.Map
use goblocks.Prelude.Map.{Map}
use goblocks.Prelude.{String, Bool, true, false, List, [], ◌∷◌, if◌then◌else◌}
use goblocks.App.Services.{HandlerDefinition, Registered, add_handlers}
use goblocks.HttpServer.Server.{Route, handle_func}

-- a service with what its GetHandlers gives
abbrev pub Handlers : Type 0 → Type 0
Handlers H = String × List (HandlerDefinition H)

-- the calls of HandleFunc that addHandlers makes
pub handle_all : {H : Type 0} → List Route → List (Registered H) → List Route
handle_all routes [] = routes
handle_all routes (c ∷ calls) =
    handle_all
      (handle_func routes c.service c.definition.endpoint c.definition.method
        (codes c.definition.path))
      calls

-- The routes, and whether logger.Fatal has ended the program.
pub record Routed : Type 0 where
  pub routes : List Route
  pub fatal : Bool

-- the method value service.GetSessionData is never nil
pub add_services : {H : Type 0} → List Route → List (Handlers H) → Routed
unfolding handle_all
add_services routes [] = record { routes = routes; fatal = false }
add_services routes ((name, handlers) ∷ services) =
    let added = add_handlers name handlers true in
    let after = handle_all routes added.calls in
    let rest = add_services after services in
    if added.fatal then record { routes = after; fatal = true } else rest
