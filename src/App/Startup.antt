-- ===== src/App/Startup.antt =====
-- app/app.go, Run: the reporter of the application and the services, each with its own reporter, made
-- by factories that are parameters, and what runEverything does to the readiness of the application. A
-- range over the map of services visits them in the list's order. The other parts that Run makes are
-- left out; each ends the program if it cannot be made. The goroutines, their context and the signals
-- are those of a third-party error group, of which only the result of Wait is used, as a parameter.
pub mod Readiness
mod Tests
use goblocks.Prelude.Eq.{nat_eq, int_eq, string_eq}
use goblocks.Prelude.Map
use goblocks.Prelude.Map.{Map}
use goblocks.Prelude.{ℕ, String, ◌⊎◌, inl, inr, Option, List, [], ◌∷◌}
use goblocks.AppStatus.{
  StatusReporter, ServiceReporter, Call, new, get_service_reporter, ready, not_ready, ok, err,
}
use goblocks.AppStatus
use goblocks.App.Config.{RegisteredService}

-- A factory: the calls that it makes on reporters, and the service or its error.
abbrev pub Factory : Type 0 → Type 0
Factory Svc = RegisteredService → ServiceReporter → List Call × (ℕ ⊎ Svc)

-- The call of logger.Fatal that Run has come to.
pub data Fatal : Type 0 where
  no_reporter : String → Fatal
  no_service : String → ℕ → Fatal

-- What Run's loop over the services leaves.
pub data Started (Svc : Type 0) : Type 0 where
  started : StatusReporter → List (String × Svc) → Started Svc
  fatal : StatusReporter → Fatal → Started Svc

abbrev pub and_service : {Svc : Type 0} → String × Svc → Started Svc → Started Svc
and_service s (started status services) = started status (s ∷ services)
and_service s (fatal status f) = fatal status f

-- What runEverything leaves: the status as long as the error group runs, the status at the end, and
-- the error that it logs, if there is one.
pub record Ended : Type 0 where
  pub serving : StatusReporter
  pub status : StatusReporter
  pub logged : Option ℕ

-- runEverything, whose error group gives `waited`
pub run_everything : StatusReporter → Option ℕ → Ended
run_everything s waited =
    let serving = ready s "app" in
    record { serving = serving; status = not_ready serving "app"; logged = waited }

module _ {Svc : Type 0} (factory : Factory Svc) where
  -- the loop over the services
  pub create_services : StatusReporter → Map String RegisteredService → Started Svc
  create_services status [] = started status []
  create_services status ((name, reg) ∷ defs) =
      let registered = get_service_reporter status name in
      let reporter : ServiceReporter = record { service_name = name } in
      let made = factory reg reporter in
      let called = AppStatus.run registered.0 made.0 in
      let rest = create_services called defs in
      elim registered.1 [
        | err e ↦ fatal registered.0 (no_reporter name)
        | ok r ↦ elim made.1 [
          | inl e ↦ fatal called (no_service name e)
          | inr svc ↦ and_service (name, svc) rest
        ]
      ]

  -- Run up to runEverything; the application's reporter is the first
  pub start : Map String RegisteredService → Started Svc
  unfolding create_services
  start defs = create_services (get_service_reporter new "app").0 defs

  -- Run, to the end of Wait, which returns `waited`
  pub run_app : Map String RegisteredService → Option ℕ → Fatal ⊎ Ended
  unfolding start run_everything
  run_app defs waited = elim (start defs) [
    | fatal status f ↦ inl f
    | started status services ↦ inr (run_everything status waited)
  ]
