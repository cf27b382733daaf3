-- ===== src/App/Startup/Readiness.antt =====
-- The readiness of an application that starts.
use goblocks.Prelude.Eq.{nat_eq, int_eq, string_eq}
use goblocks.Prelude.Map.{Map, get, put}
use goblocks.Prelude.{
  ℕ, String, ◌≡◌, refl, ap, ◌∙◌, ◌⊎◌, inl, inr, false, some, List, [], ◌∷◌, arith,
}
use goblocks.AppStatus.{
  StatusReporter, ServiceReporter, registers, new, get_service_reporter, is_ready, Result, ok, err,
}
use goblocks.AppStatus
use goblocks.AppStatus.Readiness.{last_status, status, step-last_status, status-run, unready_lem}
use goblocks.App.Config.{RegisteredService}
use goblocks.App.Startup.{
  Factory, no_reporter, no_service, Started, started, fatal, and_service, create_services, start,
}

abbrev pub names {ℓ} : {A : Type ℓ} → List (String × A) → List String
names [] = []
names ((name, a) ∷ m) = name ∷ names m

-- No factory reports that the application is ready.
abbrev pub Waits : {Svc : Type 0} → Factory Svc → Type 0
Waits factory =
    (reg : RegisteredService) (reporter : ServiceReporter)
    → last_status "app" (some false) (factory reg reporter).0 ≡ some false

-- The services are those that were registered, and in no case is the application ready yet.
abbrev pub IsUnready : {Svc : Type 0} → List String → Started Svc → Type 0
IsUnready ns (started st services) = (names services ≡ ns) × (is_ready st ≡ false)
IsUnready ns (fatal st f) = is_ready st ≡ false

and_service-IsUnready :
    {Svc : Type 0} (ns : List String) (name : String) (svc : Svc) (r : Started Svc)
    → IsUnready ns r
    → IsUnready (name ∷ ns) (and_service (name, svc) r)
and_service-IsUnready ns name svc (started st services) h = (ap (λ m. name ∷ m) h.0, h.1)
and_service-IsUnready ns name svc (fatal st f) h = h

made_service-IsUnready :
    {Svc : Type 0} (ns : List String) (name : String) (st called : StatusReporter)
    (r : Result ServiceReporter) (svc : ℕ ⊎ Svc) (rest : Started Svc)
    → is_ready st ≡ false
    → is_ready called ≡ false
    → IsUnready ns rest
    → IsUnready (name ∷ ns) (elim r [
      | err e ↦ fatal st (no_reporter name)
      | ok p ↦ elim svc [
        | inl e ↦ fatal called (no_service name e)
        | inr v ↦ and_service (name, v) rest
      ]
    ])
made_service-IsUnready ns name st called (err e) svc rest h g u = h
made_service-IsUnready ns name st called (ok p) (inl e) rest h g u = g
made_service-IsUnready ns name st called (ok p) (inr v) rest h g u =
    and_service-IsUnready ns name v rest u

registers_keeps :
    (s : StatusReporter) (name : String)
    → status s "app" ≡ some false
    → status (get_service_reporter s name).0 "app" ≡ some false
unfolding AppStatus.step
registers_keeps s name h = ground (arith, h, step-last_status s (registers name) "app")

create_services-IsUnready :
    {Svc : Type 0} (factory : Factory Svc) (s : StatusReporter)
    (defs : Map String RegisteredService)
    → Waits factory
    → status s "app" ≡ some false
    → IsUnready (names defs) (create_services factory s defs)
unfolding create_services
create_services-IsUnready factory s [] w h = (refl, unready_lem s "app" h)
create_services-IsUnready factory s ((name, reg) ∷ defs) w h =
    let registered = get_service_reporter s name in
    let reporter : ServiceReporter = record { service_name = name } in
    let made = factory reg reporter in
    let called = AppStatus.run registered.0 made.0 in
    let first = registers_keeps s name h in
    let after : status called "app" ≡ some false =
      status-run registered.0 made.0 "app"
      ∙ ap (λ r. last_status "app" r made.0) first
      ∙ w reg reporter in
    made_service-IsUnready (names defs) name registered.0 called registered.1 made.1
      (create_services factory called defs) (unready_lem registered.0 "app" first)
      (unready_lem called "app" after) (create_services-IsUnready factory called defs w after)

start_app : status (get_service_reporter new "app").0 "app" ≡ some false
unfolding new get_service_reporter get put
start_app = refl

-- Run up to runEverything, when no factory reports that the application is ready: if it gets there,
-- its services are those that were registered, in this order, and whether it gets there or ends
-- before, the application is not ready.
pub start-IsUnready :
    {Svc : Type 0} (factory : Factory Svc) (defs : Map String RegisteredService)
    → Waits factory
    → IsUnready (names defs) (start factory defs)
unfolding start
start-IsUnready factory defs w =
    create_services-IsUnready factory (get_service_reporter new "app").0 defs w start_app
