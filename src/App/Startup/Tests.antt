-- ===== src/App/Startup/Tests.antt =====
-- A start tried out: the second service's name is taken.
use goblocks.Prelude.Eq.{nat_eq, int_eq, string_eq}
use goblocks.Prelude.Map.{Map}
use goblocks.Prelude.{ℕ, String, refl, inr, [], ◌∷◌}
use goblocks.App.Config.{RegisteredService}
use goblocks.App.Startup.{Factory, start}
use goblocks.App.Startup.Readiness.{IsUnready, names, start-IsUnready}
use goblocks.Conftool.Fields.{no_more}

abbrev service : String → RegisteredService
service name = record { name = name; config = record { typ = "c"; fields = no_more } }

abbrev defs : Map String RegisteredService
defs = ("a", service "a") ∷ ("app", service "app") ∷ []

abbrev factory : Factory ℕ
factory reg reporter = ([], inr 1)

name_taken : IsUnready (names defs) (start factory defs)
name_taken = start-IsUnready factory defs (λ reg reporter. refl)
