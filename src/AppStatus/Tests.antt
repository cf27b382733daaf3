-- ===== src/AppStatus/Tests.antt =====
-- The theorems on appstatus/appstatus.go at concrete inputs.
use goblocks.Prelude.Eq.{nat_eq, int_eq, string_eq}
use goblocks.Prelude.Map.{get}
use goblocks.Prelude.{String, ◌≡◌, ◌↔◌, Bool, true, false, not, none, some, List, [], ◌∷◌}
use goblocks.AppStatus.{
  StatusReporter, Call, registers, reports_ready, reports_dead, new, get_service_reporter, is_ready,
  is_alive, run,
}
use goblocks.AppStatus.Readiness.{
  last_status, is_ready-run, is_alive-run, register_lem, reports_death,
}

abbrev history : List Call
history =
    registers "app"
    ∷ registers "db"
    ∷ reports_ready (record { service_name = "app" })
    ∷ reports_dead (record { service_name = "db" })
    ∷ []

is_ready-run_tried :
    (is_ready (run new history) ≡ true)
    ↔ ((name : String) (r : Bool) → last_status name none history ≡ some r → r ≡ true)
is_ready-run_tried = is_ready-run history

is_alive-run_tried : is_alive (run new history) ≡ not (reports_death history)
is_alive-run_tried = is_alive-run history

abbrev app_only : StatusReporter
app_only = record { app_alive = true; service_ready = ("app", true) ∷ [] }

register_lem_tried : is_ready (get_service_reporter app_only "db").0 ≡ false
unfolding get
register_lem_tried = register_lem app_only "db"
