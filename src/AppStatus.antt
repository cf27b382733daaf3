-- ===== src/AppStatus.antt =====
-- appstatus/appstatus.go: readiness of the registered services and liveness of the application.
-- Each method holds the lock for its whole body. A service reporter is a pointer to the one status
-- reporter with a service's name, so its calls are calls on the shared state under that name.
pub mod Readiness
mod Tests
use goblocks.Prelude.Eq.{nat_eq, int_eq, string_eq}
use goblocks.Prelude.Map
use goblocks.Prelude.Map.{Map, get, put}
use goblocks.Prelude.{String, Bool, true, false, not, none, some, List, [], ◌∷◌, if◌then◌else◌}

pub record StatusReporter : Type 0 where
  pub app_alive : Bool
  pub service_ready : Map String Bool

pub record ServiceReporter : Type 0 where
  pub service_name : String

pub data Error : Type 0 where
  already_registered : Error

pub data Result {ℓ} (A : Type ℓ) : Type ℓ where
  ok : A → Result A
  err : Error → Result A

-- New
unfoldable pub new : StatusReporter
new = record { app_alive = true; service_ready = [] }

-- GetServiceReporter
unfoldable pub get_service_reporter :
    StatusReporter → String → StatusReporter × Result ServiceReporter
get_service_reporter s name = elim (get s.service_ready name) [
  | some _ ↦ (s, err already_registered)
  | none ↦ (
    record s { service_ready = put s.service_ready name false },
    ok (record { service_name = name }),
  )
]

pub ready : StatusReporter → String → StatusReporter
ready s name = record s { service_ready = put s.service_ready name true }

pub not_ready : StatusReporter → String → StatusReporter
not_ready s name = record s { service_ready = put s.service_ready name false }

pub dead : StatusReporter → StatusReporter
dead s = record s { app_alive = false }

-- the range of IsReady, which returns at the first service that is not ready
pub all_ready : Map String Bool → Bool
all_ready [] = true
all_ready ((_, r) ∷ m) = if not r then false else all_ready m

-- IsReady
pub is_ready : StatusReporter → Bool
is_ready s = all_ready s.service_ready

-- IsAlive
pub is_alive : StatusReporter → Bool
is_alive s = s.app_alive

-- The calls that a program makes, Ready, NotReady and Dead through a reporter.
pub data Call : Type 0 where
  registers : String → Call
  reports_ready reports_not_ready reports_dead : ServiceReporter → Call

unfoldable pub step : StatusReporter → Call → StatusReporter
step s (registers name) = (get_service_reporter s name).0
step s (reports_ready r) = ready s r.service_name
step s (reports_not_ready r) = not_ready s r.service_name
step s (reports_dead r) = dead s

pub run : StatusReporter → List Call → StatusReporter
run s [] = s
run s (c ∷ cs) = run (step s c) cs
