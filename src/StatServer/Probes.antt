-- ===== src/StatServer/Probes.antt =====
-- What the probes answer after any calls of the services' reporters.
use goblocks.Prelude.{String, ◌≡◌, refl, ◌↔◌, Bool, true, none, some, List, arith, if◌then◌else◌}
use goblocks.AppStatus.{StatusReporter, Call, new, run, is_ready}
use goblocks.AppStatus.Readiness.{last_status, reports_death, is_ready-run, is_alive-run}
use goblocks.StatServer.{ready_handler, alive_handler, code, serve}

is_ready-code : (s : StatusReporter) → is_ready s ≡ true → code (ready_handler s) ≡ code 200
unfolding ready_handler
is_ready-code s h = rw h refl

code-is_ready : (s : StatusReporter) → code (ready_handler s) ≡ code 200 → is_ready s ≡ true
unfolding ready_handler
code-is_ready s h = ground (arith, h)

-- After any calls of the reporters, the readiness probe is answered with 200 exactly when the last
-- status that each name was given is "ready", a registration giving "not ready" to a new name; the
-- liveness probe is answered with 500 if some reporter has called Dead, and with 200 if none has.
pub serve_lem :
    (cs : List Call)
    → ((serve (run new cs) "/ready" ≡ code 200)
        ↔ ((name : String) (r : Bool) → last_status name none cs ≡ some r → r ≡ true))
      × (serve (run new cs) "/alive" ≡ code (if reports_death cs then 500 else 200))
unfolding serve alive_handler
serve_lem cs =
    let s = run new cs in
    let readiness = is_ready-run cs in
    (
      (λ h. readiness.0 (code-is_ready s h), λ h. is_ready-code s (readiness.1 h)),
      rw (is_alive-run cs) (ground arith),
    )
