-- ===== src/StatServer/Tests.antt =====
-- The probes tried out: a service that is registered and not yet ready.
use goblocks.Prelude.{String, ◌≡◌, ◌↔◌, Bool, true, none, some, List, [], ◌∷◌}
use goblocks.AppStatus.{Call, registers, new, run}
use goblocks.AppStatus.Readiness.{last_status}
use goblocks.StatServer.{code, serve}
use goblocks.StatServer.Probes.{serve_lem}

abbrev calls : List Call
calls = registers "app" ∷ []

serve_lem_example :
    ((serve (run new calls) "/ready" ≡ code 200)
      ↔ ((name : String) (r : Bool) → last_status name none calls ≡ some r → r ≡ true))
    × (serve (run new calls) "/alive" ≡ code 200)
serve_lem_example = serve_lem calls
