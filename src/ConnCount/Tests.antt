-- ===== src/ConnCount/Tests.antt =====
-- The theorem on conncount/transport.go at a concrete interleaving.
use goblocks.Prelude.Int.{pos, ◌≤ℤ◌}
use goblocks.Prelude.{◌≡◌, List, [], ◌∷◌, All}
use goblocks.ConnCount.{Event, dials, closes, loads, calls_back, dial_fails, new_transport, run}
use goblocks.ConnCount.Counter.{open_conns, counter-run}

abbrev interleaving : List Event
interleaving =
    dials
    ∷ dials
    ∷ loads
    ∷ loads
    ∷ closes 0
    ∷ closes 0
    ∷ calls_back 1
    ∷ dial_fails
    ∷ loads
    ∷ calls_back 0
    ∷ []

counter-run_example :
    ((run new_transport interleaving).conn_counter
      ≡ pos (open_conns (run new_transport interleaving).close_once))
    × All (λ n. pos 0 ≤ℤ n) (run new_transport interleaving).reported
counter-run_example = counter-run interleaving
