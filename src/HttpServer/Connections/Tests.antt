-- ===== src/HttpServer/Connections/Tests.antt =====
-- The theorem on httpserver/connection_watcher.go at a concrete input.
use goblocks.Prelude.Int.{pos}
use goblocks.Prelude.{◌≡◌, List, [], ◌∷◌, arith}
use goblocks.HttpServer.Connections.{
  ConnState, state_new, state_active, state_closed, state_hijacked, new_connection_watcher, count,
  observe,
}
use goblocks.HttpServer.Connections.Counting.{count-observe}

abbrev seen : List ConnState
seen = state_new ∷ state_active ∷ state_new ∷ state_closed ∷ state_new ∷ state_hijacked ∷ []

closed_and_hijacked :
    let cw = observe new_connection_watcher seen in
    (count cw ≡ pos 1) × (cw.connections_gauge ≡ count cw) × (cw.opened ≡ 3) × (cw.closed ≡ 2)
closed_and_hijacked = count-observe seen (omega arith)
