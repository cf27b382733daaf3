-- ===== src/HttpServer/Connections.antt =====
-- httpserver/connection_watcher.go: the count of open connections. OnStateChange is called by the
-- HTTP server with each new state of a connection; its atomic add is one step.
pub mod Counting
mod Tests
use goblocks.Prelude.Eq.{nat_eq, int_eq, string_eq}
use goblocks.Prelude.Int.{ℤ, pos, negsuc, ◌+ℤ◌}
use goblocks.Prelude.Map
use goblocks.Prelude.Map.{Map}
use goblocks.Prelude.{ℕ, ◌+◌, Bool, true, false, List, [], ◌∷◌}

pub data ConnState : Type 0 where
  state_new state_active state_idle state_hijacked state_closed : ConnState

pub record ConnectionWatcher : Type 0 where
  pub currently_open : ℤ
  pub connections_gauge : ℤ
  pub opened : ℕ
  pub closed : ℕ

-- NewConnectionWatcher
pub new_connection_watcher : ConnectionWatcher
new_connection_watcher = record {
  currently_open = pos 0;
  connections_gauge = pos 0;
  opened = 0;
  closed = 0;
}

abbrev is_over : ConnState → Bool
is_over state_hijacked = true
is_over state_closed = true
is_over _ = false

-- OnStateChange
pub on_state_change : ConnectionWatcher → ConnState → ConnectionWatcher
on_state_change cw state_new = record cw {
  currently_open = cw.currently_open +ℤ pos 1;
  connections_gauge = cw.currently_open +ℤ pos 1;
  opened = cw.opened + 1;
}
on_state_change cw state_active = cw
on_state_change cw state_idle = cw
on_state_change cw _ = record cw {
  currently_open = cw.currently_open +ℤ negsuc 0;
  connections_gauge = cw.currently_open +ℤ negsuc 0;
  closed = cw.closed + 1;
}

-- Count
pub count : ConnectionWatcher → ℤ
count cw = cw.currently_open

pub observe : ConnectionWatcher → List ConnState → ConnectionWatcher
observe cw [] = cw
observe cw (st ∷ sts) = observe (on_state_change cw st) sts
