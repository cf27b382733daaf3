-- ===== src/ContainerManager/Execute/Tests.antt =====
-- The theorems on Execute at concrete inputs.
use goblocks.Prelude.Eq.{nat_eq, int_eq, string_eq}
use goblocks.Prelude.Int.{pos}
use goblocks.Prelude.Map.{get, put}
use goblocks.Prelude.{◌≡◌, refl, true, false, none, some, [], ◌∷◌}
use goblocks.ContainerManager.Registry.{Registry, idle, busy, set_busy}
use goblocks.ContainerManager.Limits.{
  StatsResponse, RuntimeLimits, check_limits, consumed, net_bytes, get_current_stats, exceeded,
  limit_cpu,
}
use goblocks.ContainerManager.Execute.{
  ContainerPipe, created, done_streaming, tick, Docker, Outcome, execute, busy_container,
  no_zero_state, limit, teardown, stop, watch, conclude,
}
use goblocks.ContainerManager.Execute.Outcomes.{
  Ends, execute-Ends, settled, execute-settled_state, execute_stuck,
}

abbrev one_idle : Registry
one_idle = ("a", idle) ∷ []

abbrev one_busy : Registry
one_busy = ("a", busy) ∷ []

abbrev limits : RuntimeLimits
limits = record { cpu_time = 100; net = 1; run_time = 10; tmp_dir = 0 }

abbrev some_stats : StatsResponse
some_stats = record {
  total_usage = 5_000_000;
  networks = ("eth0", record { rx_bytes = 7; tx_bytes = 8 }) ∷ [];
}

abbrev pipe : ContainerPipe
pipe = record { std_out = some 1; std_err = none }

abbrev docker : Docker
docker = record {
  exec_create = created "x";
  exec_attach_ok = true;
  zero_stats = some some_stats;
  events = tick (some some_stats) (pos 1) false ∷ done_streaming ∷ [];
  last_stats = some some_stats;
  last_elapsed = pos 2;
  exec_inspect = some (pos 0);
}

abbrev succeeded : Outcome
succeeded = record {
  registry = one_busy;
  code = pos 0;
  error = none;
  consumed_sent = some (record { cpu_time = 0; net = 0 });
  streams = some (record { std_out = some 1; std_err = some 1 });
  tasks = teardown "a" ∷ [];
}

succeeds : execute one_idle "a" pipe limits docker ≡ some succeeded
unfolding execute watch conclude set_busy get put check_limits get_current_stats consumed net_bytes
    exceeded
succeeds = refl

execute-Ends_example : Ends one_idle "a" succeeded none
execute-Ends_example = execute-Ends one_idle "a" pipe limits docker succeeded succeeds

idle_afterwards : get (settled one_busy (teardown "a" ∷ [])) "a" ≡ some idle
idle_afterwards = execute-settled_state one_idle "a" pipe limits docker succeeded succeeds

abbrev tight : RuntimeLimits
tight = record limits { cpu_time = 3 }

abbrev later_stats : StatsResponse
later_stats = record some_stats { total_usage = 9_000_000 }

abbrev greedy : Docker
greedy = record docker { events = tick (some later_stats) (pos 1) false ∷ [] }

abbrev over_cpu : Outcome
over_cpu = record succeeded {
  code = pos 301;
  error = some (limit limit_cpu);
  consumed_sent = some (record { cpu_time = 4; net = 0 });
  tasks = stop "a" ∷ [];
}

goes_over : execute one_idle "a" pipe tight greedy ≡ some over_cpu
unfolding execute watch conclude set_busy get put check_limits get_current_stats consumed net_bytes
    exceeded
goes_over = refl

over_cpu_is_gone : get (settled one_busy (stop "a" ∷ [])) "a" ≡ none
over_cpu_is_gone = execute-settled_state one_idle "a" pipe tight greedy over_cpu goes_over

abbrev blind : Docker
blind = record docker { zero_stats = none }

abbrev without_stats : Outcome
without_stats = record {
  registry = one_busy;
  code = pos 0;
  error = some no_zero_state;
  consumed_sent = none;
  streams = none;
  tasks = [];
}

lacks_stats : execute one_idle "a" pipe limits blind ≡ some without_stats
unfolding execute set_busy get put get_current_stats
lacks_stats = refl

execute_stuck_tried :
    (without_stats.tasks ≡ [])
    × ((p : Outcome) × (execute one_busy "a" pipe limits docker ≡ some p)
        × (p.error ≡ some busy_container)
        × (p.registry ≡ one_busy)
        × (p.tasks ≡ []))
execute_stuck_tried =
    execute_stuck one_idle "a" pipe pipe limits blind docker without_stats no_zero_state 1
      lacks_stats refl refl refl
