-- ===== src/ContainerManager/Limits/Tests.antt =====
-- The theorems on the limits at concrete inputs.
use goblocks.Prelude.Eq.{nat_eq, int_eq, string_eq}
use goblocks.Prelude.Int.{pos, ◌≤ℤ◌}
use goblocks.Prelude.Map.{get}
use goblocks.Prelude.{◌-◌, ◌*◌, ◌/◌, ◌^◌, ◌≤◌, ◌≡◌, ◌↔◌, none, some, [], ◌∷◌, arith}
use goblocks.ContainerManager.Limits.{
  StatsResponse, RuntimeLimits, check_limits, consumed, net_bytes,
}
use goblocks.ContainerManager.Limits.Checks.{check_limits_lem, consumed_wraps}

abbrev limits : RuntimeLimits
limits = record { cpu_time = 100; net = 1; run_time = 10; tmp_dir = 0 }

abbrev some_stats : StatsResponse
some_stats = record {
  total_usage = 5_000_000;
  networks = ("eth0", record { rx_bytes = 7; tx_bytes = 8 }) ∷ [];
}

check_limits_lem_example :
    ((check_limits (some some_stats) (pos 1) 1_000_000 3 limits).2 ≡ none) ↔ (
      ((5_000_000 - 1_000_000) / 1_000_000 ≤ 100)
      × ((net_bytes some_stats - 3) / 1024 / 1024 ≤ 1)
      × (pos 1 ≤ℤ pos (10 * 1_000_000_000)))
unfolding net_bytes get
check_limits_lem_example =
    check_limits_lem some_stats (pos 1) 1_000_000 3 limits
      (record { cpu = omega arith; cpu_fits = omega arith; net = omega arith }) (omega arith)

consumed_wraps_tried :
    consumed 0 0 5_000_000 3
    ≡ record { cpu_time = (2 ^ 64 - 5_000_000) / 1_000_000; net = 2 ^ 64 - 3 }
unfolding check_limits
consumed_wraps_tried =
    consumed_wraps (pos 1) 5_000_000 3 limits (omega arith) (omega arith) (omega arith)
      (omega arith)
